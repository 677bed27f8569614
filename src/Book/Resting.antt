-- ===== src/Book/Resting.antt =====
-- What a limit order leaves in the queues when it is good till cancelled.
mod Tests
use l4_book.Prelude.{
  ◌+◌, ◌-◌, ◌<◌, ◌≡◌, refl, ap, sym, ◌∙◌, subst, some-inj, Option, none, some, arith, ℕ, ℕ_discrete,
  Bool-cases, inl, inr, true, false, ltb, ◌==◌, ==_ne, if◌then◌else◌, u64_mod, is_some,
  Option-cases,
}
use l4_book.Types.{Order, TakerMatch, gtc}
use l4_book.Containers.HashMap
use l4_book.Book.{OrderBook, Run, ok, add, and_then}
use l4_book.Book.Add.{add-enqueue, enqueue}
use l4_book.Book.Alloc.{HasRoom}
use l4_book.Book.Growth.Frames.{Holds}
use l4_book.Book.Growth.Room.{apply_taker_order-Roomy}
use l4_book.Book.Growth.Unknown.{IsUnknown, apply_taker_order-IsUnknown}
use l4_book.Book.Invariant.{IsWellFormed, Queues}
use l4_book.Book.Matched.{match_taker_order-available}
use l4_book.Book.Queries.{depth}
use l4_book.Book.Slippage.{opposite}
use l4_book.Book.Taker.{
  match_taker_order, apply_taker_order, outcome, rest_remainder, submit_gtc, submit_by,
  submit_limit_order,
}
use l4_book.Book.Taking.{drained, apply_taker_order-drained}

-- The order with the size that its fills leave, if there is one.
abbrev pub remainder : Order → TakerMatch → Option Order
remainder o m = if ltb 0 m.unfilled_qty then some (record o { qty = m.unfilled_qty }) else none

-- The queues with the remainder, in slot `x`, behind its queue.
abbrev pub rested : ℕ → Option Order → Queues → Queues
rested x none q = q
rested x (some o) q = enqueue x o q

fresh-IsUnknown :
    (b : OrderBook) (o : Order)
    → HashMap.contains_key ℕ_discrete o.id b.order_index ≡ false
    → IsUnknown o.id b
unfolding HashMap.contains_key
fresh-IsUnknown b o fresh = elim (Option-cases (HashMap.get ℕ_discrete o.id b.order_index)) [
  | inl e ↦ e
  | inr (x, e) ↦ cc (fresh, ap is_some e)
]

-- The remainder of a matched order.
rest_remainder-rested :
    (o : Order) (m : TakerMatch) (b : OrderBook) (q : Queues)
    → IsWellFormed b q
    → HasRoom b
    → IsUnknown o.id b
    → m.unfilled_qty < u64_mod
    → (x : ℕ) × (b' : OrderBook) × (rest_remainder o m b
        ≡ ok (outcome gtc none m (remainder o m)) b')
      × IsWellFormed b' (rested x (remainder o m) q)
unfolding rest_remainder
rest_remainder-rested o m b q wf room unknown bounded = elim (Bool-cases (ltb 0 m.unfilled_qty)) [
  | inr nothing ↦ (0, b, rw nothing refl, rw nothing wf)
  | inl some_left ↦
      let (x, b', run, good) =
        add-enqueue b q (record o { qty = m.unfilled_qty }) wf room (ground arith) bounded
          unknown in
      (x, b', rw (some_left, run) refl, rw some_left good)
]

module _ (b : OrderBook) (q : Queues) (wf : IsWellFormed b q) where
  -- On a well-formed book with room, an order of a positive `u64` size and a new identifier that is good
  -- till cancelled is accepted. What it fills is taken off the front of the queues of the other side,
  -- best price first up to its limit, and what is left of it, if anything, rests last in its own
  -- queue; the book is well formed again.
  pub submit_limit_order-rested :
      (o : Order)
      → HasRoom b
      → 0 < o.qty
      → o.qty < u64_mod
      → HashMap.contains_key ℕ_discrete o.id b.order_index ≡ false
      → (m : TakerMatch) × (x : ℕ) × (b' : OrderBook) × (match_taker_order o.side o.qty o.price b
          ≡ some m)
        × (submit_limit_order o gtc b ≡ ok (outcome gtc none m (remainder o m)) b')
        × IsWellFormed b'
            (rested x (remainder o m) (drained o.side o.price o.qty (depth (opposite o.side) b) q))
  unfolding submit_limit_order submit_by submit_gtc
  submit_limit_order-rested o room pos bounded fresh =
      let (m, b₁, found, run, good) =
        apply_taker_order-drained o.side o.price o.qty b q wf (omega arith) in
      let (m', found', left, sum, _) = match_taker_order-available b q wf o.side o.qty o.price in
      let less : m.unfilled_qty < u64_mod =
        subst (λ t. t.unfilled_qty < u64_mod) (some-inj (sym found' ∙ found))
          (omega (arith, sum)) in
      let (x, b', rest, good') =
        rest_remainder-rested o m b₁ _ good
          (subst (Holds HasRoom) run (apply_taker_order-Roomy o.side o.qty o.price b room))
          (subst (Holds (IsUnknown o.id)) run
            (apply_taker_order-IsUnknown o.id o.side o.qty o.price b (fresh-IsUnknown b o fresh)))
          less in
      (m, x, b', found, rw (==_ne o.qty 0 (omega arith), fresh, run) rest, good')
