-- ===== src/Book/Taken.antt =====
-- Taker orders change the book by fills of resting orders, each of which keeps it well formed.
use l4_book.Prelude.{
  ◌<◌, List, ltb, arith, [], ◌∷◌, ℕ_discrete, ◌==◌, Bool-cases, inl, inr, u64_mod,
}
use l4_book.Types.{
  Order, Price, Qty, Side, FillDelta, BookError, LimitOrderPolicy, gtc, ioc, fok, post_only,
  is_complete, TakerMatch,
}
use l4_book.Containers.HashMap
use l4_book.Book.{OrderBook, Run, ok, err, and_then, discard}
use l4_book.Book.Alloc.{HasRoom}
use l4_book.Book.Growth.Room.{Roomy, apply_fills-Roomy}
use l4_book.Book.Invariant.{IsWellFormed, Queues}
use l4_book.Book.Matched.{match_taker_order-available}
use l4_book.Book.Ops.{Sound, kept, refused, remove-Sound, update_size-Sound, add-Sound}
use l4_book.Book.Taker.{
  apply_fill, apply_fills, apply_taker_order, limit_order_would_cross, submit_limit_order,
  rest_remainder, submit_by, submit_gtc, submit_ioc, submit_fok, submit_post_only,
}

-- A success and an error both leave a well-formed book, and there is no panic.
pub data Keeps {A : Type 0} : Run A → Type 0 where
  done : {a : A} {b' : OrderBook} (q' : Queues) → IsWellFormed b' q' → Keeps (ok a b')
  failed : {e : BookError} {b' : OrderBook} (q' : Queues) → IsWellFormed b' q' → Keeps (err e b')

module _ {A : Type 0} where
  Sound-Keeps : (b : OrderBook) (q : Queues) {r : Run A} → IsWellFormed b q → Sound b r → Keeps r
  Sound-Keeps b q wf (kept q' good) = done q' good
  Sound-Keeps b q wf (refused e) = failed q (rw e wf)

  discard-Keeps : {r : Run A} → Keeps r → Keeps (discard r)
  discard-Keeps (done q wf) = done q wf
  discard-Keeps (failed q wf) = failed q wf

  and_then-Keeps :
      {B : Type 0} {r : Run A} (f : A → OrderBook → Run B)
      → Keeps r
      → ((a : A) (b : OrderBook) (q : Queues) → IsWellFormed b q → Keeps (f a b))
      → Keeps (and_then r f)
  and_then-Keeps f (done q wf) g = g _ _ q wf
  and_then-Keeps f (failed q wf) g = failed q wf

apply_fill-Keeps :
    (fill : FillDelta) (b : OrderBook) (q : Queues) → IsWellFormed b q → Keeps (apply_fill fill b)
unfolding apply_fill
apply_fill-Keeps fill b q wf = elim (Bool-cases fill.maker_removed) [
  | inl e ↦ rw e (discard-Keeps (Sound-Keeps b q wf (remove-Sound b q wf fill.maker_order_id)))
  | inr e ↦
      rw e (Sound-Keeps b q wf (update_size-Sound b q wf fill.maker_order_id fill.maker_qty_after))
]

apply_fills-Keeps :
    (fills : List FillDelta) (b : OrderBook) (q : Queues)
    → IsWellFormed b q
    → Keeps (apply_fills fills b)
unfolding apply_fills
apply_fills-Keeps [] b q wf = done q wf
apply_fills-Keeps (fill ∷ fills) b q wf =
    and_then-Keeps (λ _ b'. apply_fills fills b') (apply_fill-Keeps fill b q wf)
      (λ _ b' q' wf'. apply_fills-Keeps fills b' q' wf')

-- The remainder of an order rests after the fills, which leave room for it.
rest_remainder-Keeps :
    (o : Order) (m : TakerMatch) (b : OrderBook) (q : Queues)
    → IsWellFormed b q
    → HasRoom b
    → m.unfilled_qty < u64_mod
    → Keeps (rest_remainder o m b)
unfolding rest_remainder
rest_remainder-Keeps o m b q wf room bounded = elim (Bool-cases (ltb 0 m.unfilled_qty)) [
  | inl more ↦ rw more (
      and_then-Keeps _
        (Sound-Keeps b q wf (add-Sound b q wf (record o { qty = m.unfilled_qty }) room bounded))
        (λ _ b' q' wf'. done q' wf'))
  | inr none_left ↦ rw none_left (done q wf)
]

fills-Keeps :
    {A B : Type 0} {r : Run (Unit {0})} (a : A) (f : A → OrderBook → Run B)
    → Keeps r
    → Roomy r
    → ((b : OrderBook) (q : Queues) → IsWellFormed b q → HasRoom b → Keeps (f a b))
    → Keeps (and_then (and_then r (λ _ b. ok a b)) f)
fills-Keeps a f (done q wf) room k = k _ q wf room
fills-Keeps a f (failed q wf) room k = failed q wf

module _ (b : OrderBook) (q : Queues) (wf : IsWellFormed b q) where
  -- On a well-formed book `apply_taker_order` does not panic, and leaves a well-formed book, also
  -- when it returns an error.
  pub apply_taker_order-Keeps :
      (side : Side) (qty : Qty) (limit : Price) → Keeps (apply_taker_order side qty limit b)
  unfolding apply_taker_order
  apply_taker_order-Keeps side qty limit =
      let (m, e, _, _, _) = match_taker_order-available b q wf side qty limit in
      elim (Bool-cases (qty == 0)) [
        | inl z ↦ rw z (failed q wf)
        | inr nz ↦
            rw (nz, apply_taker_order, e)
              (and_then-Keeps (λ _ b'. ok m b') (apply_fills-Keeps m.fills b q wf)
                (λ _ b' q' wf'. done q' wf'))
      ]

  submit_gtc-Keeps : (o : Order) → HasRoom b → o.qty < u64_mod → Keeps (submit_gtc o b)
  unfolding submit_gtc apply_taker_order
  submit_gtc-Keeps o room bounded =
      let (m, e, _, sum, _) = match_taker_order-available b q wf o.side o.qty o.price in
      elim (Bool-cases (o.qty == 0)) [
        | inl z ↦ rw z (failed q wf)
        | inr nz ↦
            rw (nz, apply_taker_order, e)
              (fills-Keeps m (rest_remainder o) (apply_fills-Keeps m.fills b q wf)
                (apply_fills-Roomy m.fills b room)
                (λ b' q' wf' room'. rest_remainder-Keeps o m b' q' wf' room' (omega arith)))
      ]

  submit_ioc-Keeps : (o : Order) → Keeps (submit_ioc o b)
  unfolding submit_ioc
  submit_ioc-Keeps o =
      and_then-Keeps _ (apply_taker_order-Keeps o.side o.qty o.price) (λ m b' q' wf'. done q' wf')

  submit_fok-Keeps : (o : Order) → Keeps (submit_fok o b)
  unfolding submit_fok
  submit_fok-Keeps o =
      let (m, e, _, _, _) = match_taker_order-available b q wf o.side o.qty o.price in
      elim (Bool-cases (is_complete m)) [
        | inl all ↦
            rw (e, submit_fok, all)
              (and_then-Keeps _ (apply_taker_order-Keeps o.side o.qty o.price)
                (λ m b' q' wf'. done q' wf'))
        | inr short ↦ rw (e, submit_fok, short) (done q wf)
      ]

  submit_post_only-Keeps : (o : Order) → HasRoom b → o.qty < u64_mod → Keeps (submit_post_only o b)
  unfolding submit_post_only
  submit_post_only-Keeps o room bounded =
      let (m, e, _, _, _) = match_taker_order-available b q wf o.side o.qty o.price in
      elim (Bool-cases (limit_order_would_cross o.side o.price b)) [
        | inl crosses ↦ rw (e, submit_post_only, crosses) (done q wf)
        | inr stays ↦
            rw (e, submit_post_only, stays)
              (and_then-Keeps _ (Sound-Keeps b q wf (add-Sound b q wf o room bounded))
                (λ _ b' q' wf'. done q' wf'))
      ]

  submit_by-Keeps :
      (o : Order) (policy : LimitOrderPolicy)
      → HasRoom b
      → o.qty < u64_mod
      → Keeps (submit_by policy o b)
  unfolding submit_by
  submit_by-Keeps o gtc room bounded = submit_gtc-Keeps o room bounded
  submit_by-Keeps o ioc room bounded = submit_ioc-Keeps o
  submit_by-Keeps o fok room bounded = submit_fok-Keeps o
  submit_by-Keeps o post_only room bounded = submit_post_only-Keeps o room bounded

  -- On a well-formed book with room, `submit_limit_order` of an order of a `u64` size does not panic
  -- under any policy, and leaves a well-formed book, also when it returns an error.
  pub submit_limit_order-Keeps :
      (o : Order) (policy : LimitOrderPolicy)
      → HasRoom b
      → o.qty < u64_mod
      → Keeps (submit_limit_order o policy b)
  unfolding submit_limit_order
  submit_limit_order-Keeps o policy room bounded = elim (Bool-cases (o.qty == 0)) [
    | inl z ↦ rw z (failed q wf)
    | inr nz ↦ elim (Bool-cases (HashMap.contains_key ℕ_discrete o.id b.order_index)) [
      | inl known ↦ rw (nz, known) (failed q wf)
      | inr fresh ↦ rw (nz, fresh) (submit_by-Keeps o policy room bounded)
    ]
  ]
