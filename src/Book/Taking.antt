-- ===== src/Book/Taking.antt =====
-- `apply_taker_order` drains the queues of the other side, level by level.
mod Tests
use l4_book.Prelude.{
  ℕ, ◌-◌, ◌≡◌, ◌≢◌, refl, ap, ap₂, sym, subst, ◌∙◌, List, [], ◌∷◌, ◌++◌, some, arith, false, ◌==◌,
  ==_ne, if◌then◌else◌, Bool-cases, inl, inr, All, Ordered,
}
use l4_book.Types.{Qty, Side, bid, ask, Price, FillDelta, TakerMatch}
use l4_book.Slab.Chain.{Cells}
use l4_book.Slab.Cells.{sum_qty}
use l4_book.Book.{OrderBook, Run, ok, err, panic, and_then}
use l4_book.Book.Depths.{IsBetter, depth-IsDepth}
use l4_book.Book.Drained.{drain, queue-Drains, with_queue-at}
use l4_book.Book.Invariant.{IsWellFormed, Queues, same_side, here, with_queue}
use l4_book.Book.Priority.{greedy, greedy-append, makers_of, match_taker_order-greedy}
use l4_book.Book.Queries.{DepthItem, depth}
use l4_book.Book.Slippage.{limit_allows, opposite}
use l4_book.Book.Taker.{apply_fill, apply_fills, apply_taker_order, match_taker_order}

-- The queues after a taker order of size `n`: each level up to the limit is drained by what the
-- levels before it leave of the order.
abbrev pub drained : Side → Price → ℕ → List DepthItem → Queues → Queues
drained side limit n [] q = q
drained side limit n ((price, _, _) ∷ items) q =
    let level = q (opposite side) price in
    let rest =
      drained side limit (n - sum_qty level) items
        (with_queue (opposite side) price (drain n level) q) in
    if limit_allows side price limit then rest else q

-- Two chains that agree on every book.
and_then_both :
    {A B C : Type 0} (r : Run A) (f : A → OrderBook → Run C) (g : A → OrderBook → Run B)
    (h : B → OrderBook → Run C)
    → ((a : A) (b : OrderBook) → f a b ≡ and_then (g a b) h)
    → and_then r f ≡ and_then (and_then r g) h
and_then_both (ok a b) f g h same = same a b
and_then_both (err e b) f g h same = refl
and_then_both panic f g h same = refl

apply_fills-append :
    (fs gs : List FillDelta) (b : OrderBook)
    → apply_fills (fs ++ gs) b ≡ and_then (apply_fills fs b) λ _ b'. apply_fills gs b'
unfolding apply_fills
apply_fills-append [] gs b = refl
apply_fills-append (f ∷ fs) gs b =
    and_then_both (apply_fill f b) _ _ _ (λ _ b'. apply_fills-append fs gs b')

better_apart : (s : Side) (p p' : Price) → IsBetter s p p' → (p == p') ≡ false
better_apart bid p p' h = ground arith
better_apart ask p p' h = ground arith

-- A level is not among those behind it.
makers_of_apart :
    (side : Side) (limit p : Price) (xs : Cells) (q : Queues) (items : List DepthItem)
    → All (λ i. IsBetter (opposite side) p i.0) items
    → makers_of side limit (with_queue (opposite side) p xs q) items ≡ makers_of side limit q items
makers_of_apart side limit p xs q [] worse = refl
makers_of_apart side limit p xs q ((price, total, count) ∷ items) worse =
    let other : here (opposite side) p (opposite side) price ≡ false =
      ground (arith, better_apart (opposite side) p price worse.0) in
    rw (other, makers_of_apart side limit p xs q items worse.1) refl

module _ (side : Side) (limit : Price) where
  levels_drained :
      (items : List DepthItem) (n : ℕ) (b : OrderBook) (q : Queues)
      → IsWellFormed b q
      → Ordered (λ i j. IsBetter (opposite side) i.0 j.0) items
      → (b' : OrderBook) × (apply_fills (greedy n (makers_of side limit q items)) b ≡ ok tt b')
        × IsWellFormed b' (drained side limit n items q)
  unfolding apply_fills
  levels_drained [] n b q wf ordered = (b, refl, wf)
  levels_drained ((price, total, count) ∷ items) n b q wf ordered =
      elim (Bool-cases (limit_allows side price limit)) [
        | inr stop ↦ (b, rw stop refl, rw stop wf)
        | inl go ↦
            let level = q (opposite side) price in
            let (b₁, run₁, good₁) = queue-Drains (opposite side) price level n b q wf refl in
            let q₁ = with_queue (opposite side) price (drain n level) q in
            let (b₂, run₂, good₂) =
              levels_drained items (n - sum_qty level) b₁ q₁ good₁ ordered.1 in
            let behind = makers_of side limit q items in
            let apart = makers_of_apart side limit price (drain n level) q items ordered.0 in
            (
              b₂,
              rw go (
                  ap (λ l. apply_fills l b) (greedy-append n level behind)
                  ∙ apply_fills-append (greedy n level) (greedy (n - sum_qty level) behind) b
                  ∙ ap (λ r. and_then r λ _ b'. apply_fills (greedy (n - sum_qty level) behind) b')
                      run₁
                  ∙ ap (λ xs. apply_fills (greedy (n - sum_qty level) xs) b₁) (sym apart)
                  ∙ run₂),
              rw go good₂,
            )
      ]

  -- On a well-formed book a taker order of a positive size is applied, with the result of
  -- `match_taker_order`, and leaves a well-formed book: level by level up to its limit, the best price
  -- first, what it fills is taken off the front of the queue, and the other queues stay.
  pub apply_taker_order-drained :
      (qty : Qty) (b : OrderBook) (q : Queues)
      → IsWellFormed b q
      → qty ≢ 0
      → (m : TakerMatch) × (b' : OrderBook) × (match_taker_order side qty limit b ≡ some m)
        × (apply_taker_order side qty limit b ≡ ok m b')
        × IsWellFormed b' (drained side limit qty (depth (opposite side) b) q)
  unfolding apply_taker_order
  apply_taker_order-drained qty b q wf nz =
      let items = depth (opposite side) b in
      let (m, found, fills) = match_taker_order-greedy b q wf side qty limit in
      let (b', run, good) =
        levels_drained items qty b q wf (depth-IsDepth b q wf (opposite side)).best_first in
      (
        m,
        b',
        found,
        rw (==_ne qty 0 nz, apply_taker_order, found)
            (ap (λ r. and_then r λ _ b''. ok m b'') (ap (λ l. apply_fills l b) fills ∙ run)),
        good,
      )
