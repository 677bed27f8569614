-- ===== src/Book/Matched.antt =====
-- What a taker order fills: as much as it can of what rests up to its limit, and no more.
use l4_book.Prelude.{
  ℕ, ◌+◌, ◌-◌, ◌≡◌, refl, min, List, [], ◌∷◌, ◌++◌, some, arith, ℕ_discrete, true, false, ==_ne,
  if◌then◌else◌, Bool-cases, lt→ltb, inl, inr,
}
use l4_book.Types.{Order, Qty, Side, Price, FillDelta, TakerMatch}
use l4_book.Slab.Chain.{Cells}
use l4_book.Slab.Cells.{orders_of, sum_qty}
use l4_book.Book.{OrderBook}
use l4_book.Book.Invariant.{IsWellFormed, Queues}
use l4_book.Book.Walks.{orders_at-queue}
use l4_book.Book.Queries.{DepthItem, depth}
use l4_book.Book.Slippage.{limit_allows, opposite}
use l4_book.Book.Taker.{
  Matching, fill_of, fill_maker, match_makers, match_levels, match_walk, match_taker_order,
}

abbrev pub filled_by : List FillDelta → ℕ
filled_by [] = 0
filled_by (f ∷ fs) = f.filled_qty + filled_by fs

filled_by-append : (fs gs : List FillDelta) → filled_by (fs ++ gs) ≡ filled_by fs + filled_by gs
filled_by-append [] gs = omega arith
filled_by-append (f ∷ fs) gs = omega (arith, filled_by-append fs gs)

-- The matching takes `n` if that much is left, and the sizes of the fills add up.
abbrev pub Takes : ℕ → Matching → Matching → Type 0
Takes n s s' =
    (s'.remaining ≡ s.remaining - n)
    × (filled_by s'.fills + s'.remaining ≡ filled_by s.fills + s.remaining)

fill_maker-Takes : (o : Order) (s : Matching) → Takes o.qty s (fill_maker o s)
unfolding fill_maker fill_of
fill_maker-Takes o s =
    (omega arith, omega (arith, filled_by-append s.fills (fill_of o (min s.remaining o.qty) ∷ [])))

pub match_makers-Takes :
    (xs : Cells) (s : Matching) → Takes (sum_qty xs) s (match_makers (orders_of xs) s)
unfolding match_makers
match_makers-Takes [] s = (omega arith, refl)
match_makers-Takes ((x, o) ∷ xs) s =
    let one = fill_maker-Takes o s in
    let rest = match_makers-Takes xs (fill_maker o s) in
    elim (ℕ_discrete s.remaining 0) [
      | yes z ↦ rw z (omega arith, refl)
      | no nz ↦ rw (==_ne s.remaining 0 nz) (omega arith, omega arith)
    ]

-- What rests against the order on the levels up to its limit.
abbrev pub available : Side → Price → Queues → List DepthItem → ℕ
available side limit q [] = 0
available side limit q ((price, _, _) ∷ items) =
    if limit_allows side price limit
    then sum_qty (q (opposite side) price) + available side limit q items
    else 0

module _ (b : OrderBook) (q : Queues) (wf : IsWellFormed b q) where
  match_levels-Takes :
      (side : Side) (limit : Price) (items : List DepthItem) (s : Matching)
      → (s' : Matching) × (match_levels side limit b items s ≡ some s')
        × Takes (available side limit q items) s s'
  unfolding match_levels
  match_levels-Takes side limit [] s = (s, refl, (omega arith, refl))
  match_levels-Takes side limit ((price, n, m) ∷ items) s =
      elim (Bool-cases (limit_allows side price limit)) [
        | inr stop ↦ (record s { limit_stopped = true }, rw stop refl, rw stop (omega arith, refl))
        | inl go ↦
            let makers = q (opposite side) price in
            let s₁ = match_makers (orders_of makers) s in
            let t₁ = match_makers-Takes makers s in
            let (s₂, e₂, t₂) = match_levels-Takes side limit items s₁ in
            elim (ℕ_discrete s₁.remaining 0) [
              | yes z ↦ (
                s₁,
                rw (go, match_levels, orders_at-queue b q wf (opposite side) price, z) refl,
                rw go (omega arith, t₁.1),
              )
              | no nz ↦ (
                s₂,
                rw
                    (
                      go,
                      match_levels,
                      orders_at-queue b q wf (opposite side) price,
                      ==_ne s₁.remaining 0 nz,
                    )
                    e₂,
                rw go (omega arith, omega arith),
              )
            ]
      ]

  -- On a well-formed book `match_taker_order` gives a result. What it leaves unfilled is what the
  -- levels up to the limit do not cover, filled and unfilled make up the requested size, and the
  -- fills add up to the filled size.
  pub match_taker_order-available :
      (side : Side) (qty : Qty) (limit : Price)
      → (m : TakerMatch) × (match_taker_order side qty limit b ≡ some m)
        × (m.unfilled_qty ≡ qty - available side limit q (depth (opposite side) b))
        × (m.filled_qty + m.unfilled_qty ≡ qty)
        × (filled_by m.fills ≡ m.filled_qty)
  unfolding match_taker_order match_walk
  match_taker_order-available side qty limit = elim (ℕ_discrete qty 0) [
    | yes z ↦ rw z (_, refl, omega arith, omega arith, refl)
    | no nz ↦
        let start : Matching = record {
          remaining = qty;
          notional = 0;
          fills = [];
          limit_stopped = false;
        } in
        let (s, e, t) = match_levels-Takes side limit (depth (opposite side) b) start in
        rw (lt→ltb 0 qty (omega arith), e) (_, refl, t.0, omega arith, omega arith)
  ]
