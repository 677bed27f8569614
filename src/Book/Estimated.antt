-- ===== src/Book/Estimated.antt =====
-- `estimate_slippage` foretells what `match_taker_order` finds.
use l4_book.Prelude.{
  ◌-◌, ◌≡◌, refl, ap, ap₂, sym, ◌∙◌, add_u128, mul_u128, min, List, [], ◌∷◌, some, arith,
  ℕ_discrete, ◌==◌, ==_ne, true, false, not, ◌&&◌, Bool-cases, ltb, lt→ltb, inl, inr,
}
use l4_book.Types.{Order, Qty, Side, Price, TakerMatch}
use l4_book.Slab.Cells.{orders_of, sum_qty}
use l4_book.Book.{OrderBook}
use l4_book.Book.Invariant.{IsWellFormed, Queues}
use l4_book.Book.Matched.{match_makers-Takes}
use l4_book.Book.Walks.{orders_at-queue}
use l4_book.Book.Queries.{DepthItem, depth}
use l4_book.Book.Slippage.{
  limit_allows, opposite, Estimate, estimate_loop, estimate_walk, estimate_slippage,
}
use l4_book.Book.Taker.{
  Matching, fill_maker, match_makers, match_levels, match_walk, match_taker_order,
}

-- The totals that are listed are those of the queues, so that none has wrapped round.
abbrev pub AreExact : Side → Queues → List DepthItem → Type 0
AreExact side q [] = Unit {0}
AreExact side q ((price, total, _) ∷ items) =
    (total ≡ sum_qty (q side price)) × AreExact side q items

match_makers-limit_stopped :
    (os : List Order) (s : Matching) → (match_makers os s).limit_stopped ≡ s.limit_stopped
unfolding match_makers fill_maker
match_makers-limit_stopped [] s = refl
match_makers-limit_stopped (o ∷ os) s = elim (Bool-cases (s.remaining == 0)) [
  | inl z ↦ rw z refl
  | inr nz ↦ rw nz (match_makers-limit_stopped os (fill_maker o s))
]

-- The two loops leave the same size, and stop at the limit alike.
abbrev Agree : Estimate → Matching → Type 0
Agree e s = (e.remaining ≡ s.remaining) × (e.limit_stopped ≡ s.limit_stopped)

module _ (b : OrderBook) (q : Queues) (wf : IsWellFormed b q) where
  match_levels-Agree :
      (side : Side) (limit : Price) (items : List DepthItem) (s : Matching) (e : Estimate)
      → AreExact (opposite side) q items
      → Agree e s
      → (s' : Matching) × (match_levels side limit b items s ≡ some s')
        × Agree (estimate_loop side limit items e) s'
  unfolding match_levels estimate_loop
  match_levels-Agree side limit [] s e exact agree = (s, refl, agree)
  match_levels-Agree side limit ((price, total, n) ∷ items) s e exact agree =
      elim (Bool-cases (limit_allows side price limit)) [
        | inr stop ↦ (record s { limit_stopped = true }, rw stop refl, rw stop (agree.0, refl))
        | inl go ↦
            let makers = q (opposite side) price in
            let s₁ = match_makers (orders_of makers) s in
            let taken = min e.remaining total in
            let e₁ : Estimate = record e {
              remaining = e.remaining - taken;
              notional = add_u128 e.notional (mul_u128 price taken);
            } in
            let left : e₁.remaining ≡ s₁.remaining =
              omega (arith, agree.0, exact.0, (match_makers-Takes makers s).0) in
            let stop : e₁.limit_stopped ≡ s₁.limit_stopped =
              agree.1 ∙ sym (match_makers-limit_stopped (orders_of makers) s) in
            let (s₂, run, agree₂) =
              match_levels-Agree side limit items s₁ e₁ exact.1 (left, stop) in
            let found = orders_at-queue b q wf (opposite side) price in
            elim (ℕ_discrete s₁.remaining 0) [
              | yes z ↦ (
                s₁,
                rw (go, match_levels, found, z) refl,
                rw (go, estimate_loop, ap (λ k. k == 0) (left ∙ z)) (left, stop),
              )
              | no nz ↦ (
                s₂,
                rw (go, match_levels, found, ==_ne s₁.remaining 0 nz) run,
                rw (go, estimate_loop, ==_ne e₁.remaining 0 (λ w. nz (sym left ∙ w))) agree₂,
              )
            ]
      ]

  -- On a well-formed book whose listed totals have not wrapped round, `match_taker_order` gives a result
  -- with the filled and the unfilled size that `estimate_slippage` foretells; both stop at the limit
  -- or exhaust the book alike.
  pub estimate_slippage-match_taker_order :
      (side : Side) (qty : Qty) (limit : Price)
      → AreExact (opposite side) q (depth (opposite side) b)
      → (m : TakerMatch) × (match_taker_order side qty limit b ≡ some m)
        × ((estimate_slippage side qty limit b).filled_qty ≡ m.filled_qty)
        × ((estimate_slippage side qty limit b).unfilled_qty ≡ m.unfilled_qty)
        × ((estimate_slippage side qty limit b).limit_stopped ≡ m.limit_stopped)
        × ((estimate_slippage side qty limit b).exhausted_book ≡ m.exhausted_book)
  unfolding match_taker_order match_walk estimate_slippage estimate_walk
  estimate_slippage-match_taker_order side qty limit exact = elim (ℕ_discrete qty 0) [
    | yes z ↦ rw z (_, refl, refl, refl, refl, refl)
    | no nz ↦
        let start : Matching = record {
          remaining = qty;
          notional = 0;
          fills = [];
          limit_stopped = false;
        } in
        let first : Estimate = record { remaining = qty; notional = 0; limit_stopped = false } in
        let (s, run, both) =
          match_levels-Agree side limit (depth (opposite side) b) start first exact (refl, refl) in
        rw (lt→ltb 0 qty (omega arith), run)
          (
            _,
            refl,
            ap (λ r. qty - r) both.0,
            both.0,
            both.1,
            ap₂ (λ r t. ltb 0 r && not t) both.0 both.1,
          )
  ]
