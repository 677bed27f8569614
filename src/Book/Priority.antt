-- ===== src/Book/Priority.antt =====
-- Taker orders fill by price, then time: the fills against a list of makers, one after another.
use mathlib.Core.List.{append-nil, append_assoc}
use l4_book.Prelude.{
  ℕ, ◌+◌, ◌-◌, ◌≡◌, refl, ap, ap₂, sym, ◌∙◌, min, List, [], ◌∷◌, ◌++◌, some, arith, ℕ_discrete,
  true, false, ◌==◌, ==_ne, if◌then◌else◌, Bool-cases, lt→ltb, inl, inr,
}
use l4_book.Types.{Qty, Side, Price, FillDelta, TakerMatch}
use l4_book.Slab.Chain.{Cells}
use l4_book.Slab.Cells.{orders_of, sum_qty, sum_qty-append}
use l4_book.Book.{OrderBook}
use l4_book.Book.Invariant.{IsWellFormed, Queues}
use l4_book.Book.Walks.{orders_at-queue}
use l4_book.Book.Queries.{DepthItem, depth}
use l4_book.Book.Slippage.{limit_allows, opposite}
use l4_book.Book.Taker.{
  Matching, fill_of, fill_maker, match_makers, match_levels, match_walk, match_taker_order,
}

-- The makers are filled in their order, each as far as it goes, until `n` is used up.
abbrev pub greedy : ℕ → Cells → List FillDelta
greedy n [] = []
greedy n ((x, o) ∷ xs) =
    let rest = greedy (n - o.qty) xs in if n == 0 then [] else fill_of o (min n o.qty) ∷ rest

-- The orders against a taker order, level by level up to its limit, each level front to back.
abbrev pub makers_of : Side → Price → Queues → List DepthItem → Cells
makers_of side limit q [] = []
makers_of side limit q ((price, _, _) ∷ items) =
    if limit_allows side price limit
    then q (opposite side) price ++ makers_of side limit q items
    else []

pub greedy-zero : (xs : Cells) → greedy 0 xs ≡ []
greedy-zero [] = refl
greedy-zero ((x, o) ∷ xs) = refl

zero-sub : (n : ℕ) → 0 - n ≡ 0
zero-sub n = omega arith

pub greedy-append :
    (n : ℕ) (xs ys : Cells) → greedy n (xs ++ ys) ≡ greedy n xs ++ greedy (n - sum_qty xs) ys
greedy-append n [] ys = ap (λ k. greedy k ys) (omega arith)
greedy-append n ((x, o) ∷ xs) ys = elim (ℕ_discrete n 0) [
  | yes z ↦ rw z (sym (ap (λ k. greedy k ys) (zero-sub (o.qty + sum_qty xs)) ∙ greedy-zero ys))
  | no nz ↦ rw (==_ne n 0 nz) (
      ap (λ l. fill_of o (min n o.qty) ∷ l)
        (greedy-append (n - o.qty) xs ys
          ∙ ap (λ k. greedy (n - o.qty) xs ++ greedy k ys) (omega arith)))
]

-- The matching takes `n` of what is left, and appends the fills against the makers.
abbrev Fills : Cells → Matching → Matching → Type 0
Fills xs s s' =
    (s'.remaining ≡ s.remaining - sum_qty xs) × (s'.fills ≡ s.fills ++ greedy s.remaining xs)

Fills-join : (xs ys : Cells) (s t u : Matching) → Fills xs s t → Fills ys t u → Fills (xs ++ ys) s u
Fills-join xs ys s t u f g = (
  omega (arith, f.0, g.0, sum_qty-append xs ys),
  g.1
      ∙ ap₂ (λ l k. l ++ greedy k ys) f.1 f.0
      ∙ append_assoc s.fills (greedy s.remaining xs) (greedy (s.remaining - sum_qty xs) ys)
      ∙ ap (λ l. s.fills ++ l) (sym (greedy-append s.remaining xs ys)),
)

-- Nothing more is filled when nothing is left.
Fills-none : (xs : Cells) (s : Matching) → s.remaining ≡ 0 → Fills xs s s
Fills-none xs s z = (
  omega (arith, z),
  sym (
      ap (λ k. s.fills ++ greedy k xs) z
      ∙ ap (λ l. s.fills ++ l) (greedy-zero xs)
      ∙ append-nil s.fills),
)

match_makers-Fills : (xs : Cells) (s : Matching) → Fills xs s (match_makers (orders_of xs) s)
unfolding match_makers fill_maker
match_makers-Fills [] s = (omega arith, sym (append-nil s.fills))
match_makers-Fills ((x, o) ∷ xs) s =
    let rest = match_makers-Fills xs (fill_maker o s) in
    elim (ℕ_discrete s.remaining 0) [
      | yes z ↦ rw z (omega arith, sym (append-nil s.fills))
      | no nz ↦ rw (==_ne s.remaining 0 nz) (
        omega (arith, rest.0),
        rest.1
            ∙ append_assoc s.fills (fill_of o (min s.remaining o.qty) ∷ [])
                (greedy (s.remaining - min s.remaining o.qty) xs)
            ∙ ap (λ k. s.fills ++ fill_of o (min s.remaining o.qty) ∷ greedy k xs) (omega arith),
      )
    ]

module _ (b : OrderBook) (q : Queues) (wf : IsWellFormed b q) where
  match_levels-Fills :
      (side : Side) (limit : Price) (items : List DepthItem) (s : Matching)
      → (s' : Matching) × (match_levels side limit b items s ≡ some s')
        × Fills (makers_of side limit q items) s s'
  unfolding match_levels
  match_levels-Fills side limit [] s = (s, refl, (omega arith, sym (append-nil s.fills)))
  match_levels-Fills side limit ((price, n, m) ∷ items) s =
      elim (Bool-cases (limit_allows side price limit)) [
        | inr stop ↦ (
          record s { limit_stopped = true },
          rw stop refl,
          rw stop (omega arith, sym (append-nil s.fills)),
        )
        | inl go ↦
            let makers = q (opposite side) price in
            let more = makers_of side limit q items in
            let found = orders_at-queue b q wf (opposite side) price in
            let s₁ = match_makers (orders_of makers) s in
            let f₁ = match_makers-Fills makers s in
            let (s₂, run, f₂) = match_levels-Fills side limit items s₁ in
            elim (ℕ_discrete s₁.remaining 0) [
              | yes z ↦ (
                s₁,
                rw (go, match_levels, found, z) refl,
                rw go (Fills-join makers more s s₁ s₁ f₁ (Fills-none more s₁ z)),
              )
              | no nz ↦ (
                s₂,
                rw (go, match_levels, found, ==_ne s₁.remaining 0 nz) run,
                rw go (Fills-join makers more s s₁ s₂ f₁ f₂),
              )
            ]
      ]

  -- On a well-formed book the fills of `match_taker_order` are those against the orders of the other
  -- side by price, then time: level by level as `depth` lists them up to the limit, each level from
  -- its front, every order as far as it goes until the size is used up.
  pub match_taker_order-greedy :
      (side : Side) (qty : Qty) (limit : Price)
      → (m : TakerMatch) × (match_taker_order side qty limit b ≡ some m)
        × (m.fills ≡ greedy qty (makers_of side limit q (depth (opposite side) b)))
  unfolding match_taker_order match_walk
  match_taker_order-greedy side qty limit = elim (ℕ_discrete qty 0) [
    | yes z ↦ rw z (_, refl, sym (greedy-zero (makers_of side limit q (depth (opposite side) b))))
    | no nz ↦
        let start : Matching = record {
          remaining = qty;
          notional = 0;
          fills = [];
          limit_stopped = false;
        } in
        let (s, run, f) = match_levels-Fills side limit (depth (opposite side) b) start in
        rw (lt→ltb 0 qty (omega arith), run) (_, refl, f.1)
  ]
