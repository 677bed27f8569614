-- ===== src/Book/Kept/Queued.antt =====
-- Where the synthetic orders of a book rest.
use mathlib.Core.List.{append-nil}
use l4_book.Prelude.{
  ℕ, ◌≡◌, ◌≢◌, refl, ap, ap₂, sym, ◌∙◌, subst, List, [], ◌∷◌, ◌++◌, arith, ℕ_discrete, true, false,
  ◌==◌, ==_ne, Bool-cases, inl, inr, All, All-imp, Ordered,
}
use l4_book.Types.{Order, Side, bid, ask, Price}
use l4_book.Types.Ids.{is_synthetic_order_id}
use l4_book.Slab.Chain.{Cells, has}
use l4_book.Slab.Cells.{orders_of}
use l4_book.Book.{OrderBook}
use l4_book.Book.Depths.{IsBetter, lists, depth-IsDepth}
use l4_book.Book.Invariant.{IsWellFormed, Queues, order_at, rests, here, here-eq, here_refl}
use l4_book.Book.Kept.{AreIn, queue-AreIn}
use l4_book.Book.Preserved.{synthetic_of, preserved_of}
use l4_book.Book.Queries.{DepthItem, depth}
use l4_book.Book.Rebuild.{resting_at}
use l4_book.Book.Replay.{keep_synthetic}

-- The orders are on one side and at one price.
abbrev AreAt : Side → Price → List Order → Type 0
AreAt s p os = All (λ o. (o.side ≡ s) × (o.price ≡ p)) os

resting_at-append :
    (s : Side) (p : Price) (l m : List Order)
    → resting_at s p (l ++ m) ≡ resting_at s p l ++ resting_at s p m
resting_at-append s p [] m = refl
resting_at-append s p (o ∷ l) m = elim (Bool-cases (here o.side o.price s p)) [
  | inl e ↦ rw e (ap (λ r. o ∷ r) (resting_at-append s p l m))
  | inr e ↦ rw e (resting_at-append s p l m)
]

resting_at-here : (s : Side) (p : Price) (l : List Order) → AreAt s p l → resting_at s p l ≡ l
resting_at-here s p [] h = refl
resting_at-here s p (o ∷ l) ((es, ep), h) =
    let mine : here o.side o.price s p ≡ true = ap₂ (λ t r. here t r s p) es ep ∙ here_refl s p in
    rw mine (ap (λ r. o ∷ r) (resting_at-here s p l h))

resting_at-elsewhere :
    (s s' : Side) (p p' : Price) (l : List Order)
    → here s' p' s p ≡ false
    → AreAt s' p' l
    → resting_at s p l ≡ []
resting_at-elsewhere s s' p p' [] other h = refl
resting_at-elsewhere s s' p p' (o ∷ l) other ((es, ep), h) =
    let away : here o.side o.price s p ≡ false = ap₂ (λ t r. here t r s p) es ep ∙ other in
    rw away (resting_at-elsewhere s s' p p' l other h)

keep_synthetic-AreAt :
    (s : Side) (p : Price) (l : List Order) → AreAt s p l → AreAt s p (keep_synthetic l)
unfolding keep_synthetic
keep_synthetic-AreAt s p [] h = tt
keep_synthetic-AreAt s p (o ∷ l) (at, h) = elim (Bool-cases (is_synthetic_order_id o.id)) [
  | inl e ↦ rw e (at, keep_synthetic-AreAt s p l h)
  | inr e ↦ rw e (keep_synthetic-AreAt s p l h)
]

same_side_apart : (s : Side) (p p' : Price) → (p == p') ≡ false → here s p' s p ≡ false
same_side_apart bid p p' h = ground arith
same_side_apart ask p p' h = ground arith

worse-apart : (s : Side) (p p' : Price) → IsBetter s p p' → here s p' s p ≡ false
worse-apart bid p p' h = ground arith
worse-apart ask p p' h = ground arith

module _ (b : OrderBook) (q : Queues) (wf : IsWellFormed b q) where
  cells-AreAt :
      (s : Side) (p : Price) (xs : Cells)
      → AreIn b xs
      → ((i : ℕ) → has i xs ≡ true → rests s p (order_at b i) ≡ true)
      → AreAt s p (orders_of xs)
  cells-AreAt s p [] h there = tt
  cells-AreAt s p ((x, o) ∷ xs) (at, h) there = (
    here-eq o.side s o.price p (ap (rests s p) (sym at) ∙ there x (ground arith)),
    cells-AreAt s p xs h (λ i m. there i (ground arith)),
  )

  kept-AreAt : (s : Side) (p : Price) → AreAt s p (keep_synthetic (orders_of (q s p)))
  kept-AreAt s p =
      keep_synthetic-AreAt s p (orders_of (q s p))
        (cells-AreAt s p (q s p) (queue-AreIn b q wf s p) (λ i m. sym (wf.placed i s p) ∙ m))

  synthetic_of-elsewhere :
      (s s' : Side) (p : Price) (items : List DepthItem)
      → All (λ item. here s' item.0 s p ≡ false) items
      → resting_at s p (synthetic_of s' q items) ≡ []
  synthetic_of-elsewhere s s' p [] h = refl
  synthetic_of-elsewhere s s' p ((price, _, _) ∷ items) (other, h) =
      resting_at-append s p (keep_synthetic (orders_of (q s' price))) (synthetic_of s' q items)
      ∙ rw
          (
            resting_at-elsewhere s s' p price (keep_synthetic (orders_of (q s' price))) other
                (kept-AreAt s' price),
            synthetic_of-elsewhere s s' p items h,
          )
          refl

  synthetic_of-here :
      (s : Side) (p : Price) (items : List DepthItem)
      → Ordered (λ i j. IsBetter s i.0 j.0) items
      → lists p items ≡ true
      → resting_at s p (synthetic_of s q items) ≡ keep_synthetic (orders_of (q s p))
  synthetic_of-here s p [] sorted listed = cc listed
  synthetic_of-here s p ((price, total, count) ∷ items) (first, sorted) listed =
      elim (ℕ_discrete p price) [
        | yes same ↦
            subst
              (λ r.
                resting_at s r (synthetic_of s q ((price, total, count) ∷ items))
                ≡ keep_synthetic (orders_of (q s r)))
              (sym same)
              (resting_at-append s price (keep_synthetic (orders_of (q s price)))
                  (synthetic_of s q items)
                ∙ rw
                    (
                      resting_at-here s price (keep_synthetic (orders_of (q s price)))
                          (kept-AreAt s price),
                      synthetic_of-elsewhere s s price items (
                          All-imp (λ j. IsBetter s price j.0) (λ j. here s j.0 s price ≡ false)
                            items (λ j better. worse-apart s price j.0 better) first),
                    )
                    (append-nil (keep_synthetic (orders_of (q s price)))))
        | no other ↦
            resting_at-append s p (keep_synthetic (orders_of (q s price))) (synthetic_of s q items)
            ∙ rw
                (resting_at-elsewhere s s p price (keep_synthetic (orders_of (q s price)))
                  (same_side_apart s p price (==_ne p price other)) (kept-AreAt s price))
                (synthetic_of-here s p items sorted (ground (arith, other)))
      ]

  unlisted-apart :
      (s : Side) (p : Price) (items : List DepthItem)
      → lists p items ≡ false
      → All (λ item. here s item.0 s p ≡ false) items
  unlisted-apart s p [] out = tt
  unlisted-apart s p ((price, _, _) ∷ items) out =
      (same_side_apart s p price (ground arith), unlisted-apart s p items (ground arith))

  side-kept :
      (s : Side) (p : Price)
      → resting_at s p (synthetic_of s q (depth s b)) ≡ keep_synthetic (orders_of (q s p))
  unfolding keep_synthetic
  side-kept s p = elim (Bool-cases (lists p (depth s b))) [
    | inl listed ↦ synthetic_of-here s p (depth s b) (depth-IsDepth b q wf s).best_first listed
    | inr out ↦
        synthetic_of-elsewhere s s p (depth s b) (unlisted-apart s p (depth s b) out)
        ∙ none_kept (q s p) (λ busy. cc (out, (depth-IsDepth b q wf s).complete p busy))
  ]
    where
      none_kept : (xs : Cells) → ((xs ≢ []) → ⊥) → [] ≡ keep_synthetic (orders_of xs)
      none_kept [] h = refl
      none_kept (c ∷ xs) h = absurd (h (λ e. cc e))

  every : (P : DepthItem → Type 0) (l : List DepthItem) → ((j : DepthItem) → P j) → All P l
  every P [] f = tt
  every P (j ∷ l) f = (f j, every P l f)

  -- The preserved orders that rest at one place are the synthetic orders of its queue.
  pub preserved_of-kept :
      (s : Side) (p : Price)
      → resting_at s p (preserved_of q b) ≡ keep_synthetic (orders_of (q s p))
  preserved_of-kept bid p =
      resting_at-append bid p (synthetic_of bid q (depth bid b)) (synthetic_of ask q (depth ask b))
      ∙ rw
          (
            side-kept bid p,
            synthetic_of-elsewhere bid ask p (depth ask b)
                (every (λ item. here ask item.0 bid p ≡ false) (depth ask b) (λ item. refl)),
          )
          (append-nil (keep_synthetic (orders_of (q bid p))))
  preserved_of-kept ask p =
      resting_at-append ask p (synthetic_of bid q (depth bid b)) (synthetic_of ask q (depth ask b))
      ∙ rw
          (
            side-kept ask p,
            synthetic_of-elsewhere ask bid p (depth bid b)
                (every (λ item. here bid item.0 ask p ≡ false) (depth bid b) (λ item. refl)),
          )
          refl
