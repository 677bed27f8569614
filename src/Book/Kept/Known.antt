-- ===== src/Book/Kept/Known.antt =====
-- The preserved orders are the resting orders with synthetic identifiers.
use l4_book.Prelude.{
  ℕ, ◌≡◌, refl, ap, sym, ◌∙◌, subst, some-inj, List, [], ◌∷◌, ◌++◌, some, arith, ℕ_discrete, Bool,
  true, ◌||◌, inl, inr, Bool-cases, Option-cases,
}
use l4_book.Types.{Order, OrderId, Side, bid, ask, Price}
use l4_book.Types.Ids.{is_synthetic_order_id}
use l4_book.Containers.HashMap
use l4_book.Slab.Chain.{Cells, has}
use l4_book.Slab.Cells.{orders_of}
use l4_book.Book.{OrderBook}
use l4_book.Book.Invariant.{IsWellFormed, Queues, order_at, order_in, order_by_id, rests, here_refl}
use l4_book.Book.Kept.{AreIn, queue-AreIn, kept_cells, kept_cells-AreIn, orders_of-kept_cells}
use l4_book.Book.Kept.Queued.{preserved_of-kept}
use l4_book.Book.Preserved.{preserved_of, synthetic_of}
use l4_book.Book.Queries.{DepthItem, depth}
use l4_book.Book.Rebuild.{resting_at}
use l4_book.Book.Replay.{keep_synthetic, ids_of}

abbrev pub among : OrderId → List Order → Bool
among id os = HashMap.has ℕ_discrete id (ids_of os)

among-append : (id : OrderId) (l m : List Order) → among id (l ++ m) ≡ (among id l || among id m)
unfolding HashMap.has
among-append id [] m = refl
among-append id (o ∷ l) m = ground (arith, among-append id l m)

kept-IsSynthetic :
    (id : OrderId) (os : List Order)
    → among id (keep_synthetic os) ≡ true
    → is_synthetic_order_id id ≡ true
unfolding keep_synthetic HashMap.has
kept-IsSynthetic id [] m = cc m
kept-IsSynthetic id (o ∷ os) m = elim (Bool-cases (is_synthetic_order_id o.id)) [
  | inl e ↦ elim (ℕ_discrete o.id id) [
    | yes same ↦ ap is_synthetic_order_id (sym same) ∙ e
    | no other ↦ kept-IsSynthetic id os (ground (arith, rw e at m))
  ]
  | inr e ↦ kept-IsSynthetic id os (rw e at m)
]

synthetic_of-IsSynthetic :
    (id : OrderId) (s : Side) (q : Queues) (items : List DepthItem)
    → among id (synthetic_of s q items) ≡ true
    → is_synthetic_order_id id ≡ true
unfolding HashMap.has
synthetic_of-IsSynthetic id s q [] m = cc m
synthetic_of-IsSynthetic id s q ((price, _, _) ∷ items) m =
    elim (Bool-cases (among id (keep_synthetic (orders_of (q s price))))) [
      | inl e ↦ kept-IsSynthetic id (orders_of (q s price)) e
      | inr e ↦ synthetic_of-IsSynthetic id s q items (
          ground (
            arith,
            among-append id (keep_synthetic (orders_of (q s price))) (synthetic_of s q items),
          ))
    ]

among-resting_at :
    (id : OrderId) (s : Side) (p : Price) (os : List Order)
    → among id (resting_at s p os) ≡ true
    → among id os ≡ true
unfolding HashMap.has
among-resting_at id s p [] m = m
among-resting_at id s p (o ∷ os) m = ground (arith, among-resting_at id s p os)

module _ (b : OrderBook) (q : Queues) (wf : IsWellFormed b q) where
  cells-known :
      (id : OrderId) (xs : Cells)
      → AreIn b xs
      → among id (orders_of xs) ≡ true
      → (p : Order) × (order_by_id id b ≡ some p)
  unfolding HashMap.has
  cells-known id [] h m = cc m
  cells-known id ((x, o) ∷ xs) (at, h) m = elim (ℕ_discrete o.id id) [
    | yes same ↦ (
      o,
      subst (λ k. order_in b (HashMap.get ℕ_discrete k b.order_index) ≡ some o) same
          (ap (order_in b) (wf.found x o at) ∙ at),
    )
    | no other ↦ cells-known id xs h (ground arith)
  ]

  cells-kept :
      (x : ℕ) (p : Order) (xs : Cells)
      → AreIn b xs
      → order_at b x ≡ some p
      → is_synthetic_order_id p.id ≡ true
      → has x xs ≡ true
      → among p.id (keep_synthetic (orders_of xs)) ≡ true
  unfolding HashMap.has keep_synthetic
  cells-kept x p [] h at synthetic m = cc m
  cells-kept x p ((y, o) ∷ xs) (at', h) at synthetic m = elim (ℕ_discrete y x) [
    | yes same ↦
        let mine : o ≡ p = some-inj (sym at' ∙ ap (order_at b) same ∙ at) in
        rw (ap (λ (r : Order). is_synthetic_order_id r.id) mine ∙ synthetic)
          (ground (arith, ap (λ (r : Order). r.id) mine))
    | no other ↦
        let rest = cells-kept x p xs h at synthetic (ground arith) in
        elim (Bool-cases (is_synthetic_order_id o.id)) [
          | inl e ↦ rw e (ground arith)
          | inr e ↦ rw e rest
        ]
  ]

  -- The identifiers of the preserved orders are the synthetic ones of orders that rest.
  pub preserved-known :
      (id : OrderId)
      → among id (preserved_of q b) ≡ true
      → (is_synthetic_order_id id ≡ true) × ((p : Order) × (order_by_id id b ≡ some p))
  preserved-known id m = (
    elim (Bool-cases (among id (synthetic_of bid q (depth bid b)))) [
      | inl e ↦ synthetic_of-IsSynthetic id bid q (depth bid b) e
      | inr e ↦ synthetic_of-IsSynthetic id ask q (depth ask b) (
          ground (
            arith,
            among-append id (synthetic_of bid q (depth bid b)) (synthetic_of ask q (depth ask b)),
          ))
    ],
    cells-known id (kept_cells b q wf) (kept_cells-AreIn b q wf)
        (ap (among id) (orders_of-kept_cells b q wf) ∙ m),
  )

  pub known-preserved :
      (id : OrderId) (p : Order)
      → is_synthetic_order_id id ≡ true
      → order_by_id id b ≡ some p
      → among id (preserved_of q b) ≡ true
  known-preserved id p synthetic known =
      elim (Option-cases (HashMap.get ℕ_discrete id b.order_index)) [
        | inl e ↦ cc (sym (ap (order_in b) e) ∙ known)
        | inr (x, e) ↦
            let at : order_at b x ≡ some p = sym (ap (order_in b) e) ∙ known in
            let (o, at', same) = wf.indexed id x e in
            let name : p.id ≡ id = ap (λ (r : Order). r.id) (some-inj (sym at ∙ at')) ∙ same in
            subst (λ k. among k (preserved_of q b) ≡ true) name
              (among-resting_at p.id p.side p.price (preserved_of q b) (
                ap (among p.id) (preserved_of-kept b q wf p.side p.price)
                ∙ cells-kept x p (q p.side p.price) (queue-AreIn b q wf p.side p.price) at
                    (ap is_synthetic_order_id name ∙ synthetic)
                    (wf.placed x p.side p.price
                      ∙ ap (rests p.side p.price) at
                      ∙ here_refl p.side p.price)))
      ]
