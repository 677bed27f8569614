-- ===== src/Book/Kept.antt =====
-- The synthetic orders of a book stay when a snapshot that is accepted replaces the rest.
pub mod Accepted
pub mod Queued
pub mod Known
pub mod Refused
mod Tests
use l4_book.Prelude.{
  ℕ, ◌+◌, ◌≤◌, ◌<◌, ◌≡◌, refl, ap, sym, ◌∙◌, subst, List, [], ◌∷◌, ◌++◌, Option, none, some,
  some-inj, arith, length, ite, ℕ_discrete, Bool, true, false, Bool-cases, inl, inr, if◌then◌else◌,
  All, All-append, All-imp, Ordered, u64_mod,
}
use l4_book.Types.{Order, Side, bid, ask, Price}
use l4_book.Types.Ids.{is_synthetic_order_id}
use l4_book.Containers.HashMap
use l4_book.Slab.{Level, node_at}
use l4_book.Slab.Chain.{Cells, has, has-append, Chain, Distinct, Disjoint, Distinct-join}
use l4_book.Slab.Cells.{orders_of}
use l4_book.Slab.Laws.{Nodes, order_of}
use l4_book.Book.{OrderBook}
use l4_book.Book.Depths.{IsBetter, depth-IsDepth}
use l4_book.Book.Invariant.{
  IsWellFormed, Queues, IsLevel, NoRepeat, level_at, order_at, here, queues_apart, queue-Distinct,
}
use l4_book.Book.Preserved.{synthetic_of, preserved_of}
use l4_book.Book.Queries.{DepthItem, depth}
use l4_book.Book.Rebuild.{orders_of-append, ArePositive}
use l4_book.Book.Replay.{keep_synthetic, ids_of}

-- The cells of a queue with synthetic orders.
abbrev keep_cells : Cells → Cells
keep_cells [] = []
keep_cells ((x, o) ∷ xs) =
    let rest = keep_cells xs in if is_synthetic_order_id o.id then (x, o) ∷ rest else rest

orders_of-keep_cells : (xs : Cells) → orders_of (keep_cells xs) ≡ keep_synthetic (orders_of xs)
unfolding keep_synthetic
orders_of-keep_cells [] = refl
orders_of-keep_cells ((x, o) ∷ xs) = elim (Bool-cases (is_synthetic_order_id o.id)) [
  | inl e ↦ rw e (ap (λ l. o ∷ l) (orders_of-keep_cells xs))
  | inr e ↦ rw e (orders_of-keep_cells xs)
]

has-keep_cells : (i : ℕ) (xs : Cells) → has i xs ≡ false → has i (keep_cells xs) ≡ false
has-keep_cells i [] out = refl
has-keep_cells i ((x, o) ∷ xs) out = elim (Bool-cases (is_synthetic_order_id o.id)) [
  | inl e ↦ rw e (ground (arith, has-keep_cells i xs))
  | inr e ↦ rw e (ground (arith, has-keep_cells i xs))
]

keep_cells-Distinct : (xs : Cells) → Distinct xs → Distinct (keep_cells xs)
keep_cells-Distinct [] d = tt
keep_cells-Distinct ((x, o) ∷ xs) (out, d) = elim (Bool-cases (is_synthetic_order_id o.id)) [
  | inl e ↦ rw e (has-keep_cells x xs out, keep_cells-Distinct xs d)
  | inr e ↦ rw e (keep_cells-Distinct xs d)
]

-- The order of each cell is in its slot.
abbrev pub AreIn : OrderBook → Cells → Type 0
AreIn b xs = All (λ c. order_at b c.0 ≡ some c.1) xs

keep_cells-AreIn : (b : OrderBook) (xs : Cells) → AreIn b xs → AreIn b (keep_cells xs)
keep_cells-AreIn b [] h = tt
keep_cells-AreIn b ((x, o) ∷ xs) (at, h) = elim (Bool-cases (is_synthetic_order_id o.id)) [
  | inl e ↦ rw e (at, keep_cells-AreIn b xs h)
  | inr e ↦ rw e (keep_cells-AreIn b xs h)
]

Chain-AreIn :
    (b : OrderBook) (prev : Option ℕ) (xs : Cells)
    → Chain (node_at b.slab) prev xs none
    → AreIn b xs
Chain-AreIn b prev [] c = tt
Chain-AreIn b prev ((x, o) ∷ xs) (e, c) = (ap order_of e, Chain-AreIn b (some x) xs c)

IsLevel-AreIn :
    (b : OrderBook) (v : Option Level) (xs : Cells) → IsLevel (node_at b.slab) v xs → AreIn b xs
IsLevel-AreIn b none xs e = subst (AreIn b) (sym e) tt
IsLevel-AreIn b (some level) xs f = Chain-AreIn b none xs f.chain

abbrev cells_of : Side → Queues → List DepthItem → Cells
cells_of s q [] = []
cells_of s q ((price, _, _) ∷ items) = keep_cells (q s price) ++ cells_of s q items

orders_of-cells_of :
    (s : Side) (q : Queues) (items : List DepthItem)
    → orders_of (cells_of s q items) ≡ synthetic_of s q items
orders_of-cells_of s q [] = refl
orders_of-cells_of s q ((price, _, _) ∷ items) =
    orders_of-append (keep_cells (q s price)) (cells_of s q items)
    ∙ ap (λ l. l ++ orders_of (cells_of s q items)) (orders_of-keep_cells (q s price))
    ∙ ap (λ l. keep_synthetic (orders_of (q s price)) ++ l) (orders_of-cells_of s q items)

better-apart : (s : Side) (p p' : Price) → IsBetter s p p' → here s p s p' ≡ false
better-apart bid p p' h = ground arith
better-apart ask p p' h = ground arith

-- A book's orders at distinct slots have distinct identifiers.
module _ (b : OrderBook) (q : Queues) (wf : IsWellFormed b q) where
  slot-unlisted :
      (x : ℕ) (o : Order) (xs : Cells)
      → order_at b x ≡ some o
      → has x xs ≡ false
      → AreIn b xs
      → HashMap.has ℕ_discrete o.id (ids_of (orders_of xs)) ≡ false
  unfolding HashMap.has
  slot-unlisted x o [] at out h = refl
  slot-unlisted x o ((y, p) ∷ xs) at out (at', h) = elim (ℕ_discrete p.id o.id) [
    | yes same ↦
        let clash : x ≡ y = some-inj (
          sym (wf.found x o at)
          ∙ ap (λ id. HashMap.get ℕ_discrete id b.order_index) (sym same)
          ∙ wf.found y p at') in
        absurd (ground (arith, clash))
    | no other ↦ ground (arith, slot-unlisted x o xs at (ground arith) h)
  ]

  ids-NoRepeat : (xs : Cells) → Distinct xs → AreIn b xs → NoRepeat (ids_of (orders_of xs))
  ids-NoRepeat [] d h = tt
  ids-NoRepeat ((x, o) ∷ xs) (out, d) (at, h) = (slot-unlisted x o xs at out h, ids-NoRepeat xs d h)

  pub queue-AreIn : (s : Side) (p : Price) → AreIn b (q s p)
  queue-AreIn s p = IsLevel-AreIn b (level_at s p b) (q s p) (wf.levels s p)

  cells_of-AreIn : (s : Side) (items : List DepthItem) → AreIn b (cells_of s q items)
  cells_of-AreIn s [] = tt
  cells_of-AreIn s ((price, _, _) ∷ items) =
      All-append (λ c. order_at b c.0 ≡ some c.1) (keep_cells (q s price)) (cells_of s q items)
        (keep_cells-AreIn b (q s price) (queue-AreIn s price)) (cells_of-AreIn s items)

  out-cells_of :
      (i : ℕ) (s : Side) (items : List DepthItem)
      → All (λ item. has i (q s item.0) ≡ false) items
      → has i (cells_of s q items) ≡ false
  out-cells_of i s [] h = refl
  out-cells_of i s ((price, _, _) ∷ items) (out, h) =
      has-append i (keep_cells (q s price)) (cells_of s q items)
      ∙ rw (has-keep_cells i (q s price) out) (out-cells_of i s items h)

  in-cells_of :
      (i : ℕ) (s : Side) (items : List DepthItem)
      → has i (cells_of s q items) ≡ true
      → (p : Price) × (has i (q s p) ≡ true)
  in-cells_of i s [] m = cc m
  in-cells_of i s ((price, _, _) ∷ items) m = elim (Bool-cases (has i (q s price))) [
    | inl e ↦ (price, e)
    | inr e ↦ in-cells_of i s items (
        sym (
          has-append i (keep_cells (q s price)) (cells_of s q items)
          ∙ rw (has-keep_cells i (q s price) e) refl)
        ∙ m)
  ]

  cells_of-Distinct :
      (s : Side) (items : List DepthItem)
      → Ordered (λ i j. IsBetter s i.0 j.0) items
      → Distinct (cells_of s q items)
  cells_of-Distinct s [] h = tt
  cells_of-Distinct s ((price, _, _) ∷ items) (first, h) =
      Distinct-join (keep_cells (q s price)) (cells_of s q items)
        (keep_cells-Distinct (q s price) (queue-Distinct b q wf s price))
        (cells_of-Distinct s items h)
        λ i m. out-cells_of i s items (
          All-imp (λ j. IsBetter s price j.0) (λ j. has i (q s j.0) ≡ false) items
            (λ j better.
              queues_apart b q wf s s j.0 price i (apart_back s price j.0 better)
                (kept_in i (q s price) m))
            first)
    where
      kept_in : (i : ℕ) (xs : Cells) → has i (keep_cells xs) ≡ true → has i xs ≡ true
      kept_in i xs m = elim (Bool-cases (has i xs)) [
        | inl e ↦ e
        | inr e ↦ cc (has-keep_cells i xs e, m)
      ]

      apart_back : (s : Side) (p p' : Price) → IsBetter s p p' → here s p' s p ≡ false
      apart_back bid p p' h = ground arith
      apart_back ask p p' h = ground arith

  -- All the synthetic cells, the bids first.
  abbrev pub kept_cells : Cells
  kept_cells = cells_of bid q (depth bid b) ++ cells_of ask q (depth ask b)

  kept_cells-Distinct : Distinct kept_cells
  kept_cells-Distinct =
      Distinct-join (cells_of bid q (depth bid b)) (cells_of ask q (depth ask b))
        (cells_of-Distinct bid (depth bid b) (depth-IsDepth b q wf bid).best_first)
        (cells_of-Distinct ask (depth ask b) (depth-IsDepth b q wf ask).best_first)
        λ i m.
          let (p, at) = in-cells_of i bid (depth bid b) m in
          out-cells_of i ask (depth ask b) (
            every (λ j. has i (q ask j.0) ≡ false) (depth ask b)
              (λ j. queues_apart b q wf ask bid j.0 p i refl at))
    where
      every : (P : DepthItem → Type 0) (l : List DepthItem) → ((j : DepthItem) → P j) → All P l
      every P [] f = tt
      every P (j ∷ l) f = (f j, every P l f)

  pub kept_cells-AreIn : AreIn b kept_cells
  kept_cells-AreIn =
      All-append (λ c. order_at b c.0 ≡ some c.1) (cells_of bid q (depth bid b))
        (cells_of ask q (depth ask b)) (cells_of-AreIn bid (depth bid b))
        (cells_of-AreIn ask (depth ask b))

  pub orders_of-kept_cells : orders_of kept_cells ≡ preserved_of q b
  orders_of-kept_cells =
      orders_of-append (cells_of bid q (depth bid b)) (cells_of ask q (depth ask b))
      ∙ ap (λ l. l ++ orders_of (cells_of ask q (depth ask b)))
          (orders_of-cells_of bid q (depth bid b))
      ∙ ap (λ l. synthetic_of bid q (depth bid b) ++ l) (orders_of-cells_of ask q (depth ask b))

  AreIn-ArePositive : (xs : Cells) → AreIn b xs → ArePositive (orders_of xs)
  AreIn-ArePositive [] h = tt
  AreIn-ArePositive ((x, o) ∷ xs) (at, h) = (wf.sized x o at, AreIn-ArePositive xs h)

  -- The preserved orders of a well-formed book have distinct identifiers and positive sizes.
  pub preserved_of-once : NoRepeat (ids_of (preserved_of q b))
  preserved_of-once =
      subst (λ l. NoRepeat (ids_of l)) orders_of-kept_cells
        (ids-NoRepeat kept_cells kept_cells-Distinct kept_cells-AreIn)

  pub preserved_of-ArePositive : ArePositive (preserved_of q b)
  preserved_of-ArePositive =
      subst ArePositive orders_of-kept_cells (AreIn-ArePositive kept_cells kept_cells-AreIn)
