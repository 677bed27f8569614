-- ===== src/Book/Depths.antt =====
-- `depth` lists the queues of one side that are not empty, from the best price on.
pub mod First
use mathlib.Core.List.{reverse, reverse-cons, map-append}
use l4_book.Prelude.{
  ℕ, ◌%◌, ◌<◌, ◌≡◌, ◌≢◌, refl, ap, ◌∙◌, subst, List, [], ◌∷◌, ◌++◌, some, arith, length, map, Bool,
  true, false, ◌||◌, ◌==◌, ==_refl, ℕ_discrete, u64_mod, All, All-reverse, All-imp, All-both,
  All-map, Ordered, Ordered-reverse, Ordered-map,
}
use l4_book.Types.{Side, bid, ask, Price}
use l4_book.Containers.TreeMap
use l4_book.Slab.{Level, node_at}
use l4_book.Slab.Cells.{sum_qty}
use l4_book.Book.{OrderBook, levels_of}
use l4_book.Book.Invariant.{IsWellFormed, Queues, IsLevel, level_at}
use l4_book.Book.Best.{level_of_queue}
use l4_book.Book.Queries.{DepthItem, depth_item, depth}

-- A price that is met before another on a side.
abbrev pub IsBetter : Side → Price → Price → Type 0
IsBetter bid p p' = p' < p
IsBetter ask p p' = p < p'

abbrev pub lists : Price → List DepthItem → Bool
lists p [] = false
lists p ((price, _, _) ∷ items) = p == price || lists p items

-- The items stand for the queues of the side that are not empty, each once, the best price first.
pub record IsDepth (s : Side) (q : Queues) (items : List DepthItem) : Type 0 where
  pub best_first : Ordered (λ i j. IsBetter s i.0 j.0) items
  pub exact :
      All
        (λ (i : DepthItem).
          (q s i.0 ≢ []) × (i.1 ≡ sum_qty (q s i.0) % u64_mod) × (i.2 ≡ length (q s i.0)))
        items
  pub complete : (p : Price) → q s p ≢ [] → lists p items ≡ true

module _ {ℓ} {V : Type ℓ} where
  Above-All : (k : ℕ) (m : List (ℕ × V)) → TreeMap.Above k m → All (λ e. k < e.0) m
  Above-All k [] a = tt
  Above-All k ((j, v) ∷ m) a =
      (a.0, All-imp (λ e. j < e.0) (λ e. k < e.0) m (λ e h. omega (arith, a.0)) (Above-All j m a.1))

  sorted-Ordered : (m : List (ℕ × V)) → TreeMap.IsSorted m → Ordered (λ e f. e.0 < f.0) m
  sorted-Ordered [] a = tt
  sorted-Ordered ((j, v) ∷ []) a = (tt, tt)
  sorted-Ordered ((j, v) ∷ (i, w) ∷ m) a =
      (Above-All j ((i, w) ∷ m) a, sorted-Ordered ((i, w) ∷ m) a.1)

  IsSorted-tail : (j : ℕ) (m : List (ℕ × V)) → TreeMap.Above j m → TreeMap.IsSorted m
  IsSorted-tail j [] a = tt
  IsSorted-tail j ((i, w) ∷ m) a = a.1

module _ {V : Type 0} where
  -- What is listed is found.
  pub entries-get :
      (m : List (ℕ × V)) → TreeMap.IsSorted m → All (λ e. TreeMap.get e.0 m ≡ some e.1) m
  unfolding TreeMap.get
  entries-get [] a = tt
  entries-get ((j, v) ∷ m) a = (
    ground arith,
    All-both (λ e. j < e.0) (λ e. TreeMap.get e.0 m ≡ some e.1) _ m (λ e above at. ground arith)
        (Above-All j m a) (entries-get m (IsSorted-tail j m a)),
  )

lists-append : (p : Price) (l m : List DepthItem) → lists p (l ++ m) ≡ (lists p l || lists p m)
lists-append p [] m = refl
lists-append p ((price, _, _) ∷ l) m = ground (arith, lists-append p l m)

lists-reverse :
    (p : Price) (m : List (ℕ × Level))
    → lists p (map depth_item (reverse m)) ≡ lists p (map depth_item m)
unfolding depth_item
lists-reverse p [] = refl
lists-reverse p ((j, v) ∷ m) =
    ap (λ l. lists p (map depth_item l)) (reverse-cons (j, v) m)
    ∙ ap (lists p) (map-append depth_item (reverse m) ((j, v) ∷ []))
    ∙ lists-append p (map depth_item (reverse m)) (depth_item (j, v) ∷ [])
    ∙ ground (arith, lists-reverse p m)

lists-get :
    (p : Price) (level : Level) (m : List (ℕ × Level))
    → TreeMap.get p m ≡ some level
    → lists p (map depth_item m) ≡ true
unfolding TreeMap.get depth_item
lists-get p level [] e = cc
lists-get p level ((j, v) ∷ m) e = elim (ℕ_discrete j p) [
  | yes same ↦ rw same (rw (==_refl p) refl)
  | no other ↦ ground (arith, lists-get p level m)
]

module _ (b : OrderBook) (q : Queues) (wf : IsWellFormed b q) where
  -- A level that is found stands for its queue.
  level-exact :
      (s : Side) (p : Price) (level : Level)
      → level_at s p b ≡ some level
      → (q s p ≢ [])
        × (level.total_qty ≡ sum_qty (q s p) % u64_mod)
        × (level.order_count ≡ length (q s p))
  level-exact s p level e =
      let f = subst (λ v. IsLevel (node_at b.slab) v (q s p)) e (wf.levels s p) in
      (f.occupied, f.total, f.count)

  map-IsDepth :
      (s : Side) (m : List (ℕ × Level))
      → Ordered (λ e f. IsBetter s e.0 f.0) m
      → All (λ e. level_at s e.0 b ≡ some e.1) m
      → ((p : Price) (level : Level)
          → level_at s p b ≡ some level
          → lists p (map depth_item m) ≡ true)
      → IsDepth s q (map depth_item m)
  unfolding depth_item
  map-IsDepth s m ordered found listed = record {
    best_first = Ordered-map depth_item (λ i j. IsBetter s i.0 j.0) m ordered;
    exact =
        All-map depth_item _ m
          (All-imp (λ e. level_at s e.0 b ≡ some e.1) _ m (λ e at. level-exact s e.0 e.1 at) found);
    complete = λ p busy. let (level, at) = level_of_queue b q wf s p busy in listed p level at;
  }

  -- On a well-formed book `depth` lists every price of a side at which an order rests, each once and
  -- the best first, with the number of the orders and the sum of their sizes modulo 2^64.
  pub depth-IsDepth : (s : Side) → IsDepth s q (depth s b)
  unfolding depth levels_of
  depth-IsDepth ask =
      map-IsDepth ask b.asks (sorted-Ordered b.asks (wf.sorted ask))
        (entries-get b.asks (wf.sorted ask)) (λ p level at. lists-get p level b.asks at)
  depth-IsDepth bid =
      map-IsDepth bid (reverse b.bids)
        (Ordered-reverse (λ e f. e.0 < f.0) b.bids (sorted-Ordered b.bids (wf.sorted bid)))
        (All-reverse _ b.bids (entries-get b.bids (wf.sorted bid)))
        (λ p level at. lists-reverse p b.bids ∙ lists-get p level b.bids at)
