-- ===== src/Book/Invariant.antt =====
-- The invariant of the order book: the slab, the lists of the levels and the indices agree on
-- which orders rest where. The queues, one for each side and price, are the book's contents.
use l4_book.Prelude.{
  ℕ, ◌%◌, ◌≤◌, ◌<◌, ◌≡◌, refl, ◌≢◌, ap, sym, ◌∙◌, List, [], ◌∷◌, Option, none, some, arith, length,
  ite, ℕ_discrete, Bool, true, false, ◌&&◌, ◌==◌, if◌then◌else◌, u64_mod, Bool-cases, inl, inr,
}
use l4_book.Types.{Order, OrderId, WalletId, Price, Side, bid, ask, WalletId-discrete}
use l4_book.Containers.HashMap
use l4_book.Containers.TreeMap
use l4_book.Slab.{Level, OrderNode, node_at}
use l4_book.Slab.Laws.{Nodes, order_of, lt-length_of_node}
use l4_book.Slab.Chain.{Cells, has, Chain, Distinct, Chain-frame}
use l4_book.Slab.Links.{HasEnds}
use l4_book.Slab.Cells.{sum_qty, length-le_of_below}
use l4_book.Book.{OrderBook, Levels, levels_of, with_levels, max_slots, or_empty}

abbrev pub Queues : Type 0
Queues = Side → Price → Cells

abbrev pub same_side : Side → Side → Bool
same_side bid bid = true
same_side bid ask = false
same_side ask bid = false
same_side ask ask = true

-- The two name one queue.
abbrev pub here : Side → Price → Side → Price → Bool
here s p s' p' = same_side s s' && p == p'

abbrev pub order_at : OrderBook → ℕ → Option Order
order_at b i = order_of (node_at b.slab i)

-- The order rests on side `s` at price `p`.
abbrev pub rests : Side → Price → Option Order → Bool
rests s p none = false
rests s p (some o) = here o.side o.price s p

abbrev pub level_at : Side → Price → OrderBook → Option Level
level_at s p b = TreeMap.get p (levels_of s b)

-- A level with its cached values, over its list.
pub record Fits (h : Nodes) (level : Level) (xs : Cells) : Type 0 where
  pub occupied : xs ≢ []
  pub count : level.order_count ≡ length xs
  pub total : level.total_qty ≡ sum_qty xs % u64_mod
  pub ends : HasEnds level xs
  pub chain : Chain h none xs none
  pub distinct : Distinct xs

abbrev pub IsLevel : Nodes → Option Level → Cells → Type 0
IsLevel h none xs = xs ≡ []
IsLevel h (some level) xs = Fits h level xs

abbrev pub NoRepeat : List ℕ → Type 0
NoRepeat [] = Unit {0}
NoRepeat (i ∷ is) = (HashMap.has ℕ_discrete i is ≡ false) × NoRepeat is

abbrev pub order_in : OrderBook → Option ℕ → Option Order
order_in b none = none
order_in b (some i) = order_at b i

-- The resting order with an identifier.
abbrev pub order_by_id : OrderId → OrderBook → Option Order
order_by_id id b = order_in b (HashMap.get ℕ_discrete id b.order_index)

abbrev pub owned_by : WalletId → Option Order → Bool
owned_by w none = false
owned_by w (some o) = ite (WalletId-discrete o.wallet w) true false

abbrev pub ids_of_wallet : WalletId → OrderBook → List OrderId
ids_of_wallet w b = or_empty (HashMap.get WalletId-discrete w b.wallet_index)

pub record IsWellFormed (b : OrderBook) (q : Queues) : Type 0 where
  pub levels : (s : Side) (p : Price) → IsLevel (node_at b.slab) (level_at s p b) (q s p)
  pub placed : (i : ℕ) (s : Side) (p : Price) → has i (q s p) ≡ rests s p (order_at b i)
  pub indexed :
      (id : OrderId) (i : ℕ)
      → HashMap.get ℕ_discrete id b.order_index ≡ some i
      → (o : Order) × (order_at b i ≡ some o) × (o.id ≡ id)
  pub found :
      (i : ℕ) (o : Order)
      → order_at b i ≡ some o
      → HashMap.get ℕ_discrete o.id b.order_index ≡ some i
  pub keyed : HashMap.IsKeyed ℕ_discrete b.order_index
  pub free :
      (i : ℕ)
      → HashMap.has ℕ_discrete i b.free_list ≡ true
      → (node_at b.slab i ≡ none) × (i < length b.slab)
  pub no_leak :
      (i : ℕ)
      → i < length b.slab
      → node_at b.slab i ≡ none
      → HashMap.has ℕ_discrete i b.free_list ≡ true
  pub no_repeat : NoRepeat b.free_list
  pub owned :
      (w : WalletId) (id : OrderId)
      → HashMap.has ℕ_discrete id (ids_of_wallet w b) ≡ owned_by w (order_by_id id b)
  pub sized : (i : ℕ) (o : Order) → order_at b i ≡ some o → (0 < o.qty) × (o.qty < u64_mod)
  pub sorted : (s : Side) → TreeMap.IsSorted (levels_of s b)
  pub small : length b.slab ≤ max_slots

-- A queue replaced.
abbrev pub with_queue : Side → Price → Cells → Queues → Queues
with_queue s p xs q s' p' = if here s p s' p' then xs else q s' p'

pub IsLevel-frame :
    (h h' : Nodes) (v : Option Level) (xs : Cells)
    → ((i : ℕ) → has i xs ≡ true → h' i ≡ h i)
    → IsLevel h v xs
    → IsLevel h' v xs
IsLevel-frame h h' none xs same e = e
IsLevel-frame h h' (some level) xs same f = record {
  occupied = f.occupied;
  count = f.count;
  total = f.total;
  ends = f.ends;
  chain = Chain-frame h h' none xs none same f.chain;
  distinct = f.distinct;
}

pub rests-here :
    (s s' : Side) (p p' : Price) (v : Option Order)
    → rests s p v ≡ true
    → rests s' p' v ≡ here s p s' p'
rests-here s s' p p' none e = cc
rests-here s s' p p' (some o) e = rests-here_some o.side s s' o.price p p' e
  where
    rests-here_some :
        (t s s' : Side) (r p p' : Price) → here t r s p ≡ true → here t r s' p' ≡ here s p s' p'
    rests-here_some bid bid bid r p p' e = ground arith
    rests-here_some bid bid ask r p p' e = ground arith
    rests-here_some bid ask s' r p p' e = cc
    rests-here_some ask bid s' r p p' e = cc
    rests-here_some ask ask bid r p p' e = ground arith
    rests-here_some ask ask ask r p p' e = ground arith

-- The levels of a book `c` that has those of `b`, with one of them written.
module _ (b c : OrderBook) (same_bids : c.bids ≡ b.bids) (same_asks : c.asks ≡ b.asks) where
  pub level_at-insert :
      (s s' : Side) (p p' : Price) (level : Level)
      → level_at s' p' (with_levels s (TreeMap.insert p level (levels_of s b)) c)
        ≡ (if here s p s' p' then some level else level_at s' p' b)
  unfolding levels_of with_levels
  level_at-insert bid bid p p' level = ground (arith, TreeMap.get-insert p p' level b.bids)
  level_at-insert bid ask p p' level = ap (TreeMap.get p') same_asks
  level_at-insert ask bid p p' level = ap (TreeMap.get p') same_bids
  level_at-insert ask ask p p' level = ground (arith, TreeMap.get-insert p p' level b.asks)

  pub level_at-remove :
      (s s' : Side) (p p' : Price)
      → level_at s' p' (with_levels s (TreeMap.remove p (levels_of s b)) c)
        ≡ (if here s p s' p' then none else level_at s' p' b)
  unfolding levels_of with_levels
  level_at-remove bid bid p p' = ground (arith, TreeMap.get-remove p p' b.bids)
  level_at-remove bid ask p p' = ap (TreeMap.get p') same_asks
  level_at-remove ask bid p p' = ap (TreeMap.get p') same_bids
  level_at-remove ask ask p p' = ground (arith, TreeMap.get-remove p p' b.asks)

  pub with_levels-IsSorted :
      (s s' : Side) (l : Levels)
      → TreeMap.IsSorted l
      → TreeMap.IsSorted (levels_of s' b)
      → TreeMap.IsSorted (levels_of s' (with_levels s l c))
  unfolding levels_of with_levels
  with_levels-IsSorted bid bid l new old = new
  with_levels-IsSorted bid ask l new old = rw same_asks old
  with_levels-IsSorted ask bid l new old = rw same_bids old
  with_levels-IsSorted ask ask l new old = new

-- A change of one queue and its level keeps the others, if their nodes stay as they are.
pub IsLevel-with_queue :
    (h h' : Nodes) (q : Queues) (s : Side) (p : Price) (v : Option Level) (xs : Cells) (s' : Side)
    (p' : Price) (old : Option Level)
    → IsLevel h old (q s' p')
    → IsLevel h' v xs
    → (here s p s' p' ≡ false → (i : ℕ) → has i (q s' p') ≡ true → h' i ≡ h i)
    → IsLevel h' (if here s p s' p' then v else old) (with_queue s p xs q s' p')
IsLevel-with_queue h h' q s p v xs s' p' old before new same = elim (Bool-cases (here s p s' p')) [
  | inl e ↦ rw e new
  | inr e ↦ rw e (IsLevel-frame h h' old (q s' p') (same e) before)
]

pub here-eq : (s s' : Side) (p p' : Price) → here s p s' p' ≡ true → (s ≡ s') × (p ≡ p')
here-eq bid bid p p' e = ground arith
here-eq bid ask p p' e = cc
here-eq ask bid p p' e = cc
here-eq ask ask p p' e = ground arith

pub here_refl : (s : Side) (p : Price) → here s p s p ≡ true
here_refl bid p = ground arith
here_refl ask p = ground arith

module _ (b : OrderBook) (q : Queues) (wf : IsWellFormed b q) where
  -- A slot of one queue is in no other.
  pub queues_apart :
      (s s' : Side) (p p' : Price) (i : ℕ)
      → here s p s' p' ≡ false
      → has i (q s' p') ≡ true
      → has i (q s p) ≡ false
  queues_apart s s' p p' i other m = elim (Bool-cases (has i (q s p))) [
    | inl e ↦ cc (
      rests-here s s' p p' (order_at b i) (sym (wf.placed i s p) ∙ e),
      other,
      sym (wf.placed i s' p') ∙ m,
    )
    | inr e ↦ e
  ]

  pub queue-Distinct : (s : Side) (p : Price) → Distinct (q s p)
  queue-Distinct s p = IsLevel-Distinct (level_at s p b) (q s p) (wf.levels s p)
    where
      IsLevel-Distinct :
          (v : Option Level) (xs : Cells) → IsLevel (node_at b.slab) v xs → Distinct xs
      IsLevel-Distinct none xs e = rw e tt
      IsLevel-Distinct (some level) xs f = f.distinct

  pub lt-length_of_has : (s : Side) (p : Price) (i : ℕ) → has i (q s p) ≡ true → i < length b.slab
  lt-length_of_has s p i m = go (node_at b.slab i) refl
    where
      go : (v : Option OrderNode) → node_at b.slab i ≡ v → i < length b.slab
      go (some n) e = lt-length_of_node b.slab i e
      go none e = absurd (cc (ap (λ v. rests s p (order_of v)) e, sym (wf.placed i s p) ∙ m))

  -- A queue is no longer than the slab, so its counter does not wrap.
  pub length-queue : (s : Side) (p : Price) → length (q s p) ≤ length b.slab
  length-queue s p =
      length-le_of_below (length b.slab) (q s p) (queue-Distinct s p) (lt-length_of_has s p)
