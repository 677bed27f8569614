-- ===== src/Book/Resize.antt =====
-- A change of the size of one order, with its level's list kept or reordered, keeps the invariant.
use l4_book.Prelude.{
  ℕ, ◌<◌, ◌≡◌, refl, inl, inr, ap, ap₂, sym, subst, ◌∙◌, Option, none, some, arith, length,
  ℕ_discrete, ite, false, u64_mod, Bool-cases, Option-cases,
}
use l4_book.Types.{Order, OrderId, WalletId, Price, Qty, Side}
use l4_book.Containers.HashMap
use l4_book.Containers.TreeMap
use l4_book.Slab.{Slab, Level, OrderNode, node_at}
use l4_book.Slab.Laws.{order_of}
use l4_book.Slab.Chain.{Cells, has}
use l4_book.Slab.Cells.{resized}
use l4_book.Book.{OrderBook, levels_of, with_levels}
use l4_book.Book.Invariant.{
  IsWellFormed, Queues, Fits, IsLevel, here, level_at, order_at, order_by_id, owned_by, rests,
  with_queue, level_at-insert, with_levels-IsSorted, IsLevel-with_queue, queues_apart, here-eq,
}
use l4_book.Book.Wallets.{owns}

-- The slab `slab'` has the order at `x` with the size `n`, in a level with the list `xs`.
pub record Resized (b : OrderBook) (q : Queues) (x : ℕ) (o : Order) (n : Qty) (slab' : Slab)
    (level : Level) (xs : Cells) : Type 0 where
  pub rested : order_at b x ≡ some o
  pub orders :
      (i : ℕ)
      → order_of (node_at slab' i) ≡ ite (ℕ_discrete x i) (some (resized n o)) (order_at b i)
  pub frame : (i : ℕ) → has i (q o.side o.price) ≡ false → node_at slab' i ≡ node_at b.slab i
  pub members : (i : ℕ) → has i xs ≡ has i (q o.side o.price)
  pub fits : Fits (node_at slab') level xs
  pub size : length slab' ≡ length b.slab
  pub positive : 0 < n
  pub bounded : n < u64_mod

module _ (b : OrderBook) (q : Queues) (wf : IsWellFormed b q) (x : ℕ) (o : Order) (n : Qty)
    (slab' : Slab) (level : Level) (xs : Cells) (r : Resized b q x o n slab' level xs) where
  abbrev pub rewritten : OrderBook
  rewritten =
      with_levels o.side (TreeMap.insert o.price level (levels_of o.side b))
        (record b { slab = slab' })

  levels_after :
      (s : Side) (p : Price)
      → IsLevel (node_at slab') (level_at s p rewritten) (with_queue o.side o.price xs q s p)
  levels_after s p =
      subst (λ v. IsLevel (node_at slab') v (with_queue o.side o.price xs q s p))
        (sym (level_at-insert b _ refl refl o.side s o.price p level))
        (IsLevel-with_queue (node_at b.slab) (node_at slab') q o.side o.price (some level) xs s p
          (level_at s p b) (wf.levels s p) r.fits
          (λ other i m. r.frame i (queues_apart b q wf o.side s o.price p i other m)))

  placed_after :
      (i : ℕ) (s : Side) (p : Price)
      → has i (with_queue o.side o.price xs q s p) ≡ rests s p (order_of (node_at slab' i))
  placed_after i s p = elim (Bool-cases (here o.side o.price s p)) [
    | inl e ↦
        let (es, ep) = here-eq o.side s o.price p e in
        let same = ap₂ (λ t r. has i (q t r)) es ep in
        ground (arith, r.orders i, r.members i, wf.placed i s p, same, r.rested)
    | inr e ↦ ground (arith, r.orders i, wf.placed i s p, r.rested)
  ]

  indexed_after :
      (id : OrderId) (i : ℕ)
      → HashMap.get ℕ_discrete id b.order_index ≡ some i
      → (o' : Order) × (order_of (node_at slab' i) ≡ some o') × (o'.id ≡ id)
  indexed_after id i e =
      let (o', at_i, is) = wf.indexed id i e in
      elim (ℕ_discrete x i) [
        | yes same ↦ (resized n o, ground (arith, r.orders i, same), ground (arith, r.rested, same))
        | no other ↦ (o', ground (arith, r.orders i, other), is)
      ]

  found_after :
      (i : ℕ) (o' : Order)
      → order_of (node_at slab' i) ≡ some o'
      → HashMap.get ℕ_discrete o'.id b.order_index ≡ some i
  found_after i o' e = ground (arith, r.orders i, wf.found i o', wf.found x o, r.rested)

  vacant_after : (i : ℕ) → node_at b.slab i ≡ none → node_at slab' i ≡ none
  vacant_after i empty =
      r.frame i (wf.placed i o.side o.price ∙ ap (λ v. rests o.side o.price (order_of v)) empty)
      ∙ empty

  was_vacant : (i : ℕ) → node_at slab' i ≡ none → node_at b.slab i ≡ none
  was_vacant i empty =
      go (node_at b.slab i) (ground (arith, r.orders i, r.rested, ap order_of empty))
    where
      go : (v : Option OrderNode) → order_of v ≡ none → v ≡ none
      go none e = refl
      go (some n) e = cc

  owned_after :
      (w : WalletId) (id : OrderId)
      → owns w id b.wallet_index ≡ owned_by w (order_by_id id rewritten)
  unfolding with_levels
  owned_after w id = elim (Option-cases (HashMap.get ℕ_discrete id b.order_index)) [
    | inl e ↦ ground (arith, e, wf.owned w id)
    | inr (i, e) ↦ ground (arith, e, wf.owned w id, r.orders i, r.rested)
  ]

  pub rewritten-IsWellFormed : IsWellFormed rewritten (with_queue o.side o.price xs q)
  unfolding with_levels
  rewritten-IsWellFormed = record {
    levels = levels_after;
    placed = placed_after;
    indexed = indexed_after;
    found = found_after;
    free = λ i m. (vacant_after i (wf.free i m).0, omega (arith, r.size, (wf.free i m).1));
    no_leak = λ i inside empty. wf.no_leak i (omega (arith, r.size, inside)) (was_vacant i empty);
    keyed = wf.keyed;
    no_repeat = wf.no_repeat;
    owned = owned_after;
    sized = λ i o' e. ground (arith, r.orders i, wf.sized i o', r.positive, r.bounded);
    sorted = λ s.
        with_levels-IsSorted b _ refl refl o.side s _
          (TreeMap.insert-IsSorted o.price level (levels_of o.side b) (wf.sorted o.side))
          (wf.sorted s);
    small = omega (arith, r.size, wf.small);
  }
