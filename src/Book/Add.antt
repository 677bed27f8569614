-- ===== src/Book/Add.antt =====
-- `add` puts a new order at the tail of its queue, and keeps the invariant.
use l4_book.Prelude.{
  ℕ, ◌%◌, ◌<◌, ◌≡◌, refl, ◌≢◌, inl, inr, ap, ap₂, sym, subst, ◌∙◌, List, [], ◌∷◌, ◌++◌, Option,
  none, some, arith, length, ℕ_discrete, ite, true, false, length-append, set, length-set, add_u64,
  u64_mod, ==_ne, Bool-cases, Option-cases,
}
use l4_book.Types.{Order, OrderId, WalletId, Price, Side}
use l4_book.Containers.HashMap
use l4_book.Containers.TreeMap
use l4_book.Slab.{Slab, Level, node_at, new_node, new_level, link_tail}
use l4_book.Slab.Laws.{eq-none_of_order, Nodes, order_of, assign, node_at-set, write_slot_lem}
use l4_book.Slab.Chain.{Cells, has, Chain, Distinct, has-append, Chain-frame, Distinct-join}
use l4_book.Slab.Links.{HasEnds, with_ends, Linked, link_tail_lem}
use l4_book.Slab.Cells.{sum_qty, sum_qty-append}
use l4_book.Book.{OrderBook, ok, levels_of, with_levels, or_new, insert_order, add, wallet_insert}
use l4_book.Book.Invariant.{
  IsWellFormed, Queues, Fits, IsLevel, here, level_at, order_at, order_by_id, owned_by, rests,
  with_queue, level_at-insert, with_levels-IsSorted, IsLevel-with_queue, queues_apart, length-queue,
  here-eq,
}
use l4_book.Book.Wallets.{owns, owns-wallet_insert}
use l4_book.Book.Alloc.{Allocated, HasRoom, alloc_slot_lem}

-- The queues with `o` behind its queue.
abbrev pub enqueue : ℕ → Order → Queues → Queues
enqueue x o q = with_queue o.side o.price (q o.side o.price ++ (x, o) ∷ []) q

-- A level and its list, or a new level and no list.
pub record Base (h : Nodes) (level : Level) (xs : Cells) : Type 0 where
  pub count : level.order_count ≡ length xs
  pub total : level.total_qty ≡ sum_qty xs % u64_mod
  pub ends : HasEnds level xs
  pub chain : Chain h none xs none
  pub distinct : Distinct xs

or_new-Base : (h : Nodes) (v : Option Level) (xs : Cells) → IsLevel h v xs → Base h (or_new v) xs
unfolding or_new
or_new-Base h none xs e = subst (Base h new_level) (sym e) (record {
  count = refl;
  total = refl;
  ends = record { first = refl; last = refl };
  chain = tt;
  distinct = tt;
})
or_new-Base h (some level) xs f = record {
  count = f.count;
  total = f.total;
  ends = f.ends;
  chain = f.chain;
  distinct = f.distinct;
}

-- The counters of the level of a new order.
abbrev counted : Order → Level → Level
counted o level = record level {
  order_count = add_u64 level.order_count 1;
  total_qty = add_u64 level.total_qty o.qty;
}

append-ne-nil : (xs : Cells) (c : ℕ × Order) → xs ++ c ∷ [] ≢ []
append-ne-nil [] c e = cc
append-ne-nil (x ∷ xs) c e = cc

module _ (b : OrderBook) (q : Queues) (wf : IsWellFormed b q) (o : Order) (x : ℕ) (slab : Slab)
    (free_list : List ℕ) (al : Allocated b x slab free_list) where
  abbrev old : Cells
  old = q o.side o.price

  abbrev written : Slab
  written = set slab x (some (new_node o))

  abbrev appended : Level
  appended = with_ends (counted o (or_new (level_at o.side o.price b))) (old ++ (x, o) ∷ [])

  abbrev added : Slab → OrderBook
  added slab' =
      with_levels o.side (TreeMap.insert o.price appended (levels_of o.side b)) (record b {
        slab = slab';
        free_list = free_list;
        order_index = HashMap.insert ℕ_discrete o.id x b.order_index;
        wallet_index = wallet_insert o.wallet o.id b.wallet_index;
      })

  vacant : (s : Side) (p : Price) → has x (q s p) ≡ false
  vacant s p = wf.placed x s p ∙ ap (λ v. rests s p (order_of v)) (sym (al.nodes x) ∙ al.empty)

  written-eq : (j : ℕ) → node_at written j ≡ assign x (some (new_node o)) (node_at b.slab) j
  unfolding assign
  written-eq j = ground (arith, node_at-set slab x (some (new_node o)) j al.inside, al.nodes j)

  written-frame :
      (s : Side) (p : Price) (i : ℕ) → has i (q s p) ≡ true → node_at written i ≡ node_at b.slab i
  unfolding assign
  written-frame s p i m = ground (arith, written-eq i, vacant s p)

  base : Base (node_at b.slab) (or_new (level_at o.side o.price b)) old
  base = or_new-Base (node_at b.slab) (level_at o.side o.price b) old (wf.levels o.side o.price)

  -- The list of the level, with the new slot behind it.
  linked :
      (slab' : Slab) × (link_tail written (counted o (or_new (level_at o.side o.price b))) x
        ≡ some (slab', appended))
      × Linked written slab' (old ++ (x, o) ∷ [])
  unfolding assign new_node
  linked =
      link_tail_lem written (counted o (or_new (level_at o.side o.price b))) x o old
        (record { first = base.ends.first; last = base.ends.last })
        (Chain-frame (node_at b.slab) (node_at written) none old none (written-frame o.side o.price)
          base.chain)
        base.distinct (vacant o.side o.price) (ground (arith, written-eq x))

  insert_order_lem :
      (slab' : Slab)
      → link_tail written (counted o (or_new (level_at o.side o.price b))) x
        ≡ some (slab', appended)
      → insert_order o b ≡ some (added slab')
  unfolding insert_order levels_of
  insert_order_lem slab' e =
      rw (al.step, write_slot_lem slab x (some (new_node o)) al.inside, e) refl

  module _ (slab' : Slab) (l : Linked written slab' (old ++ (x, o) ∷ [])) where
    orders_after :
        (i : ℕ) → order_of (node_at slab' i) ≡ ite (ℕ_discrete x i) (some o) (order_at b i)
    unfolding assign new_node
    orders_after i = ground (arith, l.orders i, written-eq i)

    kept :
        (s : Side) (p : Price)
        → here o.side o.price s p ≡ false
        → (i : ℕ) → has i (q s p) ≡ true
        → node_at slab' i ≡ node_at b.slab i
    kept s p other i m =
        l.frame i (
          ground (
            arith,
            has-append i old ((x, o) ∷ []),
            queues_apart b q wf o.side s o.price p i other m,
            vacant s p,
          ))
        ∙ written-frame s p i m

    fits : Fits (node_at slab') appended (old ++ (x, o) ∷ [])
    unfolding add_u64
    fits = record {
      occupied = append-ne-nil old (x, o);
      count = omega (
        arith,
        base.count,
        length-append old ((x, o) ∷ []),
        length-queue b q wf o.side o.price,
        wf.small,
      );
      total = omega (arith, base.total, sum_qty-append old ((x, o) ∷ []));
      ends = record { first = refl; last = refl };
      chain = l.chain;
      distinct =
          Distinct-join old ((x, o) ∷ []) base.distinct (refl, tt)
            (λ i m. ground (arith, vacant o.side o.price));
    }

    levels_after :
        (s : Side) (p : Price)
        → IsLevel (node_at slab') (level_at s p (added slab')) (enqueue x o q s p)
    levels_after s p =
        subst (λ v. IsLevel (node_at slab') v (enqueue x o q s p))
          (sym (level_at-insert b _ refl refl o.side s o.price p appended))
          (IsLevel-with_queue (node_at b.slab) (node_at slab') q o.side o.price (some appended)
            (old ++ (x, o) ∷ []) s p (level_at s p b) (wf.levels s p) fits (kept s p))

    placed_after :
        (i : ℕ) (s : Side) (p : Price)
        → has i (enqueue x o q s p) ≡ rests s p (order_of (node_at slab' i))
    placed_after i s p = elim (Bool-cases (here o.side o.price s p)) [
      | inl e ↦
          let (es, ep) = here-eq o.side s o.price p e in
          let same = λ (k : ℕ). ap₂ (λ t r. has k (q t r)) es ep in
          ground (arith, orders_after i, has-append i old ((x, o) ∷ []), wf.placed i s p, same i)
      | inr e ↦ ground (arith, orders_after i, wf.placed i s p, vacant s p)
    ]

    indexed_after :
        (id : OrderId) (i : ℕ)
        → HashMap.get ℕ_discrete id (HashMap.insert ℕ_discrete o.id x b.order_index) ≡ some i
        → (o' : Order) × (order_of (node_at slab' i) ≡ some o') × (o'.id ≡ id)
    indexed_after id i e = elim (ℕ_discrete o.id id) [
      | yes same ↦ (
        o,
        ground (arith, orders_after i, HashMap.get-insert ℕ_discrete o.id id x b.order_index),
        same,
      )
      | no other ↦
          let (o', at_i, is) =
            wf.indexed id i
              (ground (arith, HashMap.get-insert ℕ_discrete o.id id x b.order_index)) in
          (o', ground (arith, orders_after i, al.nodes x, al.empty), is)
    ]

    free_after :
        (i : ℕ)
        → HashMap.has ℕ_discrete i free_list ≡ true
        → (node_at slab' i ≡ none) × (i < length slab')
    unfolding assign
    free_after i m =
        let (empty, inside) = al.free i m in
        let out : has i old ≡ false =
          wf.placed i o.side o.price
          ∙ ap (λ v. rests o.side o.price (order_of v)) (sym (al.nodes i) ∙ empty) in
        (
          ground (
            arith,
            l.frame i,
            has-append i old ((x, o) ∷ []),
            out,
            written-eq i,
            al.fresh,
            al.nodes i,
            empty,
          ),
          omega (arith, l.size, length-set slab x (some (new_node o)), inside),
        )

    no_leak_after :
        (i : ℕ)
        → i < length slab'
        → node_at slab' i ≡ none
        → HashMap.has ℕ_discrete i free_list ≡ true
    no_leak_after i inside empty =
        let no_order : order_of (node_at slab' i) ≡ none = ap order_of empty in
        al.no_leak i (omega (arith, l.size, length-set slab x (some (new_node o)), inside))
          (al.nodes i ∙ eq-none_of_order (node_at b.slab i) (ground (arith, orders_after i)))
          (λ e. ground (arith, orders_after i))

    sized_after :
        0 < o.qty
        → o.qty < u64_mod
        → (i : ℕ) (o' : Order) → order_of (node_at slab' i) ≡ some o'
        → (0 < o'.qty) × (o'.qty < u64_mod)
    sized_after pos small i o' e = ground (arith, orders_after i, wf.sized i o')

    module _ (unknown : HashMap.get ℕ_discrete o.id b.order_index ≡ none) where
      found_after :
          (i : ℕ) (o' : Order)
          → order_of (node_at slab' i) ≡ some o'
          → HashMap.get ℕ_discrete o'.id (HashMap.insert ℕ_discrete o.id x b.order_index) ≡ some i
      found_after i o' e = ground (
        arith,
        orders_after i,
        HashMap.get-insert ℕ_discrete o.id o'.id x b.order_index,
        wf.found i o',
      )

      by_id_after :
          (id : OrderId)
          → order_by_id id (added slab') ≡ ite (ℕ_discrete o.id id) (some o) (order_by_id id b)
      unfolding with_levels
      by_id_after id = elim (ℕ_discrete o.id id) [
        | yes same ↦
            rw (HashMap.get-insert ℕ_discrete o.id id x b.order_index)
              (ground (arith, orders_after x, same))
        | no other ↦ elim (Option-cases (HashMap.get ℕ_discrete id b.order_index)) [
          | inl e ↦
              rw (HashMap.get-insert ℕ_discrete o.id id x b.order_index, e) (ground (arith, other))
          | inr (i, e) ↦
              rw (HashMap.get-insert ℕ_discrete o.id id x b.order_index, e)
                (ground (arith, other, orders_after i, (wf.indexed id i e).1, al.nodes x, al.empty))
        ]
      ]

      owned_after :
          (w : WalletId) (id : OrderId)
          → owns w id (wallet_insert o.wallet o.id b.wallet_index)
            ≡ owned_by w (order_by_id id (added slab'))
      owned_after w id = ground (
        arith,
        by_id_after id,
        owns-wallet_insert o.wallet w o.id id b.wallet_index,
        wf.owned w id,
      )

      added-IsWellFormed : 0 < o.qty → o.qty < u64_mod → IsWellFormed (added slab') (enqueue x o q)
      unfolding with_levels
      added-IsWellFormed pos bounded = record {
        levels = levels_after;
        placed = placed_after;
        indexed = indexed_after;
        found = found_after;
        free = free_after;
        no_leak = no_leak_after;
        keyed = HashMap.insert-IsKeyed ℕ_discrete o.id x b.order_index wf.keyed;
        no_repeat = al.no_repeat;
        owned = owned_after;
        sized = sized_after pos bounded;
        sorted = λ s.
            with_levels-IsSorted b _ refl refl o.side s _
              (TreeMap.insert-IsSorted o.price appended (levels_of o.side b) (wf.sorted o.side))
              (wf.sorted s);
        small = omega (arith, l.size, length-set slab x (some (new_node o)), al.small);
      }

-- On a well-formed book with room, an order of a positive `u64` size and a new identifier is added
-- behind its queue, and the book is well formed again.
pub add-enqueue :
    (b : OrderBook) (q : Queues) (o : Order)
    → IsWellFormed b q
    → HasRoom b
    → 0 < o.qty
    → o.qty < u64_mod
    → HashMap.get ℕ_discrete o.id b.order_index ≡ none
    → (x : ℕ) × (b' : OrderBook) × (add o b ≡ ok tt b') × IsWellFormed b' (enqueue x o q)
unfolding add HashMap.contains_key
add-enqueue b q o wf room pos bounded unknown =
    let (x, slab, free_list, al) = alloc_slot_lem b q wf room in
    let (slab', e, l) = linked b q wf o x slab free_list al in
    (
      x,
      added b q wf o x slab free_list al slab',
      rw
          (
            ==_ne o.qty 0 (omega arith),
            unknown,
            insert_order_lem b q wf o x slab free_list al slab' e,
          )
          refl,
      added-IsWellFormed b q wf o x slab free_list al slab' l unknown pos bounded,
    )
