-- ===== src/Book/Remove.antt =====
-- `remove` takes an order out of its queue, and keeps the invariant.
use l4_book.Prelude.{
  ℕ, ◌%◌, ◌<◌, ◌≡◌, refl, ◌≢◌, inl, inr, ap, ap₂, sym, subst, ◌∙◌, [], ◌∷◌, ◌++◌, Option, none,
  some, arith, length, ℕ_discrete, ite, true, false, length-append, set, length-set, if◌then◌else◌,
  sub_u64, u64_mod, ◌==◌, ==_ne, Bool-cases, Option-cases,
}
use l4_book.Types.{Order, OrderId, WalletId, Price, Side}
use l4_book.Containers.HashMap
use l4_book.Containers.TreeMap
use l4_book.Slab.{Slab, Level, node_at, unlink}
use l4_book.Slab.Laws.{eq-none_of_order, order_of, assign, node_at-set, lt-length_of_node}
use l4_book.Slab.Chain.{Cells, has, head_or, last_or, has-append, Chain-frame, Distinct-join}
use l4_book.Slab.Links.{with_ends, Linked}
use l4_book.Slab.Links.Unlink.{unlink_lem}
use l4_book.Slab.Cells.{sum_qty, sum_qty-append, drop_slot, drop_slot-append}
use l4_book.Book.{OrderBook, Levels, ok, levels_of, with_levels, remove_slot, remove, wallet_remove}
use l4_book.Book.Invariant.{
  IsWellFormed, Queues, Fits, IsLevel, here, level_at, order_at, order_by_id, owned_by, rests,
  with_queue, level_at-insert, level_at-remove, with_levels-IsSorted, IsLevel-with_queue, NoRepeat,
  queues_apart, length-queue, here-eq,
}
use l4_book.Book.Wallets.{owns, owns-wallet_remove}
use l4_book.Book.Located.{Located, locate_slot}

-- The queues without the slot `x` of `o`.
abbrev pub dequeue : ℕ → Order → Queues → Queues
dequeue x o q = with_queue o.side o.price (drop_slot x (q o.side o.price)) q

-- The counters of the level without the order.
abbrev discounted : Order → Level → Level
discounted o level = record level {
  order_count = sub_u64 level.order_count 1;
  total_qty = sub_u64 level.total_qty o.qty;
}

pub append-ne-cons : (xs : Cells) (c : ℕ × Order) (ys : Cells) → xs ++ c ∷ ys ≢ []
append-ne-cons [] c ys e = cc
append-ne-cons (x ∷ xs) c ys e = cc

module _ (b : OrderBook) (q : Queues) (wf : IsWellFormed b q) (x : ℕ) (o : Order) (ls rs : Cells)
    (level : Level) (at : Located b q x o ls rs level) where
  abbrev emptied : Slab
  emptied = set b.slab x none

  abbrev shortened : Level
  shortened = with_ends (discounted o level) (ls ++ rs)

  abbrev new_levels : Levels
  new_levels =
      if shortened.order_count == 0
      then TreeMap.remove o.price (levels_of o.side b)
      else TreeMap.insert o.price shortened (levels_of o.side b)

  abbrev removed : Slab → OrderBook
  removed slab' = with_levels o.side new_levels (record b {
    slab = slab';
    free_list = x ∷ b.free_list;
    order_index = HashMap.remove ℕ_discrete o.id b.order_index;
    wallet_index = wallet_remove o.wallet o.id b.wallet_index;
  })

  emptied-eq : (j : ℕ) → node_at emptied j ≡ assign x none (node_at b.slab) j
  emptied-eq j = node_at-set b.slab x none j (lt-length_of_node b.slab x at.node)

  emptied-frame : (j : ℕ) → x ≢ j → node_at emptied j ≡ node_at b.slab j
  unfolding assign
  emptied-frame j ne = ground (arith, emptied-eq j)

  linked :
      (slab' : Slab) × (unlink emptied (discounted o level) (last_or none ls) (head_or rs none)
        ≡ some (slab', shortened))
      × Linked emptied slab' (ls ++ rs)
  linked =
      unlink_lem emptied (discounted o level) ls rs x o
        (record { first = at.fits.ends.first; last = at.fits.ends.last })
        (Chain-frame (node_at b.slab) (node_at emptied) none ls (some x)
          (λ i m. emptied-frame i (λ e. cc (ap (λ k. has k ls) e, at.not_left, m))) at.before)
        (Chain-frame (node_at b.slab) (node_at emptied) (some x) rs none
          (λ i m. emptied-frame i (λ e. cc (ap (λ k. has k rs) e, at.not_right, m))) at.behind)
        at.left at.right at.apart

  remove_slot_lem :
      (slab' : Slab)
      → unlink emptied (discounted o level) (last_or none ls) (head_or rs none)
        ≡ some (slab', shortened)
      → remove_slot o.id x b ≡ some (o, removed slab')
  unfolding remove_slot
  remove_slot_lem slab' e = rw (at.node, at.at_level, e) refl

  module _ (slab' : Slab) (l : Linked emptied slab' (ls ++ rs)) where
    orders_after : (i : ℕ) → order_of (node_at slab' i) ≡ ite (ℕ_discrete x i) none (order_at b i)
    unfolding assign
    orders_after i = ground (arith, l.orders i, emptied-eq i)

    vacated : node_at slab' x ≡ none
    unfolding assign
    vacated =
        l.frame x (ground (arith, has-append x ls rs, at.not_left, at.not_right))
        ∙ (ground (arith, emptied-eq x))

    kept_slot : (i : ℕ) → has i (q o.side o.price) ≡ false → node_at slab' i ≡ node_at b.slab i
    kept_slot i out =
        let out' : has i (ls ++ (x, o) ∷ rs) ≡ false = sym (ap (has i) at.queue) ∙ out in
        l.frame i (ground (arith, has-append i ls ((x, o) ∷ rs), has-append i ls rs))
        ∙ emptied-frame i (λ e. ground (arith, has-append i ls ((x, o) ∷ rs)))

    kept :
        (s : Side) (p : Price)
        → here o.side o.price s p ≡ false
        → (i : ℕ) → has i (q s p) ≡ true
        → node_at slab' i ≡ node_at b.slab i
    kept s p other i m = kept_slot i (queues_apart b q wf o.side s o.price p i other m)

    rested : order_at b x ≡ some o
    rested = ap order_of at.node

    counts : shortened.order_count ≡ length (ls ++ rs)
    unfolding sub_u64
    counts = omega (
      arith,
      at.fits.count,
      length-append ls ((x, o) ∷ rs),
      length-append ls rs,
      ap length at.queue,
      length-queue b q wf o.side o.price,
      wf.small,
    )

    totals : shortened.total_qty ≡ sum_qty (ls ++ rs) % u64_mod
    unfolding sub_u64
    totals = omega (
      arith,
      at.fits.total,
      sum_qty-append ls ((x, o) ∷ rs),
      sum_qty-append ls rs,
      (wf.sized x o rested).1,
    )

    fits : ls ++ rs ≢ [] → Fits (node_at slab') shortened (ls ++ rs)
    fits occupied = record {
      occupied = occupied;
      count = counts;
      total = totals;
      ends = record { first = refl; last = refl };
      chain = l.chain;
      distinct = Distinct-join ls rs at.left at.right at.apart;
    }

    -- The level that is left, if one is.
    abbrev rest_level : Option Level
    rest_level = if shortened.order_count == 0 then none else some shortened

    rest-IsLevel : IsLevel (node_at slab') rest_level (ls ++ rs)
    rest-IsLevel = go (ls ++ rs) refl
      where
        go : (xs : Cells) → ls ++ rs ≡ xs → IsLevel (node_at slab') rest_level (ls ++ rs)
        go [] e = rw (counts, e) refl
        go (c ∷ cs) e =
            subst (λ t. IsLevel (node_at slab') (if t then none else some shortened) (ls ++ rs))
              (sym
                (==_ne shortened.order_count 0 (λ z. absurd (omega (arith, counts, ap length e)))))
              (fits (λ z. cc (e, z)))

    level_at-rest :
        (s : Side) (p : Price)
        → level_at s p (removed slab')
          ≡ (if here o.side o.price s p then rest_level else level_at s p b)
    level_at-rest s p = elim (Bool-cases (shortened.order_count == 0)) [
      | inl e ↦ rw e (level_at-remove b _ refl refl o.side s o.price p)
      | inr e ↦ rw e (level_at-insert b _ refl refl o.side s o.price p shortened)
    ]

    levels_after :
        (s : Side) (p : Price)
        → IsLevel
            (node_at slab')
            (level_at s p (removed slab'))
            (with_queue o.side o.price (ls ++ rs) q s p)
    levels_after s p =
        subst (λ v. IsLevel (node_at slab') v (with_queue o.side o.price (ls ++ rs) q s p))
          (sym (level_at-rest s p))
          (IsLevel-with_queue (node_at b.slab) (node_at slab') q o.side o.price rest_level
            (ls ++ rs) s p (level_at s p b) (wf.levels s p) rest-IsLevel (kept s p))

    placed_after :
        (i : ℕ) (s : Side) (p : Price)
        → has i (with_queue o.side o.price (ls ++ rs) q s p)
          ≡ rests s p (order_of (node_at slab' i))
    placed_after i s p = elim (Bool-cases (here o.side o.price s p)) [
      | inl e ↦
          let (es, ep) = here-eq o.side s o.price p e in
          let same = ap₂ (λ t r. has i (q t r)) es ep in
          ground (
            arith,
            orders_after i,
            has-append i ls rs,
            has-append i ls ((x, o) ∷ rs),
            ap (has i) at.queue,
            wf.placed i s p,
            same,
            at.not_left,
            at.not_right,
          )
      | inr e ↦ ground (arith, orders_after i, wf.placed i s p, rested)
    ]

    indexed_after :
        (id : OrderId) (i : ℕ)
        → HashMap.get ℕ_discrete id (HashMap.remove ℕ_discrete o.id b.order_index) ≡ some i
        → (o' : Order) × (order_of (node_at slab' i) ≡ some o') × (o'.id ≡ id)
    indexed_after id i e =
        let old : HashMap.get ℕ_discrete id b.order_index ≡ some i =
          ground (arith, HashMap.get-remove ℕ_discrete o.id id b.order_index) in
        let (o', at_i, is) = wf.indexed id i old in
        (
          o',
          ground
              (arith, orders_after i, rested, HashMap.get-remove ℕ_discrete o.id id b.order_index),
          is,
        )

    found_after :
        (i : ℕ) (o' : Order)
        → order_of (node_at slab' i) ≡ some o'
        → HashMap.get ℕ_discrete o'.id (HashMap.remove ℕ_discrete o.id b.order_index) ≡ some i
    found_after i o' e = ground (
      arith,
      orders_after i,
      HashMap.get-remove ℕ_discrete o.id o'.id b.order_index,
      wf.found i o',
      wf.found x o,
      rested,
    )

    by_id_after :
        (id : OrderId)
        → order_by_id id (removed slab') ≡ ite (ℕ_discrete o.id id) none (order_by_id id b)
    unfolding with_levels
    by_id_after id = elim (ℕ_discrete o.id id) [
      | yes same ↦ rw (HashMap.get-remove ℕ_discrete o.id id b.order_index) (ground (arith, same))
      | no other ↦ elim (Option-cases (HashMap.get ℕ_discrete id b.order_index)) [
        | inl e ↦
            rw (HashMap.get-remove ℕ_discrete o.id id b.order_index, e) (ground (arith, other))
        | inr (i, e) ↦
            rw (HashMap.get-remove ℕ_discrete o.id id b.order_index, e)
              (ground (arith, other, orders_after i, wf.indexed id i e, rested))
      ]
    ]

    owned_after :
        (w : WalletId) (id : OrderId)
        → owns w id (wallet_remove o.wallet o.id b.wallet_index)
          ≡ owned_by w (order_by_id id (removed slab'))
    owned_after w id = ground (
      arith,
      by_id_after id,
      owns-wallet_remove o.wallet w o.id id b.wallet_index,
      wf.owned w id,
      wf.found x o rested,
      rested,
    )

    free_after :
        (i : ℕ)
        → HashMap.has ℕ_discrete i (x ∷ b.free_list) ≡ true
        → (node_at slab' i ≡ none) × (i < length slab')
    unfolding HashMap.has
    free_after i m =
        let inside = lt-length_of_node b.slab x at.node in
        let size = length-set b.slab x none in
        elim (ℕ_discrete x i) [
          | yes e ↦ (ground (arith, vacated, e), ground (arith, l.size, size, inside, e))
          | no ne ↦
              let (empty, in_slab) = wf.free i (ground (arith, ne)) in
              (
                kept_slot i (
                      wf.placed i o.side o.price
                      ∙ ap (λ v. rests o.side o.price (order_of v)) empty)
                    ∙ empty,
                omega (arith, l.size, size, in_slab),
              )
        ]

    no_leak_after :
        (i : ℕ)
        → i < length slab'
        → node_at slab' i ≡ none
        → HashMap.has ℕ_discrete i (x ∷ b.free_list) ≡ true
    unfolding HashMap.has
    no_leak_after i inside empty = elim (ℕ_discrete x i) [
      | yes e ↦ ground arith
      | no ne ↦
          let no_order : order_at b i ≡ none = ground (arith, orders_after i, ap order_of empty) in
          let leak =
            wf.no_leak i (omega (arith, l.size, length-set b.slab x none, inside))
              (eq-none_of_order (node_at b.slab i) no_order) in
          ground (arith, leak)
    ]

    NoRepeat-after : NoRepeat (x ∷ b.free_list)
    NoRepeat-after = (
      elim (Bool-cases (HashMap.has ℕ_discrete x b.free_list)) [
        | inl e ↦ absurd (cc ((wf.free x e).0, at.node))
        | inr e ↦ e
      ],
      wf.no_repeat,
    )

    new_levels-IsSorted : TreeMap.IsSorted new_levels
    new_levels-IsSorted = elim (Bool-cases (shortened.order_count == 0)) [
      | inl e ↦ rw e (TreeMap.remove-IsSorted o.price (levels_of o.side b) (wf.sorted o.side))
      | inr e ↦
          rw e (TreeMap.insert-IsSorted o.price shortened (levels_of o.side b) (wf.sorted o.side))
    ]

    removed-IsWellFormed : IsWellFormed (removed slab') (with_queue o.side o.price (ls ++ rs) q)
    unfolding with_levels
    removed-IsWellFormed = record {
      levels = levels_after;
      placed = placed_after;
      indexed = indexed_after;
      found = found_after;
      free = free_after;
      no_leak = no_leak_after;
      keyed = HashMap.remove-IsKeyed ℕ_discrete o.id b.order_index wf.keyed;
      no_repeat = NoRepeat-after;
      owned = owned_after;
      sized = λ i o' e. ground (arith, orders_after i, wf.sized i o');
      sorted = λ s.
          with_levels-IsSorted b _ refl refl o.side s new_levels new_levels-IsSorted (wf.sorted s);
      small = omega (arith, l.size, length-set b.slab x none, wf.small);
    }

remove-Located :
    (b : OrderBook) (q : Queues) (x : ℕ) (o : Order) (ls rs : Cells) (level : Level)
    → IsWellFormed b q
    → Located b q x o ls rs level
    → HashMap.get ℕ_discrete o.id b.order_index ≡ some x
    → (b' : OrderBook) × (remove o.id b ≡ ok o b') × IsWellFormed b' (dequeue x o q)
unfolding remove
remove-Located b q x o ls rs level wf at e =
    let (slab', run, l) = linked b q wf x o ls rs level at in
    let left = ap (drop_slot x) at.queue ∙ drop_slot-append x o ls rs at.not_left in
    (
      removed b q wf x o ls rs level at slab',
      rw (e, remove, remove_slot_lem b q wf x o ls rs level at slab' run) refl,
      subst
          (λ xs.
            IsWellFormed (removed b q wf x o ls rs level at slab') (with_queue o.side o.price xs q))
          (sym left) (removed-IsWellFormed b q wf x o ls rs level at slab' l),
    )

-- On a well-formed book a resting order is removed by its identifier: it is returned and leaves
-- its queue, the others keep their order, and the book is well formed again.
pub remove-dequeue :
    (b : OrderBook) (q : Queues) (x : ℕ) (o : Order)
    → IsWellFormed b q
    → order_at b x ≡ some o
    → (b' : OrderBook) × (remove o.id b ≡ ok o b') × IsWellFormed b' (dequeue x o q)
remove-dequeue b q x o wf rested =
    let (ls, rs, level, at) = locate_slot b q wf x o rested in
    remove-Located b q x o ls rs level wf at (wf.found x o rested)
