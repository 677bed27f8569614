-- ===== src/Book/Requeue.antt =====
-- One slot of a queue with a new size: in its place, or at the end of the queue.
use l4_book.Prelude.{
  ℕ, ◌-◌, ◌%◌, ◌≤◌, ◌<◌, ◌≡◌, refl, ◌≢◌, ap, sym, subst, ◌∙◌, [], ◌∷◌, ◌++◌, some, arith,
  ℕ_discrete, true, false, u64_mod, add_u64, sub_u64, leb, ==_ne, lt→ltb,
}
use l4_book.Types.{Order, Qty, AmendPriorityPolicy, preserve, lose_priority_on_increase}
use l4_book.Containers.HashMap
use l4_book.Containers.TreeMap
use l4_book.Slab.{Slab, Level, update_node, move_to_tail}
use l4_book.Slab.Laws.{order_of}
use l4_book.Slab.Chain.{Cells}
use l4_book.Slab.Links.{with_ends}
use l4_book.Slab.Cells.{
  resized, sum_qty, resize_slot, resize_slot-append, drop_slot, drop_slot-append,
}
use l4_book.Book.{
  OrderBook, ok, levels_of, with_levels, set_qty, shrink_slot, update_size, resize_level,
  amend_slot, amend_size_with_policy,
}
use l4_book.Book.Invariant.{IsWellFormed, Queues, level_at, with_queue}
use l4_book.Book.Located.{Located}
use l4_book.Book.Resize.{rewritten-IsWellFormed}
use l4_book.Book.Rewrite.{sized_write, in_place, at_tail, total_less, total_more}

-- The queues with a new size for the order in slot `x`, which keeps its place.
abbrev pub requeue : ℕ → Order → Qty → Queues → Queues
requeue x o n q = with_queue o.side o.price (resize_slot x n (q o.side o.price)) q

-- The same, and the order goes behind its queue.
abbrev pub requeue_last : ℕ → Order → Qty → Queues → Queues
requeue_last x o n q =
    with_queue o.side o.price (drop_slot x (q o.side o.price) ++ (x, resized n o) ∷ []) q

-- The book with a level and the slab written.
abbrev relevelled : Order → Level → Slab → OrderBook → OrderBook
relevelled o level slab b =
    with_levels o.side (TreeMap.insert o.price level (levels_of o.side b))
      (record b { slab = slab })

module _ (b : OrderBook) (x : ℕ) (o : Order) (n : Qty) (slab₁ : Slab) (level : Level)
    (write : update_node b.slab x (set_qty n) ≡ some slab₁)
    (at_level : level_at o.side o.price b ≡ some level) where
  shrink_run :
      shrink_slot x o n b
      ≡ some (
        tt,
        relevelled o (record level { total_qty = sub_u64 level.total_qty (o.qty - n) }) slab₁ b,
      )
  unfolding shrink_slot levels_of
  shrink_run = rw (write, at_level) refl

  amend_run :
      (policy : AmendPriorityPolicy) (slab₂ : Slab) (level₂ : Level)
      → resize_level policy slab₁ level x o.qty n ≡ some (slab₂, level₂)
      → amend_slot x o n policy b ≡ some (tt, relevelled o level₂ slab₂ b)
  unfolding amend_slot levels_of
  amend_run policy slab₂ level₂ e = rw (write, at_level, e) refl

pub leb-false : (a n : ℕ) → n < a → leb a n ≡ false
leb-false a n h = ground arith

pub leb-true : (a n : ℕ) → a ≤ n → leb a n ≡ true
leb-true a n h = ground arith

module _ (b : OrderBook) (q : Queues) (wf : IsWellFormed b q) (x : ℕ) (o : Order) (ls rs : Cells)
    (level : Level) (at : Located b q x o ls rs level) (n : Qty) where
  known : HashMap.get ℕ_discrete o.id b.order_index ≡ some x
  known = wf.found x o (ap order_of at.node)

  requeued : resize_slot x n (q o.side o.price) ≡ ls ++ (x, resized n o) ∷ rs
  requeued = ap (resize_slot x n) at.queue ∙ resize_slot-append x n o ls rs at.not_left

  requeued_last :
      drop_slot x (q o.side o.price) ++ (x, resized n o) ∷ [] ≡ (ls ++ rs) ++ (x, resized n o) ∷ []
  requeued_last =
      ap (λ xs. xs ++ (x, resized n o) ∷ [])
        (ap (drop_slot x) at.queue ∙ drop_slot-append x o ls rs at.not_left)

  -- The book with the order resized in its place.
  in_place_book :
      (total : ℕ)
      → total ≡ sum_qty (ls ++ (x, resized n o) ∷ rs) % u64_mod
      → 0 < n
      → n < u64_mod
      → (slab₁ : Slab) × (update_node b.slab x (set_qty n) ≡ some slab₁)
        × IsWellFormed (relevelled o (record level { total_qty = total }) slab₁ b) (requeue x o n q)
  in_place_book total t pos bounded =
      let (slab₁, write, w) = sized_write b q wf x o ls rs level at n in
      (
        slab₁,
        write,
        subst
            (λ xs.
              IsWellFormed (relevelled o (record level { total_qty = total }) slab₁ b)
                (with_queue o.side o.price xs q))
            (sym requeued)
            (rewritten-IsWellFormed b q wf x o n slab₁ (record level { total_qty = total })
              (ls ++ (x, resized n o) ∷ rs)
              (in_place b q wf x o ls rs level at n slab₁ w total t pos bounded)),
      )

  -- The book with the order resized and moved to the tail.
  at_tail_book :
      (total : ℕ)
      → total ≡ sum_qty (ls ++ (x, resized n o) ∷ rs) % u64_mod
      → 0 < n
      → n < u64_mod
      → (slab₁ slab₂ : Slab) × (level₂ : Level) × (update_node b.slab x (set_qty n) ≡ some slab₁)
        × (move_to_tail slab₁ (record level { total_qty = total }) x ≡ some (slab₂, level₂))
        × IsWellFormed (relevelled o level₂ slab₂ b) (requeue_last x o n q)
  at_tail_book total t pos bounded =
      let (slab₁, write, w) = sized_write b q wf x o ls rs level at n in
      let (slab₂, run, r) = at_tail b q wf x o ls rs level at n slab₁ w total t pos bounded in
      let xs = (ls ++ rs) ++ (x, resized n o) ∷ [] in
      let level₂ = with_ends (record level { total_qty = total }) xs in
      (
        slab₁,
        slab₂,
        level₂,
        write,
        run,
        subst (λ ys. IsWellFormed (relevelled o level₂ slab₂ b) (with_queue o.side o.price ys q))
            (sym requeued_last) (rewritten-IsWellFormed b q wf x o n slab₂ level₂ xs r),
      )

  update_run :
      (b' : OrderBook)
      → 0 < n
      → n < o.qty
      → shrink_slot x o n b ≡ some (tt, b')
      → update_size o.id n b ≡ ok tt b'
  unfolding update_size
  update_run b' pos less e =
      rw (known, update_size, at.node, leb-false o.qty n less, ==_ne n 0 (omega arith), e) refl

  pub update_located :
      0 < n
      → n < o.qty
      → (b' : OrderBook) × (update_size o.id n b ≡ ok tt b') × IsWellFormed b' (requeue x o n q)
  update_located pos less =
      let total = sub_u64 level.total_qty (o.qty - n) in
      let (slab₁, write, good) =
        in_place_book total (total_less b q wf x o ls rs level at n less) pos
          (omega (arith, (wf.sized x o (ap order_of at.node)).1)) in
      (_, update_run _ pos less (shrink_run b x o n slab₁ level write at.at_level), good)

  amend_size_run :
      (policy : AmendPriorityPolicy) (b' : OrderBook)
      → 0 < n
      → o.qty ≢ n
      → amend_slot x o n policy b ≡ some (tt, b')
      → amend_size_with_policy o.id n policy b ≡ ok tt b'
  unfolding amend_size_with_policy
  amend_size_run policy b' pos ne e =
      rw (amend_size_with_policy, ==_ne n 0 (omega arith), known, at.node, ==_ne o.qty n ne, e) refl

  resize_less :
      (policy : AmendPriorityPolicy) (slab₁ : Slab)
      → n < o.qty
      → resize_level policy slab₁ level x o.qty n
        ≡ some (slab₁, record level { total_qty = sub_u64 level.total_qty (o.qty - n) })
  unfolding resize_level
  resize_less policy slab₁ less = ground arith

  resize_more :
      (slab₁ : Slab)
      → o.qty < n
      → resize_level preserve slab₁ level x o.qty n
        ≡ some (slab₁, record level { total_qty = add_u64 level.total_qty (n - o.qty) })
  unfolding resize_level
  resize_more slab₁ more = ground arith

  resize_last :
      (slab₁ slab₂ : Slab) (level₂ : Level)
      → o.qty < n
      → move_to_tail slab₁ (record level { total_qty = add_u64 level.total_qty (n - o.qty) }) x
        ≡ some (slab₂, level₂)
      → resize_level lose_priority_on_increase slab₁ level x o.qty n ≡ some (slab₂, level₂)
  unfolding resize_level
  resize_last slab₁ slab₂ level₂ more e = rw (lt→ltb o.qty n more) e

  pub amend_less :
      (policy : AmendPriorityPolicy)
      → 0 < n
      → n < o.qty
      → (b' : OrderBook) × (amend_size_with_policy o.id n policy b ≡ ok tt b')
        × IsWellFormed b' (requeue x o n q)
  amend_less policy pos less =
      let total = sub_u64 level.total_qty (o.qty - n) in
      let (slab₁, write, good) =
        in_place_book total (total_less b q wf x o ls rs level at n less) pos
          (omega (arith, (wf.sized x o (ap order_of at.node)).1)) in
      (
        _,
        amend_size_run policy _ pos (omega arith) (
            amend_run b x o n slab₁ level write at.at_level policy slab₁ _
              (resize_less policy slab₁ less)),
        good,
      )

  pub amend_more :
      0 < n
      → n < u64_mod
      → o.qty < n
      → (b' : OrderBook) × (amend_size_with_policy o.id n preserve b ≡ ok tt b')
        × IsWellFormed b' (requeue x o n q)
  amend_more pos bounded more =
      let total = add_u64 level.total_qty (n - o.qty) in
      let (slab₁, write, good) =
        in_place_book total (total_more b q wf x o ls rs level at n more) pos bounded in
      (
        _,
        amend_size_run preserve _ pos (omega arith) (
            amend_run b x o n slab₁ level write at.at_level preserve slab₁ _
              (resize_more slab₁ more)),
        good,
      )

  pub amend_last :
      0 < n
      → n < u64_mod
      → o.qty < n
      → (b' : OrderBook) × (amend_size_with_policy o.id n lose_priority_on_increase b ≡ ok tt b')
        × IsWellFormed b' (requeue_last x o n q)
  amend_last pos bounded more =
      let total = add_u64 level.total_qty (n - o.qty) in
      let (slab₁, slab₂, level₂, write, run, good) =
        at_tail_book total (total_more b q wf x o ls rs level at n more) pos bounded in
      (
        _,
        amend_size_run lose_priority_on_increase _ pos (omega arith) (
            amend_run b x o n slab₁ level write at.at_level lose_priority_on_increase slab₂ level₂
              (resize_last slab₁ slab₂ level₂ more run)),
        good,
      )
