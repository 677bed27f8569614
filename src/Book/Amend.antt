-- ===== src/Book/Amend.antt =====
-- `update_size` and `amend_size_with_policy`: what they do to the queues, and their errors.
use l4_book.Prelude.{
  ℕ, ◌≤◌, ◌<◌, ◌≡◌, refl, ◌≢◌, inl, inr, some, arith, ℕ_discrete, Bool, false, if◌then◌else◌,
  u64_mod, ltb, ◌==◌, ==_ne, lt→ltb, lt-or-ge, ==_refl,
}
use l4_book.Types.{
  Order, OrderId, Qty, AmendPriorityPolicy, preserve, lose_priority_on_increase,
  non_decreasing_size,
}
use l4_book.Slab.{Level}
use l4_book.Slab.Chain.{Cells}
use l4_book.Book.{OrderBook, ok, err, update_size, amend_size_with_policy}
use l4_book.Book.Invariant.{IsWellFormed, Queues, order_at}
use l4_book.Book.Located.{Located, locate_slot}
use l4_book.Book.Remove.{dequeue, remove-dequeue}
use l4_book.Book.Rewrite.{rested}
use l4_book.Book.Requeue.{
  requeue, requeue_last, leb-false, leb-true, update_located, amend_less, amend_more, amend_last,
}

-- An increase goes last under the policy that says so.
abbrev pub goes_last : AmendPriorityPolicy → Qty → Qty → Bool
goes_last preserve old new = false
goes_last lose_priority_on_increase old new = ltb old new

goes_last_less :
    (policy : AmendPriorityPolicy) (old new : Qty) → new < old → goes_last policy old new ≡ false
goes_last_less preserve old new h = refl
goes_last_less lose_priority_on_increase old new h = ground arith

-- The queues after an order in slot `x` is amended to the size `n`.
abbrev pub amend_queues : ℕ → Order → Qty → AmendPriorityPolicy → Queues → Queues
amend_queues x o n policy q =
    if n == 0
    then dequeue x o q
    else if o.qty == n
    then q
    else if goes_last policy o.qty n
    then requeue_last x o n q
    else requeue x o n q

abbrev Amends : OrderBook → Queues → OrderId → Qty → AmendPriorityPolicy → Type 0
Amends b q id n policy =
    (b' : OrderBook) × (amend_size_with_policy id n policy b ≡ ok tt b') × IsWellFormed b' q

module _ (b : OrderBook) (q : Queues) (wf : IsWellFormed b q) (x : ℕ) (o : Order)
    (rested : order_at b x ≡ some o) where
  amend_zero : (policy : AmendPriorityPolicy) → Amends b (dequeue x o q) o.id 0 policy
  unfolding amend_size_with_policy
  amend_zero policy =
      let (b', e, good) = remove-dequeue b q x o wf rested in
      (b', rw (amend_size_with_policy, e) refl, good)

  amend_same : (policy : AmendPriorityPolicy) → Amends b q o.id o.qty policy
  unfolding amend_size_with_policy
  amend_same policy =
      let (ls, rs, level, at) = locate_slot b q wf x o rested in
      (
        b,
        rw
            (
              amend_size_with_policy,
              ==_ne o.qty 0 (omega (arith, (wf.sized x o rested).0)),
              wf.found x o rested,
              at.node,
              ==_refl o.qty,
            )
            refl,
        wf,
      )

  amend_other :
      (n : Qty) (policy : AmendPriorityPolicy)
      → 0 < n
      → n < u64_mod
      → o.qty ≢ n
      → Amends b
          (if goes_last policy o.qty n then requeue_last x o n q else requeue x o n q)
          o.id
          n
          policy
  amend_other n policy pos bounded ne =
      let (ls, rs, level, at) = locate_slot b q wf x o rested in
      elim (lt-or-ge n o.qty) [
        | inl less ↦
            rw (goes_last_less policy o.qty n less)
              (amend_less b q wf x o ls rs level at n policy pos less)
        | inr more ↦ by_policy policy at (omega arith)
      ]
    where
      by_policy :
          {ls rs : Cells} {level : Level} (policy : AmendPriorityPolicy)
          → Located b q x o ls rs level
          → o.qty < n
          → Amends b
              (if goes_last policy o.qty n then requeue_last x o n q else requeue x o n q)
              o.id
              n
              policy
      by_policy {ls} {rs} {level} preserve at more =
          amend_more b q wf x o ls rs level at n pos bounded more
      by_policy {ls} {rs} {level} lose_priority_on_increase at more =
          rw (lt→ltb o.qty n more) (amend_last b q wf x o ls rs level at n pos bounded more)

-- On a well-formed book an amendment of a resting order to a `u64` size succeeds: to zero it
-- removes the order, to the same size it does nothing, and to another size the order keeps its
-- place, or goes last on an increase under `lose_priority_on_increase`. The other queues stay, and
-- the book is well formed again.
pub amend_size-amend_queues :
    (b : OrderBook) (q : Queues) (x : ℕ) (o : Order) (n : Qty) (policy : AmendPriorityPolicy)
    → IsWellFormed b q
    → order_at b x ≡ some o
    → n < u64_mod
    → (b' : OrderBook) × (amend_size_with_policy o.id n policy b ≡ ok tt b')
      × IsWellFormed b' (amend_queues x o n policy q)
amend_size-amend_queues b q x o n policy wf rested bounded = elim (ℕ_discrete n 0) [
  | yes z ↦ rw z (amend_zero b q wf x o rested policy)
  | no nz ↦ elim (ℕ_discrete o.qty n) [
    | yes same ↦ rw (← same) (
        rw (==_ne o.qty 0 (omega (arith, (wf.sized x o rested).0)), ==_refl o.qty)
          (amend_same b q wf x o rested policy))
    | no other ↦
        rw (==_ne n 0 nz, ==_ne o.qty n other)
          (amend_other b q wf x o rested n policy (omega arith) bounded other)
  ]
]

-- The queues after a partial fill of the order in slot `x` that leaves `n`.
abbrev pub update_queues : ℕ → Order → Qty → Queues → Queues
update_queues x o n q = if n == 0 then dequeue x o q else requeue x o n q

-- On a well-formed book a partial fill of a resting order to a smaller size succeeds: the order
-- keeps its place with the new size, and is removed if that is zero. The other queues stay, and
-- the book is well formed again.
pub update_size-update_queues :
    (b : OrderBook) (q : Queues) (x : ℕ) (o : Order) (n : Qty)
    → IsWellFormed b q
    → order_at b x ≡ some o
    → n < o.qty
    → (b' : OrderBook) × (update_size o.id n b ≡ ok tt b') × IsWellFormed b' (update_queues x o n q)
unfolding update_size
update_size-update_queues b q x o n wf rested less =
    let (ls, rs, level, at) = locate_slot b q wf x o rested in
    elim (ℕ_discrete n 0) [
      | yes z ↦
          let (b', e, good) = remove-dequeue b q x o wf rested in
          rw z (
            b',
            rw (wf.found x o rested, update_size, at.node, leb-false o.qty 0 (omega arith), e) refl,
            good,
          )
      | no nz ↦ rw (==_ne n 0 nz) (update_located b q wf x o ls rs level at n (omega arith) less)
    ]

-- On a well-formed book `update_size` of a resting order to a size that is not smaller is refused
-- with both sizes, and the book stays as it is.
pub update_size_rejects :
    (b : OrderBook) (q : Queues) (x : ℕ) (o : Order) (n : Qty)
    → IsWellFormed b q
    → order_at b x ≡ some o
    → o.qty ≤ n
    → update_size o.id n b ≡ err (non_decreasing_size o.qty n) b
unfolding update_size
update_size_rejects b q x o n wf rested more =
    let (ls, rs, level, at) = locate_slot b q wf x o rested in
    rw (wf.found x o rested, update_size, at.node, leb-true o.qty n more) refl
