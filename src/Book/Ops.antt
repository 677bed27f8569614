-- ===== src/Book/Ops.antt =====
-- Every operation keeps the invariant or is refused with the book unchanged; none panics while
-- there is room.
use l4_book.Prelude.{
  ◌<◌, ◌≡◌, refl, ap, subst, inl, inr, [], none, arith, ℕ_discrete, true, u64_mod, Option-cases,
  ==_ne, lt-or-ge, ◌==◌, is_some, if◌then◌else◌, ◌⊎◌,
}
use l4_book.Types.{
  Order, OrderId, Qty, Side, bid, ask, Price, BookOp, BookError, unknown_order_id,
  duplicate_order_id, zero_qty, AmendPriorityPolicy, preserve,
}
use l4_book.Containers.HashMap
use l4_book.Containers.TreeMap
use l4_book.Slab.{node_at}
use l4_book.Book.{
  OrderBook, new_book, Run, ok, err, add, remove, update_size, amend_size, amend_size_with_policy,
  levels_of, discard, or_empty,
}
use l4_book.Book.Invariant.{IsWellFormed, Queues, level_at}
use l4_book.Book.Alloc.{HasRoom}
use l4_book.Book.Add.{add-enqueue}
use l4_book.Book.Remove.{remove-dequeue}
use l4_book.Book.Amend.{amend_size-amend_queues, update_size-update_queues, update_size_rejects}
use l4_book.Book.Replay.{apply_op}

-- A success leaves a well-formed book, an error the book as it was, and there is no panic.
pub data Sound {A : Type 0} (b : OrderBook) : Run A → Type 0 where
  kept : {a : A} {b' : OrderBook} (q : Queues) → IsWellFormed b' q → Sound b (ok a b')
  refused : {e : BookError} {b' : OrderBook} → b' ≡ b → Sound b (err e b')

-- The sizes in an operation are `u64` values.
abbrev pub IsInRange : BookOp → Type 0
IsInRange (BookOp.add o) = o.qty < u64_mod
IsInRange (BookOp.remove id) = Unit {0}
IsInRange (BookOp.update_size id n) = n < u64_mod
IsInRange (BookOp.amend_size id n) = n < u64_mod

-- The operations that name an order which is not in the index are refused with its identifier,
-- and the book stays as it is.
pub unknown_id_rejected :
    (id : OrderId) (n : Qty) (policy : AmendPriorityPolicy) (b : OrderBook)
    → HashMap.get ℕ_discrete id b.order_index ≡ none
    → (remove id b ≡ err (unknown_order_id id) b)
      × (update_size id n b ≡ err (unknown_order_id id) b)
      × (amend_size_with_policy id n policy b ≡ err (unknown_order_id id) b)
unfolding remove update_size amend_size_with_policy
unknown_id_rejected id n policy b e = (
  rw (remove, e) refl,
  rw (update_size, e) refl,
  elim (ℕ_discrete n 0) [
    | yes z ↦ rw (amend_size_with_policy, z, remove, e) refl
    | no nz ↦ rw (amend_size_with_policy, ==_ne n 0 nz, e) refl
  ],
)

-- An order of size zero, or with an identifier that rests already, is refused by `add` with the
-- error for the first of these, and the book stays as it is.
pub add_rejects :
    (o : Order) (b : OrderBook)
    → (o.qty ≡ 0) ⊎ (HashMap.contains_key ℕ_discrete o.id b.order_index ≡ true)
    → add o b ≡ err (if o.qty == 0 then zero_qty else duplicate_order_id o.id) b
unfolding add
add_rejects o b (inl z) = rw z refl
add_rejects o b (inr known) = elim (ℕ_discrete o.qty 0) [
  | yes z ↦ rw z refl
  | no nz ↦ rw (==_ne o.qty 0 nz, known) refl
]

module _ (b : OrderBook) (q : Queues) (wf : IsWellFormed b q) where
  pub add-Sound : (o : Order) → HasRoom b → o.qty < u64_mod → Sound b (add o b)
  unfolding HashMap.contains_key
  add-Sound o room bounded = elim (ℕ_discrete o.qty 0) [
    | yes z ↦ rw (add_rejects o b (inl z)) (refused refl)
    | no nz ↦ elim (Option-cases (HashMap.get ℕ_discrete o.id b.order_index)) [
      | inl e ↦
          let (x, b', run, good) = add-enqueue b q o wf room (omega arith) bounded e in
          rw run (kept _ good)
      | inr (x, e) ↦ rw (add_rejects o b (inr (ap is_some e))) (refused refl)
    ]
  ]

  pub remove-Sound : (id : OrderId) → Sound b (remove id b)
  remove-Sound id = elim (Option-cases (HashMap.get ℕ_discrete id b.order_index)) [
    | inl e ↦ rw ((unknown_id_rejected id 0 preserve b e).0) (refused refl)
    | inr (x, e) ↦
        let (o, rested, is) = wf.indexed id x e in
        let (b', run, good) = remove-dequeue b q x o wf rested in
        subst (λ k. Sound b (remove k b)) is (rw run (kept _ good))
  ]

  pub update_size-Sound : (id : OrderId) (n : Qty) → Sound b (update_size id n b)
  update_size-Sound id n = elim (Option-cases (HashMap.get ℕ_discrete id b.order_index)) [
    | inl e ↦ rw ((unknown_id_rejected id n preserve b e).1) (refused refl)
    | inr (x, e) ↦
        let (o, rested, is) = wf.indexed id x e in
        subst (λ k. Sound b (update_size k n b)) is
          (elim (lt-or-ge n o.qty) [
            | inl less ↦
                let (b', run, good) = update_size-update_queues b q x o n wf rested less in
                rw run (kept _ good)
            | inr more ↦ rw (update_size_rejects b q x o n wf rested more) (refused refl)
          ])
  ]

  pub amend_size-Sound :
      (id : OrderId) (n : Qty) (policy : AmendPriorityPolicy)
      → n < u64_mod
      → Sound b (amend_size_with_policy id n policy b)
  amend_size-Sound id n policy bounded =
      elim (Option-cases (HashMap.get ℕ_discrete id b.order_index)) [
        | inl e ↦ rw ((unknown_id_rejected id n policy b e).2) (refused refl)
        | inr (x, e) ↦
            let (o, rested, is) = wf.indexed id x e in
            let (b', run, good) = amend_size-amend_queues b q x o n policy wf rested bounded in
            subst (λ k. Sound b (amend_size_with_policy k n policy b)) is (rw run (kept _ good))
      ]

  discard-Sound : {A : Type 0} {r : Run A} → Sound b r → Sound b (discard r)
  discard-Sound (kept q' good) = kept q' good
  discard-Sound (refused e) = refused e

-- On a well-formed book with room every operation whose sizes are `u64` values either succeeds and
-- leaves a well-formed book, or is refused and leaves the book as it was; it never panics.
pub apply_op-Sound :
    (b : OrderBook) (q : Queues) (op : BookOp)
    → IsWellFormed b q
    → HasRoom b
    → IsInRange op
    → Sound b (apply_op op b)
unfolding apply_op amend_size
apply_op-Sound b q (BookOp.add o) wf room r = add-Sound b q wf o room r
apply_op-Sound b q (BookOp.remove id) wf room r = discard-Sound b q wf (remove-Sound b q wf id)
apply_op-Sound b q (BookOp.update_size id n) wf room r = update_size-Sound b q wf id n
apply_op-Sound b q (BookOp.amend_size id n) wf room r = amend_size-Sound b q wf id n preserve r

no_levels : (s : Side) (p : Price) → level_at s p new_book ≡ none
unfolding new_book levels_of TreeMap.get
no_levels bid p = refl
no_levels ask p = refl

-- The empty book is well formed, with empty queues.
pub new_book-IsWellFormed : IsWellFormed new_book (λ s p. [])
unfolding new_book levels_of HashMap.has HashMap.get node_at or_empty
new_book-IsWellFormed = record {
  levels = λ s p. rw (no_levels s p) refl;
  placed = λ i s p. refl;
  indexed = λ id i e. cc;
  found = λ i o e. cc;
  free = λ i m. cc;
  no_leak = λ i lt e. elim lt [ ];
  keyed = tt;
  no_repeat = tt;
  owned = λ w id. refl;
  sized = λ i o e. cc;
  sorted = no_levels-IsSorted;
  small = omega arith;
}
  where
    no_levels-IsSorted : (s : Side) → TreeMap.IsSorted (levels_of s new_book)
    no_levels-IsSorted bid = tt
    no_levels-IsSorted ask = tt
