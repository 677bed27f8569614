-- ===== src/Book/Growth.antt =====
-- How many slots an operation may add, and what room is left: an addition takes one slot at most,
-- the other operations none.
pub mod Frames
pub mod Policy
pub mod Room
pub mod Snapshot
pub mod Unknown
use l4_book.Prelude.{
  ℕ, suc, ◌≤◌, ◌≡◌, refl, ap, subst, List, [], ◌∷◌, ◌++◌, Option, none, some, ◌>>=◌, >>=-eq-some,
  some-inj, arith, length, set, length-set, length-append, Option-cases, Bool-cases, inl, inr,
  ℕ_discrete, ◌==◌, ltb, leb,
}
use l4_book.Types.{
  Order, OrderId, Qty, BookOp, AmendPriorityPolicy, preserve, lose_priority_on_increase,
}
use l4_book.Containers.HashMap
use l4_book.Containers.TreeMap
use l4_book.Slab.{
  Slab, Level, node_at, write_slot, update_node, link_tail, unlink, new_node, OrderNode,
}
use l4_book.Slab.Length.{
  HasLength, length-update_node, length-write_slot, link_tail-HasLength, unlink-HasLength,
  move_to_tail-HasLength,
}
use l4_book.Book.{
  OrderBook, Run, ok, err, panic, run_or_panic, discard, max_slots, alloc_slot, insert_order, add,
  remove_slot, remove, set_qty, shrink_slot, update_size_at, update_size, resize_level, amend_slot,
  amend_size_at, amend_size_with_policy, amend_size, levels_of, with_levels,
}
use l4_book.Book.Replay.{apply_op}

-- The book of the result has at most `n` slots.
abbrev pub Within : {A : Type 0} → ℕ → Run A → Type 0
Within n (ok a b) = length b.slab ≤ n
Within n (err e b) = length b.slab ≤ n
Within n panic = Unit {0}

abbrev Stays : {A : Type 0} → ℕ → Option (A × OrderBook) → Type 0
Stays n none = Unit {0}
Stays n (some (a, b)) = length b.slab ≤ n

run_or_panic-Within :
    {A : Type 0} (n : ℕ) (r : Option (A × OrderBook)) → Stays n r → Within n (run_or_panic r)
run_or_panic-Within n none h = tt
run_or_panic-Within n (some (a, b)) h = h

discard-Within : {A : Type 0} (n : ℕ) (r : Run A) → Within n r → Within n (discard r)
discard-Within n (ok a b) h = h
discard-Within n (err e b) h = h
discard-Within n panic h = tt

-- A chain of steps: a slab from a step on the links, or a value that is looked up.
linked-Stays :
    {A : Type 0} (n : ℕ) (m : Option (Slab × Level)) (f : Slab × Level → Option (A × OrderBook))
    → HasLength n m
    → ((s : Slab) (l : Level) → length s ≡ n → Stays n (f (s, l)))
    → Stays n (m >>= f)
linked-Stays n none f h k = tt
linked-Stays n (some (s, l)) f h k = k s l h

found-Stays :
    {A B : Type 0} (n : ℕ) (m : Option B) (f : B → Option (A × OrderBook))
    → ((v : B) → m ≡ some v → Stays n (f v))
    → Stays n (m >>= f)
found-Stays n none f k = tt
found-Stays n (some v) f k = k v refl

length-alloc_slot :
    (b : OrderBook) {x : ℕ} {b' : OrderBook}
    → alloc_slot b ≡ some (x, b')
    → length b'.slab ≤ suc (length b.slab)
unfolding alloc_slot
length-alloc_slot b {x} {b'} h = choose b.free_list refl
  where
    choose : (l : List ℕ) → b.free_list ≡ l → length b'.slab ≤ suc (length b.slab)
    choose (slot ∷ rest) e =
        let same : b.slab ≡ b'.slab =
          ap (λ (r : ℕ × OrderBook). r.1.slab) (some-inj (rw (e, alloc_slot) at h)) in
        omega (arith, ap length same)
    choose [] e = elim (Bool-cases (ltb (length b.slab) max_slots)) [
      | inl fits ↦
          let grown : (b.slab ++ none ∷ []) ≡ b'.slab =
            ap (λ (r : ℕ × OrderBook). r.1.slab) (some-inj (rw (e, alloc_slot, fits) at h)) in
          omega (arith, ap length grown, length-append b.slab (none ∷ []))
      | inr full ↦ cc (rw (e, alloc_slot, full) at h)
    ]

insert_order-length :
    (o : Order) (b : OrderBook) {b' : OrderBook}
    → insert_order o b ≡ some b'
    → length b'.slab ≤ suc (length b.slab)
unfolding insert_order with_levels
insert_order-length o b {b'} h =
    let (t₁, e₁, h₁) = >>=-eq-some (alloc_slot b) _ h in
    let (slab, e₂, h₂) = >>=-eq-some (write_slot t₁.1.slab t₁.0 (some (new_node o))) _ h₁ in
    let (t₃, e₃, h₃) = >>=-eq-some (link_tail slab _ t₁.0) _ h₂ in
    let same : t₃.0 ≡ b'.slab = ap (λ (r : OrderBook). r.slab) (some-inj h₃) in
    let kept : length t₃.0 ≡ length slab =
      subst (HasLength (length slab)) e₃ (link_tail-HasLength (length slab) slab _ t₁.0 refl) in
    omega (
      arith,
      ap length same,
      kept,
      length-write_slot t₁.1.slab t₁.0 (some (new_node o)) e₂,
      length-alloc_slot b e₁,
    )

pub add-Within : (o : Order) (b : OrderBook) → Within (suc (length b.slab)) (add o b)
unfolding add
add-Within o b = elim (Bool-cases (o.qty == 0)) [
  | inl z ↦ rw z (omega arith)
  | inr nz ↦ elim (Bool-cases (HashMap.contains_key ℕ_discrete o.id b.order_index)) [
    | inl known ↦ rw (nz, known) (omega arith)
    | inr fresh ↦
        rw (nz, fresh)
          (run_or_panic-Within (suc (length b.slab)) _ (
            found-Stays (suc (length b.slab)) (insert_order o b) _
              (λ b' e. insert_order-length o b e)))
  ]
]

remove_slot-Stays :
    (id : OrderId) (slot : ℕ) (b : OrderBook) → Stays (length b.slab) (remove_slot id slot b)
unfolding remove_slot with_levels
remove_slot-Stays id slot b = found-Stays (length b.slab) (node_at b.slab slot) _ λ node _.
    found-Stays (length b.slab) (TreeMap.get node.order.price (levels_of node.order.side b)) _
      λ level _.
        linked-Stays (length b.slab) (unlink (set b.slab slot none) _ node.prev node.next) _
          (unlink-HasLength (length b.slab) (set b.slab slot none) _ node.prev node.next
            (length-set b.slab slot none))
          (λ s l e. omega arith)

pub remove-Within : (id : OrderId) (b : OrderBook) → Within (length b.slab) (remove id b)
unfolding remove
remove-Within id b = elim (Option-cases (HashMap.get ℕ_discrete id b.order_index)) [
  | inl e ↦ rw (e, remove) (omega arith)
  | inr (slot, e) ↦
      rw (e, remove) (run_or_panic-Within (length b.slab) _ (remove_slot-Stays id slot b))
]

shrink_slot-Stays :
    (slot : ℕ) (o : Order) (n : Qty) (b : OrderBook)
    → Stays (length b.slab) (shrink_slot slot o n b)
unfolding shrink_slot with_levels
shrink_slot-Stays slot o n b =
    found-Stays (length b.slab) (update_node b.slab slot (set_qty n)) _ λ slab e.
      found-Stays (length b.slab) (TreeMap.get o.price (levels_of o.side b)) _
        λ level _. omega (arith, length-update_node b.slab slot (set_qty n) e)

update_size_at-Within :
    (id : OrderId) (slot : ℕ) (n : Qty) (b : OrderBook) (node : Option OrderNode)
    → Within (length b.slab) (update_size_at id slot n b node)
unfolding update_size_at
update_size_at-Within id slot n b none = tt
update_size_at-Within id slot n b (some node) = elim (Bool-cases (leb node.order.qty n)) [
  | inl more ↦ rw more (omega arith)
  | inr less ↦ elim (Bool-cases (n == 0)) [
    | inl z ↦ rw (less, z) (discard-Within (length b.slab) (remove id b) (remove-Within id b))
    | inr nz ↦
        rw (less, nz)
          (run_or_panic-Within (length b.slab) _ (shrink_slot-Stays slot node.order n b))
  ]
]

pub update_size-Within :
    (id : OrderId) (n : Qty) (b : OrderBook) → Within (length b.slab) (update_size id n b)
unfolding update_size
update_size-Within id n b = elim (Option-cases (HashMap.get ℕ_discrete id b.order_index)) [
  | inl e ↦ rw (e, update_size) (omega arith)
  | inr (slot, e) ↦ rw (e, update_size) (update_size_at-Within id slot n b (node_at b.slab slot))
]

resize_level-HasLength :
    (policy : AmendPriorityPolicy) (slab : Slab) (level : Level) (slot : ℕ) (current n : Qty)
    → HasLength (length slab) (resize_level policy slab level slot current n)
unfolding resize_level
resize_level-HasLength preserve slab level slot current n = elim (Bool-cases (ltb current n)) [
  | inl e ↦ rw e refl
  | inr e ↦ rw e refl
]
resize_level-HasLength lose_priority_on_increase slab level slot current n =
    elim (Bool-cases (ltb current n)) [
      | inl e ↦ rw e (move_to_tail-HasLength (length slab) slab _ slot refl)
      | inr e ↦ rw e refl
    ]

amend_slot-Stays :
    (slot : ℕ) (o : Order) (n : Qty) (policy : AmendPriorityPolicy) (b : OrderBook)
    → Stays (length b.slab) (amend_slot slot o n policy b)
unfolding amend_slot with_levels
amend_slot-Stays slot o n policy b =
    found-Stays (length b.slab) (update_node b.slab slot (set_qty n)) _ λ slab e.
      found-Stays (length b.slab) (TreeMap.get o.price (levels_of o.side b)) _ λ level _.
        linked-Stays (length b.slab) (resize_level policy slab level slot o.qty n) _
          (subst (λ k. HasLength k (resize_level policy slab level slot o.qty n))
            (length-update_node b.slab slot (set_qty n) e)
            (resize_level-HasLength policy slab level slot o.qty n))
          (λ s l e'. omega arith)

amend_size_at-Within :
    (slot : ℕ) (n : Qty) (policy : AmendPriorityPolicy) (b : OrderBook) (node : Option OrderNode)
    → Within (length b.slab) (amend_size_at slot n policy b node)
unfolding amend_size_at
amend_size_at-Within slot n policy b none = tt
amend_size_at-Within slot n policy b (some node) = elim (Bool-cases (node.order.qty == n)) [
  | inl same ↦ rw same (omega arith)
  | inr other ↦
      rw other (run_or_panic-Within (length b.slab) _ (amend_slot-Stays slot node.order n policy b))
]

pub amend_size-Within :
    (id : OrderId) (n : Qty) (policy : AmendPriorityPolicy) (b : OrderBook)
    → Within (length b.slab) (amend_size_with_policy id n policy b)
unfolding amend_size_with_policy
amend_size-Within id n policy b = elim (Bool-cases (n == 0)) [
  | inl z ↦ rw z (discard-Within (length b.slab) (remove id b) (remove-Within id b))
  | inr nz ↦ elim (Option-cases (HashMap.get ℕ_discrete id b.order_index)) [
    | inl e ↦ rw (nz, e, amend_size_with_policy) (omega arith)
    | inr (slot, e) ↦
        rw (nz, e, amend_size_with_policy)
          (amend_size_at-Within slot n policy b (node_at b.slab slot))
  ]
]

Within-mono : {A : Type 0} (m n : ℕ) (r : Run A) → m ≤ n → Within m r → Within n r
Within-mono m n (ok a b) h w = omega arith
Within-mono m n (err e b) h w = omega arith
Within-mono m n panic h w = tt

-- An operation adds one slot at most.
pub apply_op-Within : (op : BookOp) (b : OrderBook) → Within (suc (length b.slab)) (apply_op op b)
unfolding apply_op amend_size
apply_op-Within (BookOp.add o) b = add-Within o b
apply_op-Within (BookOp.remove id) b =
    Within-mono (length b.slab) (suc (length b.slab)) (discard (remove id b)) (omega arith)
      (discard-Within (length b.slab) (remove id b) (remove-Within id b))
apply_op-Within (BookOp.update_size id n) b =
    Within-mono (length b.slab) (suc (length b.slab)) (update_size id n b) (omega arith)
      (update_size-Within id n b)
apply_op-Within (BookOp.amend_size id n) b =
    Within-mono (length b.slab) (suc (length b.slab)) (amend_size_with_policy id n preserve b)
      (omega arith) (amend_size-Within id n preserve b)
