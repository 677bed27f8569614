-- ===== src/Book/Growth/Policy.antt =====
-- The slots that an operation under a policy may add.
use l4_book.Prelude.{
  ℕ, suc, Option, none, some, arith, length, ℕ_discrete, Bool-cases, Option-cases, inl, inr, leb,
  ◌&&◌,
}
use l4_book.Types.{OrderId, Qty, BookOp, ReplayPolicy, ReplayApplyOutcome}
use l4_book.Containers.HashMap
use l4_book.Slab.{OrderNode, node_at}
use l4_book.Book.{OrderBook, Run, ok, err, panic}
use l4_book.Book.Growth.{Within, apply_op-Within}
use l4_book.Book.Replay.{
  apply_op, reported, apply_reported, treats_as_amend, update_or_amend, apply_op_with_policy,
}

reported-Within :
    (n : ℕ) (done : ReplayApplyOutcome) (op : BookOp) (r : Run (Unit {0}))
    → Within n r
    → Within n (reported done op r)
unfolding reported
reported-Within n done op (ok _ b) h = h
reported-Within n done op (err e b) h = h
reported-Within n done op panic h = tt

apply_reported-Within :
    (op : BookOp) (b : OrderBook) → Within (suc (length b.slab)) (apply_reported op b)
unfolding apply_reported
apply_reported-Within op b =
    reported-Within (suc (length b.slab)) _ op (apply_op op b) (apply_op-Within op b)

update_or_amend-Within :
    (id : OrderId) (n : Qty) (policy : ReplayPolicy) (b : OrderBook) (node : Option OrderNode)
    → Within (suc (length b.slab)) (update_or_amend id n policy b node)
unfolding update_or_amend
update_or_amend-Within id n policy b none = tt
update_or_amend-Within id n policy b (some node) =
    elim (Bool-cases (leb node.order.qty n && treats_as_amend policy)) [
      | inl amend ↦ rw amend (
          reported-Within (suc (length b.slab)) _ (BookOp.update_size id n) _
            (apply_op-Within (BookOp.amend_size id n) b))
      | inr update ↦ rw update (apply_reported-Within (BookOp.update_size id n) b)
    ]

-- Under a policy, too, an operation adds one slot at most.
pub apply_op_with_policy-Within :
    (op : BookOp) (policy : ReplayPolicy) (b : OrderBook)
    → Within (suc (length b.slab)) (apply_op_with_policy op policy b)
unfolding apply_op_with_policy
apply_op_with_policy-Within (BookOp.add o) policy b =
    elim (Bool-cases (HashMap.contains_key ℕ_discrete o.id b.order_index)) [
      | inl e ↦ rw e (omega arith)
      | inr e ↦ rw e (apply_reported-Within (BookOp.add o) b)
    ]
apply_op_with_policy-Within (BookOp.remove id) policy b =
    elim (Bool-cases (HashMap.contains_key ℕ_discrete id b.order_index)) [
      | inl e ↦ rw e (apply_reported-Within (BookOp.remove id) b)
      | inr e ↦ rw e (omega arith)
    ]
apply_op_with_policy-Within (BookOp.update_size id n) policy b =
    elim (Option-cases (HashMap.get ℕ_discrete id b.order_index)) [
      | inl e ↦ rw (e, apply_op_with_policy) (omega arith)
      | inr (slot, e) ↦
          rw (e, apply_op_with_policy) (update_or_amend-Within id n policy b (node_at b.slab slot))
    ]
apply_op_with_policy-Within (BookOp.amend_size id n) policy b =
    elim (Bool-cases (HashMap.contains_key ℕ_discrete id b.order_index)) [
      | inl e ↦ rw e (apply_reported-Within (BookOp.amend_size id n) b)
      | inr e ↦ rw e (omega arith)
    ]
