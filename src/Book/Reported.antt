-- ===== src/Book/Reported.antt =====
-- Replay under a policy: every error is an outcome, and the strict policy is `apply_op`.
use l4_book.Prelude.{
  ◌<◌, ◌≡◌, refl, sym, ap, ◌∙◌, inl, inr, none, some, arith, ℕ_discrete, false, Option-cases,
  Bool-cases, ==_ne, is_some, ◌&&◌, leb, u64_mod,
}
use l4_book.Types.{
  OrderId, Qty, BookOp, BookError, ReplayPolicy, ReplayApplyOutcome, ToleratedReplayReason,
  MissingOrderPolicy, DuplicateAddPolicy, strict, skipped, applied, coerced, unknown_order_id,
  duplicate_order_id, preserve,
}
use l4_book.Containers.HashMap
use l4_book.Slab.{OrderNode, node_at}
use l4_book.Slab.Chain.{link, head_or, last_or}
use l4_book.Book.{OrderBook, Run, ok, update_size, amend_size}
use l4_book.Book.Invariant.{IsWellFormed, Queues}
use l4_book.Book.Alloc.{HasRoom}
use l4_book.Book.Ops.{
  Sound, kept, refused, IsInRange, apply_op-Sound, unknown_id_rejected, add_rejects,
}
use l4_book.Book.Located.{locate_slot}
use l4_book.Book.Replay.{
  apply_op, reported, apply_reported, missing, duplicate, treats_as_amend, update_or_amend,
  apply_op_with_policy,
}

-- What replay reports of an operation: it was applied, or applied as an amendment, and the book is
-- well formed; or it was skipped or failed, and the book is as it was.
pub data Reported (b : OrderBook) (op : BookOp) : Run ReplayApplyOutcome → Type 0 where
  done : {b' : OrderBook} (q : Queues) → IsWellFormed b' q → Reported b op (ok (applied op) b')
  amended :
      {b' : OrderBook} {op' : BookOp} {r : ToleratedReplayReason} (q : Queues)
      → IsWellFormed b' q
      → Reported b op (ok (coerced op op' r) b')
  passed : {r : ToleratedReplayReason} → Reported b op (ok (skipped op r) b)
  failed : {e : BookError} → Reported b op (ok (ReplayApplyOutcome.error op e) b)

reported-applied :
    (b : OrderBook) (op : BookOp) {r : Run (Unit {0})}
    → Sound b r
    → Reported b op (reported (applied op) op r)
unfolding reported
reported-applied b op (kept q wf) = done q wf
reported-applied b op (refused e) = rw e failed

reported-coerced :
    (b : OrderBook) (op op' : BookOp) (t : ToleratedReplayReason) {r : Run (Unit {0})}
    → Sound b r
    → Reported b op (reported (coerced op op' t) op r)
unfolding reported
reported-coerced b op op' t (kept q wf) = amended q wf
reported-coerced b op op' t (refused e) = rw e failed

missing-Reported :
    (b : OrderBook) (op : BookOp) (id : OrderId) (policy : ReplayPolicy)
    → Reported b op (ok (missing policy op id) b)
unfolding missing
missing-Reported b op id policy =
    elim policy.missing_order
      as (λ m. Reported b op (
        ok
          (elim m [
            | MissingOrderPolicy.skip ↦ skipped op (ToleratedReplayReason.missing_order id)
            | MissingOrderPolicy.error ↦ ReplayApplyOutcome.error op (unknown_order_id id)
          ])
          b)) [ MissingOrderPolicy.skip ↦ passed | MissingOrderPolicy.error ↦ failed ]

duplicate-Reported :
    (b : OrderBook) (op : BookOp) (id : OrderId) (policy : ReplayPolicy)
    → Reported b op (ok (duplicate policy op id) b)
unfolding duplicate
duplicate-Reported b op id policy =
    elim policy.duplicate_add
      as (λ m. Reported b op (
        ok
          (elim m [
            | DuplicateAddPolicy.skip ↦ skipped op (ToleratedReplayReason.duplicate_add id)
            | DuplicateAddPolicy.error ↦ ReplayApplyOutcome.error op (duplicate_order_id id)
          ])
          b)) [ DuplicateAddPolicy.skip ↦ passed | DuplicateAddPolicy.error ↦ failed ]

module _ (b : OrderBook) (q : Queues) (wf : IsWellFormed b q) (room : HasRoom b) where
  apply_reported-Reported : (op : BookOp) → IsInRange op → Reported b op (apply_reported op b)
  unfolding apply_reported
  apply_reported-Reported op r = reported-applied b op (apply_op-Sound b q op wf room r)

  update_or_amend-Reported :
      (id : OrderId) (n : Qty) (policy : ReplayPolicy) (node : OrderNode)
      → n < u64_mod
      → Reported b (BookOp.update_size id n) (update_or_amend id n policy b (some node))
  unfolding update_or_amend
  update_or_amend-Reported id n policy node r =
      elim (Bool-cases (leb node.order.qty n && treats_as_amend policy)) [
        | inl e ↦ rw e (
            reported-coerced b (BookOp.update_size id n) (BookOp.amend_size id n) _
              (apply_op-Sound b q (BookOp.amend_size id n) wf room r))
        | inr e ↦ rw e (apply_reported-Reported (BookOp.update_size id n) r)
      ]

  -- On a well-formed book with room, `apply_op_with_policy` does not panic: it applies an operation
  -- whose sizes are `u64` values, perhaps as an amendment, and leaves a well-formed book, or it
  -- reports that it skipped it or could not apply it and leaves the book as it was.
  pub apply_op_with_policy-Reported :
      (op : BookOp) (policy : ReplayPolicy)
      → IsInRange op
      → Reported b op (apply_op_with_policy op policy b)
  unfolding apply_op_with_policy
  apply_op_with_policy-Reported (BookOp.add o) policy r =
      elim (Bool-cases (HashMap.contains_key ℕ_discrete o.id b.order_index)) [
        | inl e ↦ rw e (duplicate-Reported b (BookOp.add o) o.id policy)
        | inr e ↦ rw e (apply_reported-Reported (BookOp.add o) r)
      ]
  apply_op_with_policy-Reported (BookOp.remove id) policy r =
      elim (Bool-cases (HashMap.contains_key ℕ_discrete id b.order_index)) [
        | inl e ↦ rw e (apply_reported-Reported (BookOp.remove id) r)
        | inr e ↦ rw e (missing-Reported b (BookOp.remove id) id policy)
      ]
  apply_op_with_policy-Reported (BookOp.update_size id n) policy r =
      elim (Option-cases (HashMap.get ℕ_discrete id b.order_index)) [
        | inl e ↦
            rw (e, apply_op_with_policy) (missing-Reported b (BookOp.update_size id n) id policy)
        | inr (x, e) ↦
            let (o, rested, is) = wf.indexed id x e in
            let (ls, rs, level, at) = locate_slot b q wf x o rested in
            rw (e, apply_op_with_policy, at.node)
              (update_or_amend-Reported id n policy (link o (head_or rs none) (last_or none ls)) r)
      ]
  apply_op_with_policy-Reported (BookOp.amend_size id n) policy r =
      elim (Bool-cases (HashMap.contains_key ℕ_discrete id b.order_index)) [
        | inl e ↦ rw e (apply_reported-Reported (BookOp.amend_size id n) r)
        | inr e ↦ rw e (missing-Reported b (BookOp.amend_size id n) id policy)
      ]

-- An addition has a positive size.
abbrev pub AddsSome : BookOp → Type 0
AddsSome (BookOp.add o) = 0 < o.qty
AddsSome (BookOp.remove id) = Unit {0}
AddsSome (BookOp.update_size id n) = Unit {0}
AddsSome (BookOp.amend_size id n) = Unit {0}

contains_key-none :
    (id : OrderId) (b : OrderBook)
    → HashMap.contains_key ℕ_discrete id b.order_index ≡ false
    → HashMap.get ℕ_discrete id b.order_index ≡ none
unfolding HashMap.contains_key
contains_key-none id b e = elim (Option-cases (HashMap.get ℕ_discrete id b.order_index)) [
  | inl out ↦ out
  | inr (x, at) ↦ cc (sym (ap is_some at) ∙ e)
]

update_or_amend-strict :
    (b : OrderBook) (id : OrderId) (n : Qty) (node : OrderNode)
    → update_or_amend id n strict b (some node)
      ≡ reported (applied (BookOp.update_size id n)) (BookOp.update_size id n) (update_size id n b)
unfolding update_or_amend apply_reported apply_op treats_as_amend
update_or_amend-strict b id n node = elim (Bool-cases (leb node.order.qty n)) [
  | inl le ↦ rw le refl
  | inr gt ↦ rw gt refl
]

-- On every book the strict policy reports what `apply_op` does, for an operation that is not an
-- addition of size zero.
pub strict-apply_op :
    (b : OrderBook) (op : BookOp)
    → AddsSome op
    → apply_op_with_policy op strict b ≡ reported (applied op) op (apply_op op b)
unfolding apply_op_with_policy apply_op amend_size update_size
strict-apply_op b (BookOp.add o) pos =
    elim (Bool-cases (HashMap.contains_key ℕ_discrete o.id b.order_index)) [
      | inl e ↦ rw (add_rejects o b (inr e), ==_ne o.qty 0 (omega arith), e) refl
      | inr e ↦ rw e refl
    ]
strict-apply_op b (BookOp.remove id) pos =
    elim (Bool-cases (HashMap.contains_key ℕ_discrete id b.order_index)) [
      | inl e ↦ rw e refl
      | inr e ↦ rw (e, (unknown_id_rejected id 0 preserve b (contains_key-none id b e)).0) refl
    ]
strict-apply_op b (BookOp.update_size id n) pos =
    elim (Option-cases (HashMap.get ℕ_discrete id b.order_index)) [
      | inl e ↦ rw (e, apply_op_with_policy, update_size) refl
      | inr (x, e) ↦ elim (Option-cases (node_at b.slab x)) [
        | inl gone ↦ rw (e, apply_op_with_policy, update_size, gone) refl
        | inr (node, at) ↦ rw (e, apply_op_with_policy, at) (update_or_amend-strict b id n node)
      ]
    ]
strict-apply_op b (BookOp.amend_size id n) pos =
    elim (Bool-cases (HashMap.contains_key ℕ_discrete id b.order_index)) [
      | inl e ↦ rw e refl
      | inr e ↦ rw (e, (unknown_id_rejected id n preserve b (contains_key-none id b e)).2) refl
    ]
