-- ===== src/Book/Replay.antt =====
-- src/book.rs: operations as values, replay under a policy, and snapshots.
use l4_book.Prelude.{
  ℕ, ◌+◌, List, [], ◌∷◌, ◌++◌, Option, none, some, ◌>>=◌, ◌==◌, if◌then◌else◌, leb, Bool, true,
  false, ◌&&◌, ℕ_discrete, map, not,
}
use l4_book.Types.{
  Order, OrderId, Qty, Side, bid, ask, BookOp, BookError, zero_qty, duplicate_order_id,
  unknown_order_id, synthetic_order_id_in_snapshot, SnapshotPolicy, replace, preserve_synthetic,
  SnapshotOutcome, MissingOrderPolicy, DuplicateAddPolicy, NonDecreasingUpdatePolicy,
  treat_as_amend, ReplayPolicy, ToleratedReplayReason, ReplayApplyOutcome, applied, skipped,
  coerced,
}
use l4_book.Types.Ids.{is_synthetic_order_id}
use l4_book.Containers.HashMap
use l4_book.Slab.{OrderNode, node_at}
use l4_book.Book.{
  OrderBook, Run, ok, err, panic, and_then, discard, add, remove, update_size, amend_size, clear,
}
use l4_book.Book.Queries.{depth, DepthItem, orders_at}

unfoldable pub apply_op : BookOp → OrderBook → Run (Unit {0})
apply_op (BookOp.add order) b = add order b
apply_op (BookOp.remove id) b = discard (remove id b)
apply_op (BookOp.update_size id new_qty) b = update_size id new_qty b
apply_op (BookOp.amend_size id new_qty) b = amend_size id new_qty b

-- `apply_op_with_policy` never fails: an error is an outcome.
unfoldable pub reported : ReplayApplyOutcome → BookOp → Run (Unit {0}) → Run ReplayApplyOutcome
reported done op (ok _ b) = ok done b
reported done op (err e b) = ok (ReplayApplyOutcome.error op e) b
reported done op panic = panic

unfoldable pub apply_reported : BookOp → OrderBook → Run ReplayApplyOutcome
unfolding reported
apply_reported op b = reported (applied op) op (apply_op op b)

unfoldable pub missing : ReplayPolicy → BookOp → OrderId → ReplayApplyOutcome
missing policy op id = elim policy.missing_order [
  | MissingOrderPolicy.skip ↦ skipped op (ToleratedReplayReason.missing_order id)
  | MissingOrderPolicy.error ↦ ReplayApplyOutcome.error op (unknown_order_id id)
]

unfoldable pub duplicate : ReplayPolicy → BookOp → OrderId → ReplayApplyOutcome
duplicate policy op id = elim policy.duplicate_add [
  | DuplicateAddPolicy.skip ↦ skipped op (ToleratedReplayReason.duplicate_add id)
  | DuplicateAddPolicy.error ↦ ReplayApplyOutcome.error op (duplicate_order_id id)
]

unfoldable pub treats_as_amend : ReplayPolicy → Bool
treats_as_amend policy = elim policy.non_decreasing_update [
  | treat_as_amend ↦ true
  | NonDecreasingUpdatePolicy.error ↦ false
]

-- The arm of `UpdateSize`, once the order is found.
unfoldable pub update_or_amend :
    OrderId → Qty → ReplayPolicy → OrderBook → Option OrderNode → Run ReplayApplyOutcome
unfolding reported apply_reported treats_as_amend
update_or_amend id new_qty policy b none = panic
update_or_amend id new_qty policy b (some node) =
    let op = BookOp.update_size id new_qty in
    let amend = BookOp.amend_size id new_qty in
    if leb node.order.qty new_qty && treats_as_amend policy
    then reported
        (coerced op amend (ToleratedReplayReason.non_decreasing_update id node.order.qty new_qty))
        op (apply_op amend b)
    else apply_reported op b

unfoldable pub apply_op_with_policy : BookOp → ReplayPolicy → OrderBook → Run ReplayApplyOutcome
unfolding apply_reported missing duplicate update_or_amend
apply_op_with_policy (BookOp.add order) policy b =
    if HashMap.contains_key ℕ_discrete order.id b.order_index
    then ok (duplicate policy (BookOp.add order) order.id) b
    else apply_reported (BookOp.add order) b
apply_op_with_policy (BookOp.remove id) policy b =
    if not (HashMap.contains_key ℕ_discrete id b.order_index)
    then ok (missing policy (BookOp.remove id) id) b
    else apply_reported (BookOp.remove id) b
apply_op_with_policy (BookOp.update_size id new_qty) policy b =
    elim (HashMap.get ℕ_discrete id b.order_index) [
      | none ↦ ok (missing policy (BookOp.update_size id new_qty) id) b
      | some slot ↦ update_or_amend id new_qty policy b (node_at b.slab slot)
    ]
apply_op_with_policy (BookOp.amend_size id new_qty) policy b =
    if not (HashMap.contains_key ℕ_discrete id b.order_index)
    then ok (missing policy (BookOp.amend_size id new_qty) id) b
    else apply_reported (BookOp.amend_size id new_qty) b

-- The filter of `synthetic_orders_in_book_order`.
unfoldable pub keep_synthetic : List Order → List Order
keep_synthetic [] = []
keep_synthetic (o ∷ os) =
    let rest = keep_synthetic os in if is_synthetic_order_id o.id then o ∷ rest else rest

unfoldable pub synthetic_at : Side → OrderBook → List DepthItem → Option (List Order)
unfolding keep_synthetic
synthetic_at side b [] = some []
synthetic_at side b ((price, _, _) ∷ items) = do
  orders ← orders_at side price b
  rest ← synthetic_at side b items
  some (keep_synthetic orders ++ rest)

unfoldable pub synthetic_orders_in_book_order : OrderBook → Option (List Order)
unfolding synthetic_at
synthetic_orders_in_book_order b = do
  bids ← synthetic_at bid b (depth bid b)
  asks ← synthetic_at ask b (depth ask b)
  some (bids ++ asks)

abbrev pub ids_of : List Order → List OrderId
ids_of = map (λ o. o.id)

-- The loop over the snapshot; `none` is success.
unfoldable pub validate_loop : List OrderId → List OrderId → List Order → Option BookError
validate_loop preserved seen [] = none
validate_loop preserved seen (o ∷ os) =
    let rest = validate_loop preserved (HashMap.set_insert ℕ_discrete o.id seen) os in
    if o.qty == 0
    then some zero_qty
    else if HashMap.has ℕ_discrete o.id preserved
    then some (duplicate_order_id o.id)
    else if is_synthetic_order_id o.id
    then some (synthetic_order_id_in_snapshot o.id)
    else if HashMap.has ℕ_discrete o.id seen
    then some (duplicate_order_id o.id)
    else rest

unfoldable pub validate_preserve_synthetic_snapshot : List Order → List Order → Option BookError
unfolding validate_loop
validate_preserve_synthetic_snapshot orders preserved = validate_loop (ids_of preserved) [] orders

-- A loop of `self.add(order)?` with its counter.
unfoldable pub add_all : ℕ → List Order → OrderBook → Run ℕ
add_all n [] b = ok n b
add_all n (o ∷ os) b = and_then (add o b) (λ _ b'. add_all (n + 1) os b')

unfoldable pub preserved_orders : SnapshotPolicy → OrderBook → Option (List Order)
unfolding synthetic_orders_in_book_order
preserved_orders replace b = some []
preserved_orders preserve_synthetic b = synthetic_orders_in_book_order b

unfoldable pub validate : SnapshotPolicy → List Order → List Order → Option BookError
unfolding validate_preserve_synthetic_snapshot
validate replace orders preserved = none
validate preserve_synthetic orders preserved = validate_preserve_synthetic_snapshot orders preserved

-- The book after `clear`, and the two loops.
unfoldable pub rebuild : List Order → List Order → OrderBook → Run SnapshotOutcome
unfolding add_all
rebuild orders preserved b = and_then (add_all 0 orders (clear b)) λ inserted b'.
    and_then (add_all 0 preserved b')
      λ count b''. ok (record { inserted = inserted; preserved = count }) b''

unfoldable pub apply_snapshot_with_policy :
    List Order → SnapshotPolicy → OrderBook → Run SnapshotOutcome
unfolding preserved_orders validate rebuild
apply_snapshot_with_policy orders policy b = elim (preserved_orders policy b) [
  | none ↦ panic
  | some preserved ↦ elim (validate policy orders preserved) [
    | some e ↦ err e b
    | none ↦ rebuild orders preserved b
  ]
]

unfoldable pub apply_snapshot : List Order → OrderBook → Run (Unit {0})
unfolding apply_snapshot_with_policy
apply_snapshot orders b = discard (apply_snapshot_with_policy orders replace b)
