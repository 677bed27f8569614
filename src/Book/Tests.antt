-- ===== src/Book/Tests.antt =====
-- Runs at concrete books, which show that the hypotheses of the theorems can hold.
use l4_book.Prelude.{
  sym, add_u64, List, ◌^◌, ◌+◌, ◌-◌, ℕ, ◌≡◌, refl, [], ◌∷◌, ◌++◌, none, some, arith, ℕ_discrete,
}
use l4_book.Types.{
  gtc, TakerMatch, fok, post_only, fill_or_kill_would_not_fill, post_only_would_cross, strict,
  dwellir_tolerant, applied, Order, BookOp, bid, lose_priority_on_increase,
}
use l4_book.Containers.HashMap
use l4_book.Containers.TreeMap
use l4_book.Book.{
  OrderBook, new_book, ok, add, remove, update_size, amend_size_with_policy, insert_order,
  alloc_slot, levels_of, with_levels, or_new, or_empty, wallet_insert,
}
use l4_book.Slab.{write_slot, link_tail, update_node, new_node, new_level, node_at}
use l4_book.Book.Invariant.{NoRepeat, IsWellFormed}
use l4_book.Book.Add.{add-enqueue, enqueue}
use l4_book.Book.Remove.{remove-dequeue, dequeue}
use l4_book.Book.Amend.{
  amend_size-amend_queues, amend_queues, update_size-update_queues, update_queues,
}
use l4_book.Book.Walks.{orders_at-queue, queue_position-place_between, place_between}
use l4_book.Book.Queries.{orders_at, queue_position, depth, depth_item}
use l4_book.Book.Replay.{
  validate_preserve_synthetic_snapshot, validate_loop, ids_of, apply_op, apply_op_with_policy,
  reported,
}
use l4_book.Book.Reported.{Reported, apply_op_with_policy-Reported, strict-apply_op}
use l4_book.Book.Matched.{available, filled_by, match_taker_order-available}
use l4_book.Book.Taken.{Keeps, submit_limit_order-Keeps}
use l4_book.Types.Ids.{is_synthetic_order_id}
use l4_book.Book.Snapshots.{validate-IsAcceptable, IsAcceptable}
use l4_book.Book.Submitted.{submit_limit_order-fill_or_kill, submit_limit_order-post_only}
use l4_book.Book.Slippage.{estimate_slippage, opposite, limit_allows}
use l4_book.Book.Taker.{match_taker_order, submit_limit_order, outcome}
use l4_book.Book.Ops.{apply_op-Sound, Sound}
use l4_book.Slab.Cells.{orders_of}
use l4_book.Slab.Chain.{Cells}
use l4_book.Book.Estimated.{AreExact, estimate_slippage-match_taker_order}
use l4_book.Book.Sample.{
  ask_queues-total, test_order, two_orders, two_orders-unknown, first_slot, second_slot,
  two_orders-HasRoom, test_queues, test_wf, test_ask, both_sides, ask_queues, ask_wf, ask_slot,
  both_sides-unknown, queue_of_order-busy,
}

apply_op-Sound_example : Sound two_orders (apply_op (BookOp.update_size 1 9) two_orders)
apply_op-Sound_example =
    apply_op-Sound two_orders test_queues (BookOp.update_size 1 9) test_wf two_orders-HasRoom
      (omega arith)

add-enqueue_example :
    (x : ℕ) × (b' : OrderBook) × (add (test_order 3 4) two_orders ≡ ok tt b')
    × IsWellFormed b' (enqueue x (test_order 3 4) test_queues)
add-enqueue_example =
    add-enqueue two_orders test_queues (test_order 3 4) test_wf two_orders-HasRoom (omega arith)
      (omega arith) two_orders-unknown

remove-dequeue_example :
    (b' : OrderBook) × (remove 1 two_orders ≡ ok (test_order 1 5) b')
    × IsWellFormed b' (dequeue 0 (test_order 1 5) test_queues)
remove-dequeue_example = remove-dequeue two_orders test_queues 0 (test_order 1 5) test_wf first_slot

amend_size-amend_queues_example :
    (b' : OrderBook) × (amend_size_with_policy 1 8 lose_priority_on_increase two_orders ≡ ok tt b')
    × IsWellFormed b' (amend_queues 0 (test_order 1 5) 8 lose_priority_on_increase test_queues)
amend_size-amend_queues_example =
    amend_size-amend_queues two_orders test_queues 0 (test_order 1 5) 8 lose_priority_on_increase
      test_wf first_slot (omega arith)

update_size-update_queues_example :
    (b' : OrderBook) × (update_size 2 4 two_orders ≡ ok tt b')
    × IsWellFormed b' (update_queues 1 (test_order 2 6) 4 test_queues)
update_size-update_queues_example =
    update_size-update_queues two_orders test_queues 1 (test_order 2 6) 4 test_wf second_slot
      (omega arith)

queue_position-place_between_example :
    (ls rs : Cells) × (test_queues bid 100 ≡ ls ++ (1, test_order 2 6) ∷ rs)
    × (queue_position 2 two_orders ≡ ok (place_between (test_order 2 6) ls rs) two_orders)
queue_position-place_between_example =
    queue_position-place_between two_orders test_queues test_wf 1 (test_order 2 6) second_slot

orders_at-queue_example : orders_at bid 100 two_orders ≡ some (orders_of (test_queues bid 100))
orders_at-queue_example = orders_at-queue two_orders test_queues test_wf bid 100

match_taker_order-available_example :
    (m : TakerMatch) × (match_taker_order bid 3 110 both_sides ≡ some m)
    × (m.unfilled_qty ≡ 3 - available bid 110 ask_queues (depth (opposite bid) both_sides))
    × (m.filled_qty + m.unfilled_qty ≡ 3)
    × (filled_by m.fills ≡ m.filled_qty)
match_taker_order-available_example =
    match_taker_order-available both_sides ask_queues ask_wf bid 3 110

-- A buy order below the ask.
abbrev low_bid : Order
low_bid = record (test_order 4 9) { price = 90 }

nothing_available : available bid 90 ask_queues (depth (opposite bid) both_sides) ≡ 0
unfolding new_book add insert_order alloc_slot levels_of with_levels write_slot link_tail
    update_node or_new or_empty wallet_insert new_node new_level TreeMap.get TreeMap.insert
    HashMap.get HashMap.insert HashMap.contains_key HashMap.set_insert HashMap.has node_at
    ℕ_discrete opposite limit_allows depth depth_item
nothing_available = refl

submit_limit_order-fill_or_kill_example :
    (m : TakerMatch) × (submit_limit_order low_bid fok both_sides
      ≡ ok (outcome fok (some fill_or_kill_would_not_fill) m none) both_sides)
submit_limit_order-fill_or_kill_example =
    submit_limit_order-fill_or_kill both_sides ask_queues ask_wf low_bid both_sides-unknown
      (omega (arith, nothing_available))

submit_limit_order-post_only_example :
    (m : TakerMatch) × (submit_limit_order (record low_bid { price = 106 }) post_only both_sides
      ≡ ok (outcome post_only (some post_only_would_cross) m none) both_sides)
unfolding opposite
submit_limit_order-post_only_example =
    submit_limit_order-post_only both_sides ask_queues ask_wf (record low_bid { price = 106 }) 105
      (omega arith) both_sides-unknown
      (queue_of_order-busy both_sides ask_queues 2 test_ask ask_wf ask_slot) (omega arith)

apply_op_with_policy-Reported_example :
    Reported two_orders
      (BookOp.update_size 1 9)
      (apply_op_with_policy (BookOp.update_size 1 9) dwellir_tolerant two_orders)
apply_op_with_policy-Reported_example =
    apply_op_with_policy-Reported two_orders test_queues test_wf two_orders-HasRoom
      (BookOp.update_size 1 9) dwellir_tolerant (omega arith)

strict-apply_op_example :
    apply_op_with_policy (BookOp.update_size 1 9) strict two_orders
    ≡ reported
        (applied (BookOp.update_size 1 9))
        (BookOp.update_size 1 9)
        (apply_op (BookOp.update_size 1 9) two_orders)
strict-apply_op_example = strict-apply_op two_orders (BookOp.update_size 1 9) tt

submit_limit_order-Keeps_example : Keeps (submit_limit_order (test_order 4 9) gtc two_orders)
submit_limit_order-Keeps_example =
    submit_limit_order-Keeps two_orders test_queues test_wf (test_order 4 9) gtc two_orders-HasRoom
      (omega arith)

abbrev test_snapshot : List Order
test_snapshot = test_order 1 5 ∷ test_order 2 6 ∷ []

abbrev preserved_order : List Order
preserved_order = test_order (2 ^ 63 + 1) 3 ∷ []

test_snapshot-accepted : validate_preserve_synthetic_snapshot test_snapshot preserved_order ≡ none
unfolding validate_preserve_synthetic_snapshot validate_loop is_synthetic_order_id HashMap.has
    HashMap.set_insert HashMap.set_remove ℕ_discrete
test_snapshot-accepted = refl

validate-IsAcceptable_example :
    NoRepeat (ids_of test_snapshot) × IsAcceptable (ids_of preserved_order) (test_order 2 6)
validate-IsAcceptable_example =
    validate-IsAcceptable test_snapshot preserved_order 1 (test_order 2 6) test_snapshot-accepted
      refl

both_sides-AreExact : AreExact (opposite bid) ask_queues (depth (opposite bid) both_sides)
unfolding new_book add insert_order alloc_slot levels_of with_levels write_slot link_tail
    update_node or_new or_empty wallet_insert new_node new_level TreeMap.get TreeMap.insert
    HashMap.get HashMap.insert HashMap.contains_key HashMap.set_insert HashMap.has node_at
    ℕ_discrete opposite limit_allows depth depth_item add_u64
both_sides-AreExact = (sym ask_queues-total, tt)

estimate_slippage-match_taker_order_example :
    (m : TakerMatch) × (match_taker_order bid 3 110 both_sides ≡ some m)
    × ((estimate_slippage bid 3 110 both_sides).filled_qty ≡ m.filled_qty)
    × ((estimate_slippage bid 3 110 both_sides).unfilled_qty ≡ m.unfilled_qty)
    × ((estimate_slippage bid 3 110 both_sides).limit_stopped ≡ m.limit_stopped)
    × ((estimate_slippage bid 3 110 both_sides).exhausted_book ≡ m.exhausted_book)
estimate_slippage-match_taker_order_example =
    estimate_slippage-match_taker_order both_sides ask_queues ask_wf bid 3 110 both_sides-AreExact
