-- ===== src/Book/Kept/Tests.antt =====
-- Snapshots beside a synthetic order: one that is accepted, and one that holds this order again.
use l4_book.Prelude.{
  ◌+◌, ◌≡◌, ◌≤◌, refl, ap, ◌∙◌, List, [], ◌∷◌, ◌++◌, none, arith, length, ℕ_discrete,
}
use l4_book.Types.{Order, Side, Price, preserve_synthetic}
use l4_book.Types.Ids.{is_synthetic_order_id}
use l4_book.Containers.HashMap
use l4_book.Slab.Cells.{orders_of}
use l4_book.Book.{OrderBook, ok, max_slots}
use l4_book.Book.Invariant.{IsWellFormed, Queues}
use l4_book.Book.Kept.Accepted.{apply_snapshot_with_policy-preserves}
use l4_book.Book.Preserved.{preserved_of}
use l4_book.Book.Rebuild.{resting_at}
use l4_book.Book.Replay.{
  keep_synthetic, validate_loop, validate_preserve_synthetic_snapshot, apply_snapshot_with_policy,
}
use l4_book.Book.Sample.{test_order}
use l4_book.Book.Sample.Synthetic.{
  synthetic_order, synthetic_book, synthetic_queues, synthetic_wf, synthetic_preserved,
}
use l4_book.Prelude.{some, true, inl}
use l4_book.Types.{duplicate_order_id}
use l4_book.Containers.TreeMap
use l4_book.Slab.{write_slot, link_tail, update_node, new_node, new_level, node_at}
use l4_book.Book.{
  new_book, add, insert_order, alloc_slot, levels_of, with_levels, or_new, or_empty, wallet_insert,
  err,
}
use l4_book.Book.Invariant.{NoRepeat, order_by_id}
use l4_book.Book.Kept.Refused.{IsVenueOrder, apply_snapshot_with_policy-refuses}

abbrev venue_orders : List Order
venue_orders = test_order 1 5 ∷ test_order 2 6 ∷ []

validated : validate_preserve_synthetic_snapshot venue_orders (synthetic_order ∷ []) ≡ none
unfolding validate_preserve_synthetic_snapshot validate_loop is_synthetic_order_id HashMap.has
    HashMap.set_insert HashMap.set_remove ℕ_discrete
validated = refl

venue_orders-accepted :
    validate_preserve_synthetic_snapshot venue_orders (preserved_of synthetic_queues synthetic_book)
    ≡ none
venue_orders-accepted =
    ap (validate_preserve_synthetic_snapshot venue_orders) synthetic_preserved ∙ validated

venue_orders-fit :
    length venue_orders + length (preserved_of synthetic_queues synthetic_book) ≤ max_slots
venue_orders-fit = omega (arith, ap length synthetic_preserved)

apply_snapshot_with_policy-preserves_example :
    (b' : OrderBook) × (q' : Queues) × (apply_snapshot_with_policy venue_orders preserve_synthetic
        synthetic_book
      ≡ ok
          (record {
            inserted = 2;
            preserved = length (preserved_of synthetic_queues synthetic_book);
          })
          b')
    × IsWellFormed b' q'
    × ((s : Side) (p : Price)
        → orders_of (q' s p)
          ≡ resting_at s p venue_orders ++ keep_synthetic (orders_of (synthetic_queues s p)))
apply_snapshot_with_policy-preserves_example =
    apply_snapshot_with_policy-preserves synthetic_book synthetic_queues synthetic_wf venue_orders
      (omega arith, (omega arith, tt)) venue_orders-accepted venue_orders-fit

synthetic_order-rests : order_by_id synthetic_order.id synthetic_book ≡ some synthetic_order
unfolding new_book add insert_order alloc_slot levels_of with_levels write_slot link_tail
    update_node or_new or_empty wallet_insert new_node new_level TreeMap.get TreeMap.insert
    HashMap.get HashMap.insert HashMap.contains_key HashMap.set_insert HashMap.has node_at
    ℕ_discrete
synthetic_order-rests = refl

synthetic_order-IsSynthetic : is_synthetic_order_id synthetic_order.id ≡ true
unfolding is_synthetic_order_id
synthetic_order-IsSynthetic = refl

test_order-IsVenueOrder : IsVenueOrder (test_order 1 5)
unfolding is_synthetic_order_id
test_order-IsVenueOrder = (omega arith, refl)

no_repeat : NoRepeat (1 ∷ [])
unfolding HashMap.has
no_repeat = (refl, tt)

apply_snapshot_with_policy-refuses_example :
    apply_snapshot_with_policy
      (test_order 1 5 ∷ synthetic_order ∷ test_order 2 0 ∷ [])
      preserve_synthetic
      synthetic_book
    ≡ err (duplicate_order_id synthetic_order.id) synthetic_book
apply_snapshot_with_policy-refuses_example =
    apply_snapshot_with_policy-refuses synthetic_book synthetic_queues synthetic_wf
      (test_order 1 5 ∷ []) (test_order 2 0 ∷ []) synthetic_order
      (duplicate_order_id synthetic_order.id) no_repeat (test_order-IsVenueOrder, tt)
      (omega arith, refl, inl (synthetic_order-IsSynthetic, synthetic_order, synthetic_order-rests))
