-- ===== src/Examples/Debug/Sample.antt =====
-- A book with an order on each side, whose wallets have twenty bytes.
use l4_book.Prelude.{
  ℕ, zero, suc, ◌≡◌, refl, subst, some-inj, [], none, some, arith, inr, length, ℕ_discrete,
}
use l4_book.Types.{Order, ask}
use l4_book.Containers.HashMap
use l4_book.Containers.TreeMap
use l4_book.Slab.{write_slot, link_tail, update_node, new_node, new_level, node_at}
use l4_book.Book.{
  OrderBook, new_book, add, insert_order, alloc_slot, levels_of, with_levels, or_new, or_empty,
  wallet_insert,
}
use l4_book.Book.Invariant.{IsWellFormed, Queues, order_at}
use l4_book.Book.Ops.{new_book-IsWellFormed}
use l4_book.Book.Sample.{result, added-IsWellFormed}
use l4_book.Dwellir.Printed.{IsPrintable}
use l4_book.Dwellir.Sample.Bids.{bid_order, bid_order-IsPrintable}

abbrev pub ask_order : Order
ask_order = record bid_order { id = 2; side = ask; price = 90058000000 }

abbrev bid_book : OrderBook
bid_book = result (add bid_order new_book)

abbrev pub quoted_book : OrderBook
quoted_book = result (add ask_order bid_book)

bid_book-IsWellFormed : (q : Queues) × IsWellFormed bid_book q
unfolding new_book HashMap.get
bid_book-IsWellFormed =
    added-IsWellFormed bid_order new_book (λ s p. []) new_book-IsWellFormed (inr (omega arith))
      (omega arith) (omega arith) refl

bid_book-size : length (bid_book.slab) ≡ 1
unfolding new_book add insert_order alloc_slot levels_of with_levels write_slot link_tail
    update_node or_new or_empty wallet_insert new_node new_level TreeMap.get TreeMap.insert
    HashMap.get HashMap.insert HashMap.contains_key HashMap.set_insert HashMap.has node_at
    ℕ_discrete
bid_book-size = refl

bid_book-unknown : HashMap.get ℕ_discrete 2 bid_book.order_index ≡ none
unfolding new_book add insert_order alloc_slot levels_of with_levels write_slot link_tail
    update_node or_new or_empty wallet_insert new_node new_level TreeMap.get TreeMap.insert
    HashMap.get HashMap.insert HashMap.contains_key HashMap.set_insert HashMap.has node_at
    ℕ_discrete
bid_book-unknown = refl

quoted_book-IsWellFormed : (q : Queues) × IsWellFormed quoted_book q
quoted_book-IsWellFormed =
    let (q, wf) = bid_book-IsWellFormed in
    added-IsWellFormed ask_order bid_book q wf (inr (omega (arith, bid_book-size))) (omega arith)
      (omega arith) bid_book-unknown

pub quoted_queues : Queues
quoted_queues = quoted_book-IsWellFormed.0

pub quoted_wf : IsWellFormed quoted_book quoted_queues
unfolding quoted_queues
quoted_wf = quoted_book-IsWellFormed.1

ask_order-IsPrintable : IsPrintable ask_order
ask_order-IsPrintable = record {
  twenty = refl;
  bytes = bid_order-IsPrintable.bytes;
  price_small = omega arith;
  qty_small = omega arith;
}

pub quoted_book-IsPrintable : (i : ℕ) (o : Order) → order_at quoted_book i ≡ some o → IsPrintable o
unfolding new_book add insert_order alloc_slot levels_of with_levels write_slot link_tail
    update_node or_new or_empty wallet_insert new_node new_level TreeMap.get TreeMap.insert
    HashMap.get HashMap.insert HashMap.contains_key HashMap.set_insert HashMap.has node_at
    ℕ_discrete
quoted_book-IsPrintable zero o e = subst IsPrintable (some-inj e) bid_order-IsPrintable
quoted_book-IsPrintable (suc zero) o e = subst IsPrintable (some-inj e) ask_order-IsPrintable
quoted_book-IsPrintable (suc (suc i)) o e = cc e
