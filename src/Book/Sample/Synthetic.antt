-- ===== src/Book/Sample/Synthetic.antt =====
-- A book with a synthetic order.
use l4_book.Prelude.{◌+◌, ◌^◌, ◌≡◌, refl, [], ◌∷◌, arith, inr, ℕ_discrete}
use l4_book.Types.{Order}
use l4_book.Types.Ids.{is_synthetic_order_id}
use l4_book.Containers.HashMap
use l4_book.Containers.TreeMap
use l4_book.Slab.{write_slot, link_tail, update_node, new_node, new_level, node_at}
use l4_book.Book.{
  OrderBook, new_book, add, insert_order, alloc_slot, levels_of, with_levels, or_new, or_empty,
  wallet_insert,
}
use l4_book.Book.Invariant.{IsWellFormed, Queues}
use l4_book.Book.Ops.{new_book-IsWellFormed}
use l4_book.Book.Preserved.{preserved_of}
use l4_book.Book.Queries.{depth, depth_item}
use l4_book.Book.Replay.{keep_synthetic}
use l4_book.Book.Sample.{test_order, result, added-IsWellFormed}

abbrev pub synthetic_order : Order
synthetic_order = test_order (2 ^ 63 + 1) 3

abbrev pub synthetic_book : OrderBook
synthetic_book = result (add synthetic_order new_book)

synthetic_book-IsWellFormed : (q : Queues) × IsWellFormed synthetic_book q
unfolding new_book HashMap.get
synthetic_book-IsWellFormed =
    added-IsWellFormed synthetic_order new_book (λ s p. []) new_book-IsWellFormed
      (inr (omega arith)) (omega arith) (omega arith) refl

pub synthetic_queues : Queues
synthetic_queues = synthetic_book-IsWellFormed.0

pub synthetic_wf : IsWellFormed synthetic_book synthetic_queues
unfolding synthetic_queues
synthetic_wf = synthetic_book-IsWellFormed.1

pub synthetic_preserved : preserved_of synthetic_queues synthetic_book ≡ synthetic_order ∷ []
unfolding synthetic_queues synthetic_book-IsWellFormed added-IsWellFormed new_book add insert_order
    alloc_slot levels_of with_levels write_slot link_tail update_node or_new or_empty wallet_insert
    new_node new_level TreeMap.get TreeMap.insert HashMap.get HashMap.insert HashMap.contains_key
    HashMap.set_insert HashMap.has node_at ℕ_discrete depth depth_item keep_synthetic
    is_synthetic_order_id
synthetic_preserved = refl
