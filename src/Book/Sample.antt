-- ===== src/Book/Sample.antt =====
-- Small well-formed books.
pub mod Synthetic
use l4_book.Prelude.{
  ◌∙◌, ◌+◌, ◌≤◌, Bool-cases, inl, false, ◌≢◌, ap, ℕ, ◌≡◌, ◌<◌, refl, sym, subst, inr, [], ◌∷◌, none,
  some, arith, length, ℕ_discrete, true, u64_mod,
}
use l4_book.Types.{Order, Side, Price, bid, ask}
use l4_book.Containers.HashMap
use l4_book.Containers.TreeMap
use l4_book.Book.{
  OrderBook, new_book, Run, ok, err, panic, add, insert_order, alloc_slot, levels_of, with_levels,
  or_new, or_empty, wallet_insert,
}
use l4_book.Slab.{write_slot, link_tail, update_node, new_node, new_level, node_at}
use l4_book.Book.Invariant.{IsWellFormed, Queues, order_at, rests, here, here_refl}
use l4_book.Book.Alloc.{HasRoom}
use l4_book.Book.Add.{add-enqueue, enqueue}
use l4_book.Book.Ops.{new_book-IsWellFormed}
use l4_book.Slab.Cells.{sum_qty, sum_qty-append}
use l4_book.Slab.Chain.{has}

abbrev pub test_order : ℕ → ℕ → Order
test_order i q = record { id = i; wallet = 7 ∷ 8 ∷ []; side = bid; price = 100; qty = q; ts = 0 }

abbrev pub result : {A : Type 0} → Run A → OrderBook
result (ok _ b) = b
result (err _ b) = b
result panic = new_book

abbrev pub one_order : OrderBook
one_order = result (add (test_order 1 5) new_book)

abbrev pub two_orders : OrderBook
two_orders = result (add (test_order 2 6) one_order)

pub no_queues : Queues
no_queues s p = []

pub added-IsWellFormed :
    (o : Order) (b : OrderBook) (q : Queues)
    → IsWellFormed b q
    → HasRoom b
    → 0 < o.qty
    → o.qty < u64_mod
    → HashMap.get ℕ_discrete o.id b.order_index ≡ none
    → (q' : Queues) × IsWellFormed (result (add o b)) q'
added-IsWellFormed o b q wf room pos bounded fresh =
    let (x, b', run, good) = add-enqueue b q o wf room pos bounded fresh in
    (enqueue x o q, subst (λ r. IsWellFormed (result r) (enqueue x o q)) (sym run) good)

pub one_order-IsWellFormed : (q : Queues) × IsWellFormed one_order q
unfolding new_book HashMap.get
one_order-IsWellFormed =
    added-IsWellFormed (test_order 1 5) new_book (λ s p. []) new_book-IsWellFormed
      (inr (omega arith)) (omega arith) (omega arith) refl

pub one_order-size : length (one_order.slab) ≡ 1
unfolding new_book add insert_order alloc_slot levels_of with_levels write_slot link_tail
    update_node or_new or_empty wallet_insert new_node new_level TreeMap.get TreeMap.insert
    HashMap.get HashMap.insert HashMap.contains_key HashMap.set_insert HashMap.has node_at
    ℕ_discrete
one_order-size = refl

pub two_orders-size : length (two_orders.slab) ≡ 2
unfolding new_book add insert_order alloc_slot levels_of with_levels write_slot link_tail
    update_node or_new or_empty wallet_insert new_node new_level TreeMap.get TreeMap.insert
    HashMap.get HashMap.insert HashMap.contains_key HashMap.set_insert HashMap.has node_at
    ℕ_discrete
two_orders-size = refl

pub one_order-unknown : HashMap.get ℕ_discrete 2 one_order.order_index ≡ none
unfolding new_book add insert_order alloc_slot levels_of with_levels write_slot link_tail
    update_node or_new or_empty wallet_insert new_node new_level TreeMap.get TreeMap.insert
    HashMap.get HashMap.insert HashMap.contains_key HashMap.set_insert HashMap.has node_at
    ℕ_discrete
one_order-unknown = refl

pub two_orders-unknown : HashMap.get ℕ_discrete 3 two_orders.order_index ≡ none
unfolding new_book add insert_order alloc_slot levels_of with_levels write_slot link_tail
    update_node or_new or_empty wallet_insert new_node new_level TreeMap.get TreeMap.insert
    HashMap.get HashMap.insert HashMap.contains_key HashMap.set_insert HashMap.has node_at
    ℕ_discrete
two_orders-unknown = refl

pub two_orders-known : HashMap.contains_key ℕ_discrete 2 two_orders.order_index ≡ true
unfolding new_book add insert_order alloc_slot levels_of with_levels write_slot link_tail
    update_node or_new or_empty wallet_insert new_node new_level TreeMap.get TreeMap.insert
    HashMap.get HashMap.insert HashMap.contains_key HashMap.set_insert HashMap.has node_at
    ℕ_discrete
two_orders-known = refl

pub first_slot : order_at two_orders 0 ≡ some (test_order 1 5)
unfolding new_book add insert_order alloc_slot levels_of with_levels write_slot link_tail
    update_node or_new or_empty wallet_insert new_node new_level TreeMap.get TreeMap.insert
    HashMap.get HashMap.insert HashMap.contains_key HashMap.set_insert HashMap.has node_at
    ℕ_discrete
first_slot = refl

pub second_slot : order_at two_orders 1 ≡ some (test_order 2 6)
unfolding new_book add insert_order alloc_slot levels_of with_levels write_slot link_tail
    update_node or_new or_empty wallet_insert new_node new_level TreeMap.get TreeMap.insert
    HashMap.get HashMap.insert HashMap.contains_key HashMap.set_insert HashMap.has node_at
    ℕ_discrete
second_slot = refl

pub two_orders-IsWellFormed : (q : Queues) × IsWellFormed two_orders q
two_orders-IsWellFormed =
    let (q, wf) = one_order-IsWellFormed in
    added-IsWellFormed (test_order 2 6) one_order q wf (inr (omega (arith, one_order-size)))
      (omega arith) (omega arith) one_order-unknown

pub two_orders-HasRoom : HasRoom two_orders
two_orders-HasRoom = inr (omega (arith, two_orders-size))

-- The queues of the book with two orders.
pub test_queues : Queues
test_queues = two_orders-IsWellFormed.0

pub test_wf : IsWellFormed two_orders test_queues
unfolding test_queues
test_wf = two_orders-IsWellFormed.1

-- A sell order above the two orders.
abbrev pub test_ask : Order
test_ask = record (test_order 3 4) { side = ask; price = 105 }

abbrev pub both_sides : OrderBook
both_sides = result (add test_ask two_orders)

pub both_sides-IsWellFormed : (q : Queues) × IsWellFormed both_sides q
both_sides-IsWellFormed =
    added-IsWellFormed test_ask two_orders test_queues test_wf two_orders-HasRoom (omega arith)
      (omega arith) two_orders-unknown

pub ask_queues : Queues
ask_queues = both_sides-IsWellFormed.0

pub ask_wf : IsWellFormed both_sides ask_queues
unfolding ask_queues
ask_wf = both_sides-IsWellFormed.1

pub ask_slot : order_at both_sides 2 ≡ some test_ask
unfolding new_book add insert_order alloc_slot levels_of with_levels write_slot link_tail
    update_node or_new or_empty wallet_insert new_node new_level TreeMap.get TreeMap.insert
    HashMap.get HashMap.insert HashMap.contains_key HashMap.set_insert HashMap.has node_at
    ℕ_discrete
ask_slot = refl

pub bid_slot : order_at both_sides 0 ≡ some (test_order 1 5)
unfolding new_book add insert_order alloc_slot levels_of with_levels write_slot link_tail
    update_node or_new or_empty wallet_insert new_node new_level TreeMap.get TreeMap.insert
    HashMap.get HashMap.insert HashMap.contains_key HashMap.set_insert HashMap.has node_at
    ℕ_discrete
bid_slot = refl

both_sides-size : length (both_sides.slab) ≡ 3
unfolding new_book add insert_order alloc_slot levels_of with_levels write_slot link_tail
    update_node or_new or_empty wallet_insert new_node new_level TreeMap.get TreeMap.insert
    HashMap.get HashMap.insert HashMap.contains_key HashMap.set_insert HashMap.has node_at
    ℕ_discrete
both_sides-size = refl

pub both_sides-HasRoom : HasRoom both_sides
both_sides-HasRoom = inr (omega (arith, both_sides-size))

pub both_sides-unknown : HashMap.contains_key ℕ_discrete 4 both_sides.order_index ≡ false
unfolding new_book add insert_order alloc_slot levels_of with_levels write_slot link_tail
    update_node or_new or_empty wallet_insert new_node new_level TreeMap.get TreeMap.insert
    HashMap.get HashMap.insert HashMap.contains_key HashMap.set_insert HashMap.has node_at
    ℕ_discrete
both_sides-unknown = refl

pub queue_of_order-busy :
    (b : OrderBook) (q : Queues) (i : ℕ) (o : Order)
    → IsWellFormed b q
    → order_at b i ≡ some o
    → q o.side o.price ≢ []
queue_of_order-busy b q i o wf e empty = cc (
  ap (has i) empty,
  wf.placed i o.side o.price ∙ ap (rests o.side o.price) e ∙ here_refl o.side o.price,
)

pub ask_queues-total : sum_qty (ask_queues ask 105) ≡ 4
unfolding ask_queues both_sides-IsWellFormed added-IsWellFormed test_queues two_orders-IsWellFormed
    one_order-IsWellFormed
ask_queues-total = refl

-- No queue holds more than `k`.
abbrev pub Within : ℕ → Queues → Type 0
Within k q = (s : Side) (p : Price) → sum_qty (q s p) ≤ k

-- An order adds its size to the sums.
enqueue-Within :
    (x : ℕ) (o : Order) (q : Queues) (k : ℕ) → Within k q → Within (k + o.qty) (enqueue x o q)
enqueue-Within x o q k bound s p = elim (Bool-cases (here o.side o.price s p)) [
  | inl e ↦
      rw e (omega (arith, bound o.side o.price, sum_qty-append (q o.side o.price) ((x, o) ∷ [])))
  | inr e ↦ rw e (omega (arith, bound s p))
]

added-Within :
    (o : Order) (b : OrderBook) (q : Queues) (wf : IsWellFormed b q) (room : HasRoom b)
    (pos : 0 < o.qty) (bounded : o.qty < u64_mod)
    (fresh : HashMap.get ℕ_discrete o.id b.order_index ≡ none) (k : ℕ)
    → Within k q
    → Within (k + o.qty) (added-IsWellFormed o b q wf room pos bounded fresh).0
unfolding added-IsWellFormed
added-Within o b q wf room pos bounded fresh k bound =
    enqueue-Within (add-enqueue b q o wf room pos bounded fresh).0 o q k bound

one_order-Within : Within 5 one_order-IsWellFormed.0
unfolding one_order-IsWellFormed
one_order-Within =
    added-Within (test_order 1 5) new_book (λ s p. []) _ _ _ _ _ 0 (λ s p. omega arith)

test_queues-Within : Within 11 test_queues
unfolding test_queues two_orders-IsWellFormed
test_queues-Within =
    added-Within (test_order 2 6) one_order one_order-IsWellFormed.0 _ _ _ _ _ 5 one_order-Within

pub ask_queues-Within : Within 15 ask_queues
unfolding ask_queues both_sides-IsWellFormed
ask_queues-Within = added-Within test_ask two_orders test_queues _ _ _ _ _ 11 test_queues-Within
