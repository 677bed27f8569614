-- ===== src/Book/Rebuild/Tests.antt =====
-- A snapshot of two orders, which replaces the empty book.
use l4_book.Prelude.{ℕ, ◌≡◌, refl, List, [], ◌∷◌, arith, ℕ_discrete}
use l4_book.Types.{Order, Side, Price, bid}
use l4_book.Containers.HashMap
use l4_book.Slab.Cells.{orders_of}
use l4_book.Book.{OrderBook, new_book, ok}
use l4_book.Book.Invariant.{IsWellFormed, Queues, NoRepeat}
use l4_book.Book.Replay.{ids_of, apply_snapshot}
use l4_book.Book.Rebuild.{resting_at, ArePositive, apply_snapshot-resting_at}

abbrev test_order : ℕ → ℕ → Order
test_order i q = record { id = i; wallet = 7 ∷ 8 ∷ []; side = bid; price = 100; qty = q; ts = 0 }

abbrev test_orders : List Order
test_orders = test_order 4 5 ∷ test_order 3 6 ∷ []

test_orders-NoRepeat : NoRepeat (ids_of test_orders)
unfolding HashMap.has ℕ_discrete
test_orders-NoRepeat = (refl, (refl, tt))

test_orders-ArePositive : ArePositive test_orders
test_orders-ArePositive = ((omega arith, omega arith), ((omega arith, omega arith), tt))

apply_snapshot-resting_at_example :
    (b' : OrderBook) × (q' : Queues) × (apply_snapshot test_orders new_book ≡ ok tt b')
    × IsWellFormed b' q'
    × ((s : Side) (p : Price) → orders_of (q' s p) ≡ resting_at s p test_orders)
apply_snapshot-resting_at_example =
    apply_snapshot-resting_at test_orders new_book (omega arith) test_orders-NoRepeat
      test_orders-ArePositive
