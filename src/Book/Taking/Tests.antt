-- ===== src/Book/Taking/Tests.antt =====
-- Taker orders against a book with two buy orders and a sell order.
use l4_book.Prelude.{◌≡◌, some, arith}
use l4_book.Types.{TakerMatch, bid, ask}
use l4_book.Book.{OrderBook, ok}
use l4_book.Book.Invariant.{IsWellFormed}
use l4_book.Book.Queries.{depth}
use l4_book.Book.Slippage.{opposite}
use l4_book.Book.Taker.{match_taker_order, apply_taker_order}
use l4_book.Book.Depths.{IsDepth, depth-IsDepth}
use l4_book.Book.Priority.{greedy, makers_of, match_taker_order-greedy}
use l4_book.Book.Taking.{drained, apply_taker_order-drained}
use l4_book.Book.Sample.{both_sides, ask_queues, ask_wf}

depth-IsDepth_example : IsDepth bid ask_queues (depth bid both_sides)
depth-IsDepth_example = depth-IsDepth both_sides ask_queues ask_wf bid

match_taker_order-greedy_example :
    (m : TakerMatch) × (match_taker_order ask 7 90 both_sides ≡ some m)
    × (m.fills ≡ greedy 7 (makers_of ask 90 ask_queues (depth (opposite ask) both_sides)))
match_taker_order-greedy_example = match_taker_order-greedy both_sides ask_queues ask_wf ask 7 90

apply_taker_order-drained_example :
    (m : TakerMatch) × (b' : OrderBook) × (match_taker_order ask 7 90 both_sides ≡ some m)
    × (apply_taker_order ask 7 90 both_sides ≡ ok m b')
    × IsWellFormed b' (drained ask 90 7 (depth (opposite ask) both_sides) ask_queues)
apply_taker_order-drained_example =
    apply_taker_order-drained ask 90 7 both_sides ask_queues ask_wf (omega arith)
