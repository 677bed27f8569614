-- ===== src/Book/Resting/Tests.antt =====
-- An order that takes the ask of a book and rests with what is left of it.
use l4_book.Prelude.{ℕ, ◌≡◌, none, some, arith}
use l4_book.Types.{Order, TakerMatch, bid, gtc}
use l4_book.Book.{OrderBook, ok}
use l4_book.Book.Invariant.{IsWellFormed}
use l4_book.Book.Queries.{depth}
use l4_book.Book.Resting.{remainder, rested, submit_limit_order-rested}
use l4_book.Book.Sample.{
  both_sides, both_sides-HasRoom, both_sides-unknown, ask_queues, ask_wf, test_order,
}
use l4_book.Book.Slippage.{opposite}
use l4_book.Book.Taker.{match_taker_order, outcome, submit_limit_order}
use l4_book.Book.Taking.{drained}

-- A buy order of size 9 up to 106, against an ask of size 4 at 105.
abbrev high_bid : Order
high_bid = record (test_order 4 9) { price = 106 }

submit_limit_order-rested_example :
    (m : TakerMatch) × (x : ℕ) × (b' : OrderBook) × (match_taker_order bid 9 106 both_sides
      ≡ some m)
    × (submit_limit_order high_bid gtc both_sides
        ≡ ok (outcome gtc none m (remainder high_bid m)) b')
    × IsWellFormed b' (
        rested x
          (remainder high_bid m)
          (drained bid 106 9 (depth (opposite bid) both_sides) ask_queues))
submit_limit_order-rested_example =
    submit_limit_order-rested both_sides ask_queues ask_wf high_bid both_sides-HasRoom (omega arith)
      (omega arith) both_sides-unknown
