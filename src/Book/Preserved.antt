-- ===== src/Book/Preserved.antt =====
-- The synthetic orders that a snapshot preserves.
use l4_book.Prelude.{◌≡◌, refl, List, [], ◌∷◌, ◌++◌, some}
use l4_book.Types.{Order, Side, bid, ask}
use l4_book.Slab.Cells.{orders_of}
use l4_book.Book.{OrderBook}
use l4_book.Book.Invariant.{IsWellFormed, Queues}
use l4_book.Book.Queries.{DepthItem, depth}
use l4_book.Book.Replay.{keep_synthetic, synthetic_at, synthetic_orders_in_book_order}
use l4_book.Book.Walks.{orders_at-queue}

-- The synthetic orders of the queues of one side, level by level.
abbrev pub synthetic_of : Side → Queues → List DepthItem → List Order
synthetic_of s q [] = []
synthetic_of s q ((price, _, _) ∷ items) =
    keep_synthetic (orders_of (q s price)) ++ synthetic_of s q items

-- The bids before the asks, each from the best price on.
abbrev pub preserved_of : Queues → OrderBook → List Order
preserved_of q b = synthetic_of bid q (depth bid b) ++ synthetic_of ask q (depth ask b)

module _ (b : OrderBook) (q : Queues) (wf : IsWellFormed b q) where
  synthetic_at-synthetic_of :
      (s : Side) (items : List DepthItem) → synthetic_at s b items ≡ some (synthetic_of s q items)
  unfolding synthetic_at
  synthetic_at-synthetic_of s [] = refl
  synthetic_at-synthetic_of s ((price, total, count) ∷ items) =
      rw (orders_at-queue b q wf s price, synthetic_at-synthetic_of s items) refl

  pub synthetic_orders-preserved_of : synthetic_orders_in_book_order b ≡ some (preserved_of q b)
  unfolding synthetic_orders_in_book_order
  synthetic_orders-preserved_of =
      rw (synthetic_at-synthetic_of bid (depth bid b), synthetic_at-synthetic_of ask (depth ask b))
        refl
