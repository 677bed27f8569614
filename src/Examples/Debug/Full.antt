-- ===== src/Examples/Debug/Full.antt =====
-- What the log calls a full snapshot shows the whole book.
use l4_book.Prelude.{◌≡◌, refl, List, [], ◌∷◌, some, map}
use l4_book.Types.{Side, bid, ask}
use l4_book.Slab.Cells.{orders_of}
use l4_book.Book.{OrderBook, len}
use l4_book.Book.Invariant.{IsWellFormed, Queues}
use l4_book.Book.Queries.{DepthItem, depth, best_bid, best_ask}
use l4_book.Book.Walks.{orders_at-queue}
use l4_book.Dwellir.Types.{Scales}
use l4_book.Examples.Debug.Values.{
  LevelValue, level_to_value, levels_to_value, side_snapshot, price_to_value, book_snapshot,
}

-- The value of a level whose orders are those of its queue.
abbrev pub queue_to_value : Scales → Queues → Side → DepthItem → LevelValue
queue_to_value scales q s item = level_to_value scales item (orders_of (q s item.0))

module _ (scales : Scales) (b : OrderBook) (q : Queues) (wf : IsWellFormed b q) where
  levels_to_value_lem :
      (s : Side) (items : List DepthItem)
      → levels_to_value scales s b items ≡ some (map (queue_to_value scales q s) items)
  unfolding levels_to_value
  levels_to_value_lem s [] = refl
  levels_to_value_lem s (item ∷ items) =
      rw (orders_at-queue b q wf s item.0, levels_to_value_lem s items) refl

  side_snapshot-queues :
      (s : Side) → side_snapshot scales s b ≡ some (map (queue_to_value scales q s) (depth s b))
  unfolding side_snapshot
  side_snapshot-queues s = levels_to_value_lem s (depth s b)

  -- On a well-formed book `book_snapshot` does not panic. It has the number of orders, the best prices,
  -- and for each level that `depth` lists, in its order, the value of the level with the orders of
  -- the queue from front to back.
  pub book_snapshot-queues :
      book_snapshot scales b
      ≡ some (record {
        len = len b;
        best_bid = price_to_value scales (best_bid b);
        best_ask = price_to_value scales (best_ask b);
        bids = map (queue_to_value scales q bid) (depth bid b);
        asks = map (queue_to_value scales q ask) (depth ask b);
      })
  unfolding book_snapshot
  book_snapshot-queues = rw (side_snapshot-queues bid, side_snapshot-queues ask) refl
