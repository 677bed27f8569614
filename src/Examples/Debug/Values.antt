-- ===== src/Examples/Debug/Values.antt =====
-- examples/dwellir_debug_log_sp500.rs: the JSON values that the log is made of, each a record or a
-- data type with the members of the object as fields.
use l4_book.Prelude.{ℕ, List, [], ◌∷◌, Option, none, some, ◌>>=◌, map}
use l4_book.Text.{codes}
use l4_book.Types.{
  Order, OrderId, Price, Qty, Ts, Side, bid, ask, BookOp, OperationCause, VenueDiffKind,
  SimulatorCause, ReasonedBookOp,
}
use l4_book.Types.Wallets.{fmt}
use l4_book.Book.{OrderBook, len}
use l4_book.Book.Queries.{DepthItem, depth, orders_at, best_bid, best_ask}
use l4_book.Dwellir.Types.{Scales}
use l4_book.Examples.Scaled.{fmt_scaled}

abbrev pub side_name : Side → List ℕ
side_name bid = codes "bid"
side_name ask = codes "ask"

abbrev pub op_order_id : BookOp → OrderId
op_order_id (BookOp.add order) = order.id
op_order_id (BookOp.remove id) = id
op_order_id (BookOp.update_size id new_qty) = id
op_order_id (BookOp.amend_size id new_qty) = id

abbrev pub op_kind : BookOp → List ℕ
op_kind (BookOp.add order) = codes "add"
op_kind (BookOp.remove id) = codes "remove"
op_kind (BookOp.update_size id new_qty) = codes "update_size"
op_kind (BookOp.amend_size id new_qty) = codes "amend_size"

abbrev pub simulator_cause_name : SimulatorCause → List ℕ
simulator_cause_name SimulatorCause.taker_fill = codes "taker_fill"
simulator_cause_name SimulatorCause.limit_order_rest = codes "limit_order_rest"
simulator_cause_name SimulatorCause.snapshot_preserve = codes "snapshot_preserve"

abbrev pub venue_diff_kind_name : VenueDiffKind → List ℕ
venue_diff_kind_name VenueDiffKind.new = codes "new"
venue_diff_kind_name VenueDiffKind.remove = codes "remove"
venue_diff_kind_name VenueDiffKind.update = codes "update"
venue_diff_kind_name VenueDiffKind.modified = codes "modified"
venue_diff_kind_name VenueDiffKind.complete_fill_collapsed = codes "complete_fill_collapsed"

pub data CauseValue : Type 0 where
  venue_value : (source diff : List ℕ) (status : Option (List ℕ)) → CauseValue
  simulator_value : (source cause : List ℕ) → CauseValue
  source_value : (source : List ℕ) → CauseValue

abbrev pub operation_cause_to_value : OperationCause → CauseValue
operation_cause_to_value (OperationCause.venue source diff status) =
    venue_value source (venue_diff_kind_name diff) status
operation_cause_to_value (OperationCause.simulator cause) =
    simulator_value (codes "simulator") (simulator_cause_name cause)
operation_cause_to_value OperationCause.snapshot = source_value (codes "snapshot")
operation_cause_to_value OperationCause.user = source_value (codes "user")
operation_cause_to_value OperationCause.unknown = source_value (codes "unknown")

-- The order in the value of an addition.
pub record RawOrderValue : Type 0 where
  pub id : OrderId
  pub wallet : List ℕ
  pub side : List ℕ
  pub raw_price : Price
  pub raw_qty : Qty
  pub ts : Ts

pub data BookOpValue : Type 0 where
  add_value : (order : RawOrderValue) → BookOpValue
  remove_value : (id : OrderId) → BookOpValue
  update_size_value : (id : OrderId) (raw_new_qty : Qty) → BookOpValue
  amend_size_value : (id : OrderId) (raw_new_qty : Qty) → BookOpValue

unfoldable pub book_op_to_value : BookOp → BookOpValue
book_op_to_value (BookOp.add order) = add_value (record {
  id = order.id;
  wallet = fmt order.wallet;
  side = side_name order.side;
  raw_price = order.price;
  raw_qty = order.qty;
  ts = order.ts;
})
book_op_to_value (BookOp.remove id) = remove_value id
book_op_to_value (BookOp.update_size id new_qty) = update_size_value id new_qty
book_op_to_value (BookOp.amend_size id new_qty) = amend_size_value id new_qty

pub record ReasonedValue : Type 0 where
  pub op : BookOpValue
  pub cause : CauseValue

unfoldable pub reasoned_book_op_to_value : ReasonedBookOp → ReasonedValue
unfolding book_op_to_value
reasoned_book_op_to_value reasoned = record {
  op = book_op_to_value reasoned.op;
  cause = operation_cause_to_value reasoned.cause;
}

unfoldable pub ops_to_value : List ReasonedBookOp → List ReasonedValue
unfolding reasoned_book_op_to_value
ops_to_value ops = map reasoned_book_op_to_value ops

pub record OrderValue : Type 0 where
  pub id : OrderId
  pub wallet : List ℕ
  pub side : List ℕ
  pub price : List ℕ
  pub raw_price : Price
  pub qty : List ℕ
  pub raw_qty : Qty
  pub ts : Ts

unfoldable pub order_to_value : Scales → Order → OrderValue
order_to_value scales order = record {
  id = order.id;
  wallet = fmt order.wallet;
  side = side_name order.side;
  price = fmt_scaled order.price scales.price_digits;
  raw_price = order.price;
  qty = fmt_scaled order.qty scales.qty_digits;
  raw_qty = order.qty;
  ts = order.ts;
}

pub record LevelValue : Type 0 where
  pub price : List ℕ
  pub raw_price : Price
  pub total_qty : List ℕ
  pub raw_total_qty : Qty
  pub order_count : ℕ
  pub orders : List OrderValue

-- The object of a level, with the orders that `orders_at` yields.
unfoldable pub level_to_value : Scales → DepthItem → List Order → LevelValue
unfolding order_to_value
level_to_value scales (price, total_qty, order_count) orders = record {
  price = fmt_scaled price scales.price_digits;
  raw_price = price;
  total_qty = fmt_scaled total_qty scales.qty_digits;
  raw_total_qty = total_qty;
  order_count = order_count;
  orders = map (order_to_value scales) orders;
}

-- `map` and `collect` over `depth`.
unfoldable pub levels_to_value :
    Scales → Side → OrderBook → List DepthItem → Option (List LevelValue)
unfolding level_to_value
levels_to_value scales side b [] = some []
levels_to_value scales side b (item ∷ items) = do
  orders ← orders_at side item.0 b
  levels ← levels_to_value scales side b items
  some (level_to_value scales item orders ∷ levels)

unfoldable pub side_snapshot : Scales → Side → OrderBook → Option (List LevelValue)
unfolding levels_to_value
side_snapshot scales side b = levels_to_value scales side b (depth side b)

-- A best price as a text, or `null`.
abbrev pub price_to_value : Scales → Option Price → Option (List ℕ)
price_to_value scales none = none
price_to_value scales (some p) = some (fmt_scaled p scales.price_digits)

pub record BookValue : Type 0 where
  pub len : ℕ
  pub best_bid : Option (List ℕ)
  pub best_ask : Option (List ℕ)
  pub bids : List LevelValue
  pub asks : List LevelValue

unfoldable pub book_snapshot : Scales → OrderBook → Option BookValue
unfolding side_snapshot
book_snapshot scales b = do
  bids ← side_snapshot scales bid b
  asks ← side_snapshot scales ask b
  some (record {
    len = len b;
    best_bid = price_to_value scales (best_bid b);
    best_ask = price_to_value scales (best_ask b);
    bids = bids;
    asks = asks;
  })
