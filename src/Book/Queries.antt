-- ===== src/Book/Queries.antt =====
-- src/book.rs: the calls that read the book. `none` is a panic, or a walk that ran out of fuel; a
-- walk over a linked list has as much fuel as the slab has slots, which is enough for a list that
-- visits no slot twice.
use l4_book.Prelude.{
  ℕ, zero, suc, List, [], ◌∷◌, Option, none, some, ◌>>=◌, ◌==◌, if◌then◌else◌, length, Bool, true,
  false, add_u64, ℕ_discrete, take, get_elem?, map,
}
use mathlib.Core.List.{reverse}
use l4_book.Types.{
  Order, OrderId, WalletId, Price, Qty, Ts, Side, bid, ask, unknown_order_id, QueuePosition,
  WalletId-discrete,
}
use l4_book.Containers.HashMap
use l4_book.Containers.TreeMap
use l4_book.Slab.{Slab, Level, node_at}
use l4_book.Book.{OrderBook, levels_of, Run, ok, err, panic, or_empty}

-- What the loop of `queue_position` counts.
pub record Tally : Type 0 where
  pub orders_ahead : ℕ
  pub qty_ahead : Qty
  pub orders_behind : ℕ
  pub qty_behind : Qty
  pub seen_target : Bool

unfoldable pub visit : Bool → Order → Tally → Tally
visit is_target o t =
    if is_target
    then record t { seen_target = true }
    else if t.seen_target
    then record t {
      orders_behind = add_u64 t.orders_behind 1;
      qty_behind = add_u64 t.qty_behind o.qty;
    }
    else record t { orders_ahead = add_u64 t.orders_ahead 1; qty_ahead = add_u64 t.qty_ahead o.qty }

unfoldable pub position_loop : ℕ → Slab → ℕ → Option ℕ → Tally → Option Tally
unfolding visit
position_loop fuel slab target none t = some t
position_loop zero slab target (some slot) t = none
position_loop (suc fuel) slab target (some slot) t = do
  node ← node_at slab slot
  position_loop fuel slab target node.next (visit (slot == target) node.order t)

abbrev pub no_tally : Tally
no_tally = record {
  orders_ahead = 0;
  qty_ahead = 0;
  orders_behind = 0;
  qty_behind = 0;
  seen_target = false;
}

unfoldable pub position_of : OrderId → ℕ → OrderBook → Option QueuePosition
unfolding position_loop
position_of id slot b = do
  target ← node_at b.slab slot
  level ← TreeMap.get target.order.price (levels_of target.order.side b)
  t ← position_loop (length b.slab) b.slab slot level.head no_tally
  some (record {
    id = some id;
    side = target.order.side;
    price = target.order.price;
    orders_ahead = t.orders_ahead;
    qty_ahead = t.qty_ahead;
    orders_behind = t.orders_behind;
    qty_behind = t.qty_behind;
    level_order_count = level.order_count;
    level_total_qty = level.total_qty;
  })

unfoldable pub queue_position : OrderId → OrderBook → Run QueuePosition
unfolding position_of
queue_position id b = elim (HashMap.get ℕ_discrete id b.order_index) [
  | none ↦ err (unknown_order_id id) b
  | some slot ↦ elim (position_of id slot b) [ none ↦ panic | some p ↦ ok p b ]
]

unfoldable pub level_summary : Side → Price → OrderBook → Option (Qty × ℕ)
level_summary side price b = elim (TreeMap.get price (levels_of side b)) [
  | none ↦ none
  | some level ↦ some (level.total_qty, level.order_count)
]

unfoldable pub summary_or_zero : Option (Qty × ℕ) → Qty × ℕ
summary_or_zero none = (0, 0)
summary_or_zero (some s) = s

unfoldable pub queue_position_for_new_order : Side → Price → OrderBook → QueuePosition
unfolding level_summary summary_or_zero
queue_position_for_new_order side price b =
    let (qty, count) = summary_or_zero (level_summary side price b) in
    record {
      id = none;
      side = side;
      price = price;
      orders_ahead = count;
      qty_ahead = qty;
      orders_behind = 0;
      qty_behind = 0;
      level_order_count = count;
      level_total_qty = qty;
    }

-- The outer option is a panic: an index beyond the slab.
unfoldable pub get : OrderId → OrderBook → Option (Option Order)
get id b = elim (HashMap.get ℕ_discrete id b.order_index) [
  | none ↦ some none
  | some slot ↦ elim (get_elem? b.slab slot) [
    | none ↦ none
    | some none ↦ some none
    | some (some n) ↦ some (some n.order)
  ]
]

unfoldable pub best_bid : OrderBook → Option Price
best_bid b = TreeMap.last_key b.bids

unfoldable pub best_ask : OrderBook → Option Price
best_ask b = TreeMap.first_key b.asks

unfoldable pub best_bid_ask : OrderBook → Option Price × Option Price
best_bid_ask b = (best_bid b, best_ask b)

abbrev pub DepthItem : Type 0
DepthItem = Price × Qty × ℕ

-- What `DepthIter` yields, best price first.
unfoldable pub depth_item : ℕ × Level → DepthItem
depth_item (price, level) = (price, level.total_qty, level.order_count)

unfoldable pub depth : Side → OrderBook → List DepthItem
unfolding depth_item
depth bid b = map depth_item (reverse b.bids)
depth ask b = map depth_item b.asks

-- What `OrdersAtLevel` yields from a slot on. A freed slot ends the iteration.
unfoldable pub orders_from : ℕ → Slab → Option ℕ → Option (List Order)
orders_from fuel slab none = some []
orders_from zero slab (some slot) = none
orders_from (suc fuel) slab (some slot) = elim (get_elem? slab slot) [
  | none ↦ none
  | some none ↦ some []
  | some (some node) ↦ orders_from fuel slab node.next >>= λ rest. some (node.order ∷ rest)
]

unfoldable pub head_of : Option Level → Option ℕ
head_of none = none
head_of (some level) = level.head

unfoldable pub orders_at : Side → Price → OrderBook → Option (List Order)
unfolding orders_from head_of
orders_at side price b =
    orders_from (length b.slab) b.slab (head_of (TreeMap.get price (levels_of side b)))

-- What `WalletIter` yields: it stops at the first identifier that leads to no order.
unfoldable pub orders_of_ids : List OrderId → OrderBook → Option (List Order)
unfolding get
orders_of_ids [] b = some []
orders_of_ids (id ∷ ids) b = elim (get id b) [
  | none ↦ none
  | some none ↦ some []
  | some (some o) ↦ orders_of_ids ids b >>= λ rest. some (o ∷ rest)
]

unfoldable pub orders_by_wallet : WalletId → OrderBook → Option (List Order)
unfolding orders_of_ids
orders_by_wallet w b = orders_of_ids (or_empty (HashMap.get WalletId-discrete w b.wallet_index)) b

pub record AggregatedLevel : Type 0 where
  pub price : Price
  pub total_qty : Qty
  pub order_count : ℕ

pub record AggregatedTopLevels : Type 0 where
  pub bids : List AggregatedLevel
  pub asks : List AggregatedLevel

pub record LevelOrder : Type 0 where
  pub id : OrderId
  pub wallet : WalletId
  pub qty : Qty
  pub ts : Ts

pub record UnaggregatedLevel : Type 0 where
  pub price : Price
  pub orders : List LevelOrder

pub record UnaggregatedTopLevels : Type 0 where
  pub bids : List UnaggregatedLevel
  pub asks : List UnaggregatedLevel

unfoldable pub aggregated : DepthItem → AggregatedLevel
aggregated (price, qty, count) = record { price = price; total_qty = qty; order_count = count }

unfoldable pub top_n_levels_aggregated_for_side : Side → ℕ → OrderBook → List AggregatedLevel
unfolding aggregated
top_n_levels_aggregated_for_side side n b = map aggregated (take n (depth side b))

unfoldable pub top_n_levels_aggregated : ℕ → OrderBook → AggregatedTopLevels
top_n_levels_aggregated n b = record {
  bids = top_n_levels_aggregated_for_side bid n b;
  asks = top_n_levels_aggregated_for_side ask n b;
}

unfoldable pub level_order : Order → LevelOrder
level_order o = record { id = o.id; wallet = o.wallet; qty = o.qty; ts = o.ts }

unfoldable pub unaggregated : Side → OrderBook → List DepthItem → Option (List UnaggregatedLevel)
unfolding level_order
unaggregated side b [] = some []
unaggregated side b ((price, _, _) ∷ items) = do
  orders ← orders_at side price b
  rest ← unaggregated side b items
  some (record { price = price; orders = map level_order orders } ∷ rest)

unfoldable pub top_n_levels_for_side : Side → ℕ → OrderBook → Option (List UnaggregatedLevel)
unfolding unaggregated
top_n_levels_for_side side n b = unaggregated side b (take n (depth side b))

unfoldable pub top_n_levels : ℕ → OrderBook → Option UnaggregatedTopLevels
top_n_levels n b = do
  bids ← top_n_levels_for_side bid n b
  asks ← top_n_levels_for_side ask n b
  some (record { bids = bids; asks = asks })
