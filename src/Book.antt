-- ===== src/Book.antt =====
-- src/book.rs: the order book, its mutations and the way they fail.
pub mod Sample
mod Tests
pub mod Invariant
pub mod Wallets
pub mod Alloc
pub mod Add
pub mod Located
pub mod Remove
pub mod Requeue
pub mod Resize
pub mod Rewrite
pub mod Amend
pub mod Ops
pub mod Walks
pub mod Matched
pub mod Best
pub mod Submitted
pub mod Snapshots
pub mod Taken
pub mod Taking
pub mod Checks
pub mod Depths
pub mod Drained
pub mod Estimated
pub mod Growth
pub mod Preserved
pub mod Priority
pub mod Rebuild
pub mod Settled
pub mod Kept
pub mod Resting
pub mod Reported
pub mod Queries
pub mod Slippage
pub mod Taker
pub mod Replay
use l4_book.Prelude.{
  ℕ, List, [], ◌∷◌, ◌++◌, Option, none, some, ◌>>=◌, ◌==◌, if◌then◌else◌, length, ltb, leb, Bool,
  true, false, add_u64, sub_u64, set, ℕ_discrete, ◌-◌, ◌+◌, ◌^◌,
}
use l4_book.Types.{
  Order, OrderId, WalletId, Price, Qty, Side, bid, ask, BookError, duplicate_order_id,
  unknown_order_id, zero_qty, non_decreasing_size, AmendPriorityPolicy, preserve,
  lose_priority_on_increase, WalletId-discrete,
}
use l4_book.Containers.HashMap
use l4_book.Containers.TreeMap
use l4_book.Slab.{
  Slab, Level, new_level, OrderNode, new_node, node_at, write_slot, update_node, link_tail, unlink,
  move_to_tail,
}

abbrev pub Levels : Type 0
Levels = List (ℕ × Level)

-- The head of `free_list` is the back of the vector.
pub record OrderBook : Type 0 where
  pub slab : Slab
  pub free_list : List ℕ
  pub order_index : List (OrderId × ℕ)
  pub bids : Levels
  pub asks : Levels
  pub wallet_index : List (WalletId × List OrderId)

-- `new`, and what `clear` leaves.
unfoldable pub new_book : OrderBook
new_book = record {
  slab = [];
  free_list = [];
  order_index = [];
  bids = [];
  asks = [];
  wallet_index = [];
}

unfoldable pub clear : OrderBook → OrderBook
clear b = record b {
  slab = [];
  free_list = [];
  order_index = [];
  bids = [];
  asks = [];
  wallet_index = [];
}

unfoldable pub len : OrderBook → ℕ
len b = length b.order_index

unfoldable pub is_empty : OrderBook → Bool
is_empty b = length b.order_index == 0

unfoldable pub slab_len : OrderBook → ℕ
slab_len b = length b.slab

-- What a call that takes `&mut self` comes to: a value or an error, with the book that it leaves;
-- or a panic.
pub data Run (A : Type 0) : Type 0 where
  ok : A → OrderBook → Run A
  err : BookError → OrderBook → Run A
  panic : Run A

abbrev pub run_or_panic : {A : Type 0} → Option (A × OrderBook) → Run A
run_or_panic none = panic
run_or_panic (some (a, b)) = ok a b

-- `result?`, and `result.map(|_| ())`
abbrev pub and_then : {A B : Type 0} → Run A → (A → OrderBook → Run B) → Run B
and_then (ok a b) k = k a b
and_then (err e b) k = err e b
and_then panic k = panic

abbrev pub discard : {A : Type 0} → Run A → Run (Unit {0})
discard r = and_then r (λ _ b. ok tt b)

-- `match side { Side::Bid => &mut self.bids, Side::Ask => &mut self.asks }`
unfoldable pub levels_of : Side → OrderBook → Levels
levels_of side b = elim side [ bid ↦ b.bids | ask ↦ b.asks ]

unfoldable pub with_levels : Side → Levels → OrderBook → OrderBook
with_levels side l b = record b {
  bids = elim side [ bid ↦ l | ask ↦ b.bids ];
  asks = elim side [ bid ↦ b.asks | ask ↦ l ];
}

-- A vector holds at most `isize::MAX` bytes, so at most as many slots; a push beyond that panics.
abbrev pub max_slots : ℕ
max_slots = 2 ^ 63 - 1

unfoldable pub alloc_slot : OrderBook → Option (ℕ × OrderBook)
alloc_slot b = elim b.free_list [
  | slot ∷ rest ↦ some (slot, record b { free_list = rest })
  | [] ↦
      if ltb (length b.slab) max_slots
      then some (length b.slab, record b { slab = b.slab ++ none ∷ [] })
      else none
]

unfoldable pub or_new : Option Level → Level
unfolding new_level
or_new none = new_level
or_new (some level) = level

unfoldable pub or_empty : Option (List OrderId) → List OrderId
or_empty none = []
or_empty (some s) = s

unfoldable pub wallet_insert :
    WalletId → OrderId → List (WalletId × List OrderId) → List (WalletId × List OrderId)
unfolding or_empty
wallet_insert w id m =
    HashMap.insert WalletId-discrete w
      (HashMap.set_insert ℕ_discrete id (or_empty (HashMap.get WalletId-discrete w m))) m

unfoldable pub wallet_remove :
    WalletId → OrderId → List (WalletId × List OrderId) → List (WalletId × List OrderId)
wallet_remove w id m = elim (HashMap.get WalletId-discrete w m) [
  | none ↦ m
  | some s ↦ elim (HashMap.set_remove ℕ_discrete id s) [
    | [] ↦ HashMap.remove WalletId-discrete w m
    | x ∷ xs ↦ HashMap.insert WalletId-discrete w (x ∷ xs) m
  ]
]

-- `add` after its two checks.
unfoldable pub insert_order : Order → OrderBook → Option OrderBook
unfolding or_new
insert_order order b = do
  (slot, b) ← alloc_slot b
  slab ← write_slot b.slab slot (some (new_node order))
  let levels = levels_of order.side b
  let level = or_new (TreeMap.get order.price levels)
  (slab, level) ←
      link_tail slab
        (record level {
          order_count = add_u64 level.order_count 1;
          total_qty = add_u64 level.total_qty order.qty;
        })
        slot
  some (
      with_levels order.side (TreeMap.insert order.price level levels) (record b {
        slab = slab;
        order_index = HashMap.insert ℕ_discrete order.id slot b.order_index;
        wallet_index = wallet_insert order.wallet order.id b.wallet_index;
      }))

unfoldable pub add : Order → OrderBook → Run (Unit {0})
add order b =
    if order.qty == 0
    then err zero_qty b
    else if HashMap.contains_key ℕ_discrete order.id b.order_index
    then err (duplicate_order_id order.id) b
    else run_or_panic (do b ← insert_order order b; some (tt, b))

-- `remove` once the slot of the order is known.
unfoldable pub remove_slot : OrderId → ℕ → OrderBook → Option (Order × OrderBook)
remove_slot id slot b = do
  node ← node_at b.slab slot
  let order = node.order
  let levels = levels_of order.side b
  level ← TreeMap.get order.price levels
  (slab, level) ←
      unlink (set b.slab slot none)
        (record level {
          order_count = sub_u64 level.order_count 1;
          total_qty = sub_u64 level.total_qty order.qty;
        })
        node.prev node.next
  some (
    order,
    with_levels order.side
        (if level.order_count == 0
          then TreeMap.remove order.price levels
          else TreeMap.insert order.price level levels)
        (record b {
          slab = slab;
          free_list = slot ∷ b.free_list;
          order_index = HashMap.remove ℕ_discrete id b.order_index;
          wallet_index = wallet_remove order.wallet id b.wallet_index;
        }),
  )

unfoldable pub remove : OrderId → OrderBook → Run Order
remove id b = elim (HashMap.get ℕ_discrete id b.order_index) [
  | none ↦ err (unknown_order_id id) b
  | some slot ↦ run_or_panic (remove_slot id slot b)
]

-- The write of a new size to a slot, and of a new total to its level.
unfoldable pub set_qty : Qty → OrderNode → OrderNode
set_qty new_qty n = record n { order = record n.order { qty = new_qty } }

unfoldable pub shrink_slot : ℕ → Order → Qty → OrderBook → Option (Unit {0} × OrderBook)
unfolding set_qty
shrink_slot slot order new_qty b = do
  slab ← update_node b.slab slot (set_qty new_qty)
  let levels = levels_of order.side b
  level ← TreeMap.get order.price levels
  let level = record level { total_qty = sub_u64 level.total_qty (order.qty - new_qty) }
  some (
    tt,
    with_levels order.side (TreeMap.insert order.price level levels) (record b { slab = slab }),
  )

unfoldable pub update_size_at : OrderId → ℕ → Qty → OrderBook → Option OrderNode → Run (Unit {0})
update_size_at id slot new_qty b none = panic
update_size_at id slot new_qty b (some node) =
    if leb node.order.qty new_qty
    then err (non_decreasing_size node.order.qty new_qty) b
    else if new_qty == 0
    then discard (remove id b)
    else run_or_panic (shrink_slot slot node.order new_qty b)

unfoldable pub update_size : OrderId → Qty → OrderBook → Run (Unit {0})
unfolding update_size_at
update_size id new_qty b = elim (HashMap.get ℕ_discrete id b.order_index) [
  | none ↦ err (unknown_order_id id) b
  | some slot ↦ update_size_at id slot new_qty b (node_at b.slab slot)
]

unfoldable pub resize_level :
    AmendPriorityPolicy → Slab → Level → ℕ → Qty → Qty → Option (Slab × Level)
resize_level policy slab level slot current new_qty =
    if ltb current new_qty
    then (let level = record level { total_qty = add_u64 level.total_qty (new_qty - current) } in
        elim policy [
          | preserve ↦ some (slab, level)
          | lose_priority_on_increase ↦ move_to_tail slab level slot
        ])
    else some (slab, record level { total_qty = sub_u64 level.total_qty (current - new_qty) })

unfoldable pub amend_slot :
    ℕ → Order → Qty → AmendPriorityPolicy → OrderBook → Option (Unit {0} × OrderBook)
unfolding set_qty resize_level
amend_slot slot order new_qty policy b = do
  slab ← update_node b.slab slot (set_qty new_qty)
  let levels = levels_of order.side b
  level ← TreeMap.get order.price levels
  (slab, level) ← resize_level policy slab level slot order.qty new_qty
  some (
    tt,
    with_levels order.side (TreeMap.insert order.price level levels) (record b { slab = slab }),
  )

unfoldable pub amend_size_at :
    ℕ → Qty → AmendPriorityPolicy → OrderBook → Option OrderNode → Run (Unit {0})
amend_size_at slot new_qty policy b none = panic
amend_size_at slot new_qty policy b (some node) =
    if node.order.qty == new_qty
    then ok tt b
    else run_or_panic (amend_slot slot node.order new_qty policy b)

unfoldable pub amend_size_with_policy :
    OrderId → Qty → AmendPriorityPolicy → OrderBook → Run (Unit {0})
unfolding amend_size_at
amend_size_with_policy id new_qty policy b =
    if new_qty == 0 then discard (remove id b) else elim (HashMap.get ℕ_discrete id b.order_index) [
      | none ↦ err (unknown_order_id id) b
      | some slot ↦ amend_size_at slot new_qty policy b (node_at b.slab slot)
    ]

unfoldable pub amend_size : OrderId → Qty → OrderBook → Run (Unit {0})
amend_size id new_qty = amend_size_with_policy id new_qty preserve
