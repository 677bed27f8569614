-- ===== src/Book/Growth/Room.antt =====
-- Fills leave room in the book.
use l4_book.Prelude.{ℕ, ◌≡◌, List, Option, none, arith, length, set, inl, inr}
use l4_book.Types.{Order, OrderId, Price, Qty, Side, FillDelta}
use l4_book.Containers.TreeMap
use l4_book.Slab.{Slab, node_at, update_node, unlink}
use l4_book.Slab.Length.{length-update_node}
use l4_book.Book.{OrderBook, Run, remove_slot, set_qty, shrink_slot, levels_of, with_levels}
use l4_book.Book.Alloc.{HasRoom}
use l4_book.Book.Growth.Frames.{
  Holds, HoldsAfter, found-HoldsAfter, linked-HoldsAfter, apply_fills-Holds,
  apply_taker_order-Holds,
}
use l4_book.Book.Taker.{apply_fills, apply_taker_order}

-- The book of the result has room.
abbrev pub Roomy : {A : Type 0} → Run A → Type 0
Roomy r = Holds HasRoom r

abbrev LeavesRoom : {A : Type 0} → Option (A × OrderBook) → Type 0
LeavesRoom r = HoldsAfter HasRoom r

remove_slot-LeavesRoom :
    (id : OrderId) (slot : ℕ) (b : OrderBook) → LeavesRoom (remove_slot id slot b)
unfolding remove_slot with_levels
remove_slot-LeavesRoom id slot b = found-HoldsAfter HasRoom (node_at b.slab slot) _ λ node _.
    found-HoldsAfter HasRoom (TreeMap.get node.order.price (levels_of node.order.side b)) _
      λ level _.
        linked-HoldsAfter HasRoom (unlink (set b.slab slot none) _ node.prev node.next) _
          (λ s l. inl (λ e. cc e))

HasRoom-slab :
    (b : OrderBook) (slab : Slab)
    → length slab ≡ length b.slab
    → HasRoom b
    → HasRoom (record b { slab = slab })
HasRoom-slab b slab same (inl freed) = inl freed
HasRoom-slab b slab same (inr short) = inr (omega arith)

shrink_slot-LeavesRoom :
    (slot : ℕ) (o : Order) (n : Qty) (b : OrderBook)
    → HasRoom b
    → LeavesRoom (shrink_slot slot o n b)
unfolding shrink_slot with_levels
shrink_slot-LeavesRoom slot o n b room =
    found-HoldsAfter HasRoom (update_node b.slab slot (set_qty n)) _ λ slab e.
      found-HoldsAfter HasRoom (TreeMap.get o.price (levels_of o.side b)) _
        λ level _. HasRoom-slab b slab (length-update_node b.slab slot (set_qty n) e) room

-- Fills leave room in the book.
pub apply_fills-Roomy :
    (fills : List FillDelta) (b : OrderBook) → HasRoom b → Roomy (apply_fills fills b)
apply_fills-Roomy =
    apply_fills-Holds HasRoom (λ id slot b room. remove_slot-LeavesRoom id slot b)
      shrink_slot-LeavesRoom

-- And so does taking liquidity.
pub apply_taker_order-Roomy :
    (side : Side) (qty : Qty) (limit : Price) (b : OrderBook)
    → HasRoom b
    → Roomy (apply_taker_order side qty limit b)
apply_taker_order-Roomy =
    apply_taker_order-Holds HasRoom (λ id slot b room. remove_slot-LeavesRoom id slot b)
      shrink_slot-LeavesRoom
