-- ===== src/Book/Growth/Unknown.antt =====
-- An identifier that is new to the book stays new while a taker order is applied.
use l4_book.Prelude.{ℕ, ◌≡◌, ◌∙◌, none, set, ℕ_discrete, arith}
use l4_book.Types.{Order, OrderId, Price, Qty, Side}
use l4_book.Containers.HashMap
use l4_book.Containers.TreeMap
use l4_book.Slab.{node_at, update_node, unlink}
use l4_book.Book.{OrderBook, remove_slot, set_qty, shrink_slot, levels_of, with_levels}
use l4_book.Book.Growth.Frames.{
  Holds, HoldsAfter, found-HoldsAfter, linked-HoldsAfter, apply_taker_order-Holds,
}
use l4_book.Book.Taker.{apply_taker_order}

abbrev pub IsUnknown : OrderId → OrderBook → Type 0
IsUnknown id b = HashMap.get ℕ_discrete id b.order_index ≡ none

module _ (new : OrderId) where
  remove_slot-HoldsAfter :
      (id : OrderId) (slot : ℕ) (b : OrderBook)
      → IsUnknown new b
      → HoldsAfter (IsUnknown new) (remove_slot id slot b)
  unfolding remove_slot with_levels
  remove_slot-HoldsAfter id slot b unknown =
      found-HoldsAfter (IsUnknown new) (node_at b.slab slot) _ λ node _.
        found-HoldsAfter (IsUnknown new)
          (TreeMap.get node.order.price (levels_of node.order.side b)) _
          λ level _.
            linked-HoldsAfter (IsUnknown new) (unlink (set b.slab slot none) _ node.prev node.next)
              _ (λ s l. HashMap.get-remove ℕ_discrete id new b.order_index ∙ ground arith)

  shrink_slot-HoldsAfter :
      (slot : ℕ) (o : Order) (n : Qty) (b : OrderBook)
      → IsUnknown new b
      → HoldsAfter (IsUnknown new) (shrink_slot slot o n b)
  unfolding shrink_slot with_levels
  shrink_slot-HoldsAfter slot o n b unknown =
      found-HoldsAfter (IsUnknown new) (update_node b.slab slot (set_qty n)) _ λ slab e.
        found-HoldsAfter (IsUnknown new) (TreeMap.get o.price (levels_of o.side b)) _
          λ level _. unknown

  -- Taking liquidity makes no identifier known.
  pub apply_taker_order-IsUnknown :
      (side : Side) (qty : Qty) (limit : Price) (b : OrderBook)
      → IsUnknown new b
      → Holds (IsUnknown new) (apply_taker_order side qty limit b)
  apply_taker_order-IsUnknown =
      apply_taker_order-Holds (IsUnknown new) remove_slot-HoldsAfter shrink_slot-HoldsAfter
