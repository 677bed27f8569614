-- ===== src/Slab.antt =====
-- The slot arena of src/book.rs and the price levels of src/level.rs: `Vec<Option<OrderNode>>`,
-- `Level`, and the functions that stitch slots into the doubly linked list of a level.
-- In this file `none` as the result of an operation is a panic.
pub mod Laws
pub mod Chain
mod Tests
pub mod Links
pub mod Cells
pub mod Length
use l4_book.Prelude.{
  ℕ, zero, suc, List, [], ◌∷◌, Option, none, some, ◌>>=◌, set, ◌==◌, if◌then◌else◌, is_some, length,
  ltb, Bool, false,
}
use l4_book.Types.{Order, Qty}

pub record Level : Type 0 where
  pub order_count : ℕ
  pub total_qty : Qty
  pub head : Option ℕ
  pub tail : Option ℕ

unfoldable pub new_level : Level
new_level = record { order_count = 0; total_qty = 0; head = none; tail = none }

pub record OrderNode : Type 0 where
  pub order : Order
  pub next : Option ℕ
  pub prev : Option ℕ

unfoldable pub new_node : Order → OrderNode
new_node order = record { order = order; next = none; prev = none }

abbrev pub Slab : Type 0
Slab = List (Option OrderNode)

-- `slab[slot].as_ref().expect(…)`
unfoldable pub node_at : Slab → ℕ → Option OrderNode
node_at [] i = none
node_at (x ∷ xs) zero = x
node_at (x ∷ xs) (suc i) = node_at xs i

-- `slab[slot] = node`
unfoldable pub write_slot : Slab → ℕ → Option OrderNode → Option Slab
write_slot slab i v = if ltb i (length slab) then some (set slab i v) else none

-- A change of one field through `slab[slot].as_mut().expect(…)`.
unfoldable pub update_node : Slab → ℕ → (OrderNode → OrderNode) → Option Slab
update_node slab i f = do n ← node_at slab i; some (set slab i (some (f n)))

unfoldable pub link_tail : Slab → Level → ℕ → Option (Slab × Level)
link_tail slab level slot = elim level.tail [
  | some old_tail ↦ do
    slab ← update_node slab old_tail (λ n. record n { next = some slot })
    slab ← update_node slab slot (λ n. record n { prev = some old_tail })
    some (slab, record level { tail = some slot })
  | none ↦ some (slab, record level { head = some slot; tail = some slot })
]

-- The two halves of `unlink`: the link from before, and the link from behind.
unfoldable pub relink_prev : Slab → Level → Option ℕ → Option ℕ → Option (Slab × Level)
relink_prev slab level none next = some (slab, record level { head = next })
relink_prev slab level (some p) next = do
  slab ← update_node slab p (λ n. record n { next = next })
  some (slab, level)

unfoldable pub relink_next : Slab → Level → Option ℕ → Option ℕ → Option (Slab × Level)
relink_next slab level prev none = some (slab, record level { tail = prev })
relink_next slab level prev (some q) = do
  slab ← update_node slab q (λ n. record n { prev = prev })
  some (slab, level)

unfoldable pub unlink : Slab → Level → Option ℕ → Option ℕ → Option (Slab × Level)
unlink slab level prev next = do
  (slab, level) ← relink_prev slab level prev next
  relink_next slab level prev next

-- `opt == Some(slot)`
unfoldable pub eq_some : Option ℕ → ℕ → Bool
eq_some none slot = false
eq_some (some t) slot = t == slot

unfoldable pub move_to_tail : Slab → Level → ℕ → Option (Slab × Level)
unfolding eq_some
move_to_tail slab level slot = if eq_some level.tail slot then some (slab, level) else do
  node ← node_at slab slot
  (slab, level) ← unlink slab level node.prev node.next
  slab ← update_node slab slot (λ n. record n { prev = none; next = none })
  link_tail slab level slot
