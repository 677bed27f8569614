-- ===== src/Book/Checks.antt =====
-- src/book.rs: `assert_invariants`, the check of debug builds. A test that fails is a panic.
pub mod Counts
pub mod Passes
mod Tests
use l4_book.Prelude.{
  ℕ, zero, suc, ◌+◌, List, [], ◌∷◌, Option, none, some, ◌>>=◌, Bool, true, false, ◌&&◌, ◌==◌, ltb,
  if◌then◌else◌, length, u64_mod,
}
use l4_book.Types.{Qty, Side, bid, ask, Price}
use l4_book.Slab.{Slab, Level, OrderNode, node_at}
use l4_book.Book.{OrderBook, Levels}

-- The variables of the walk along one level.
pub record Walk : Type 0 where
  pub count : ℕ
  pub qty : Qty
  pub last : Option ℕ

abbrev pub walk_start : Walk
walk_start = record { count = 0; qty = 0; last = none }

abbrev pub eq_side : Side → Side → Bool
eq_side bid bid = true
eq_side bid ask = false
eq_side ask bid = false
eq_side ask ask = true

abbrev pub eq_slot : Option ℕ → Option ℕ → Bool
eq_slot none none = true
eq_slot none (some j) = false
eq_slot (some i) none = false
eq_slot (some i) (some j) = i == j

-- The body of the loop. In a debug build the sum of the sizes may not overflow.
unfoldable pub visit_node : Side → Price → ℕ → OrderNode → Walk → Option Walk
visit_node side price slot node w =
    if eq_side node.order.side side
      && node.order.price == price
      && ltb (w.qty + node.order.qty) u64_mod
    then some (record { count = w.count + 1; qty = w.qty + node.order.qty; last = some slot })
    else none

-- The loop along the list, with the number of slots as fuel.
unfoldable pub walk : ℕ → Slab → Side → Price → Option ℕ → Walk → Option Walk
unfolding visit_node
walk fuel slab side price none w = some w
walk zero slab side price (some slot) w = none
walk (suc fuel) slab side price (some slot) w = do
  node ← node_at slab slot
  w ← visit_node side price slot node w
  walk fuel slab side price node.next w

unfoldable pub level_agrees : Level → Option Walk → Bool
level_agrees level none = false
level_agrees level (some w) =
    level.order_count == w.count && level.total_qty == w.qty && eq_slot level.tail w.last

unfoldable pub check_levels : Slab → Side → Levels → Bool
unfolding walk level_agrees
check_levels slab side [] = true
check_levels slab side ((price, level) ∷ levels) =
    level_agrees level (walk (length slab) slab side price level.head walk_start)
    && check_levels slab side levels

-- `slab.iter().filter(|s| s.is_some()).count()`
unfoldable pub count_live : Slab → ℕ
count_live [] = 0
count_live (none ∷ slab) = count_live slab
count_live (some node ∷ slab) = suc (count_live slab)

unfoldable pub assert_invariants : OrderBook → Bool
unfolding check_levels count_live
assert_invariants b =
    check_levels b.slab bid b.bids
    && check_levels b.slab ask b.asks
    && length b.order_index == count_live b.slab
