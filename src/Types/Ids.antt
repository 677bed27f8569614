-- ===== src/Types/Ids.antt =====
-- src/types.rs: the namespace of synthetic order identifiers, the highest bit of a `u64`.
use l4_book.Prelude.{ℕ, ◌^◌, ◌==◌, Bool, not, Option, none, some, if◌then◌else◌}
use Prim.Native.Nat.{bit_and, bit_or}
use l4_book.Types.{OrderId}

abbrev pub synthetic_order_id_flag : ℕ
synthetic_order_id_flag = 2 ^ 63

unfoldable pub is_synthetic_order_id : OrderId → Bool
is_synthetic_order_id id = not (bit_and id synthetic_order_id_flag == 0)

unfoldable pub synthetic_order_id : ℕ → Option OrderId
unfolding is_synthetic_order_id
synthetic_order_id local_id =
    if is_synthetic_order_id local_id then none else some (bit_or local_id synthetic_order_id_flag)
