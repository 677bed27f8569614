-- ===== src/Examples/Notional/Tests.antt =====
-- A thousand dollars at a price of 5000.
use l4_book.Prelude.{◌-◌, ◌*◌, ◌≤◌, ◌<◌, ◌≡◌, suc, some, arith, u64_mod, ◌⊎◌}
use l4_book.Types.{Qty}
use l4_book.Text.Decimal.{pow10}
use l4_book.Dwellir.Types.{btc_default}
use l4_book.Examples.Notional.{qty_for_notional, qty_for_notional-largest}

qty_for_notional-largest_example :
    (qty : Qty) × (qty_for_notional 1000 5000000000 btc_default ≡ some qty)
    × (qty < u64_mod)
    × (qty * 5000000000 ≤ 1000 * pow10 6 * pow10 8)
    × ((qty ≡ u64_mod - 1) ⊎ (1000 * pow10 6 * pow10 8 < suc qty * 5000000000))
qty_for_notional-largest_example =
    qty_for_notional-largest 1000 5000000000 btc_default (omega arith) (omega arith) (omega arith)
      (omega arith) (omega arith)
