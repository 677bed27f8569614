-- ===== src/Examples/Notional.antt =====
-- examples/dwellir_live_sp500.rs: the size that a notional amount buys at a price.
mod Tests
use l4_book.Prelude.{
  ℕ, suc, ◌+◌, ◌-◌, ◌*◌, ◌/◌, ◌%◌, ◌^◌, ◌≤◌, ◌<◌, ◌≡◌, ◌≢◌, refl, ap, sym, ◌∙◌, Option, none, some,
  ◌>>=◌, arith, min, if◌then◌else◌, ltb, lt→ltb, ◌==◌, ==_ne, u64_mod, ◌⊎◌, inl, inr, lt-or-ge,
}
use native.Mathlib.Nat.{div-add-mod', mod-lt}
use l4_book.Types.{Price, Qty}
use l4_book.Text.Decimal.{pow10}
use l4_book.Dwellir.Types.{Scales}

-- `none` where the number does not fit into a `u128`.
abbrev checked_u128 : ℕ → Option ℕ
checked_u128 n = if ltb n (2 ^ 128) then some n else none

checked_u128-some : (n : ℕ) → n < 2 ^ 128 → checked_u128 n ≡ some n
checked_u128-some n h = rw (lt→ltb n (2 ^ 128) h) refl

unfoldable pub qty_for_notional : ℕ → Price → Scales → Option Qty
qty_for_notional notional_usd reference_price scales = if reference_price == 0 then none else (do
  price_scale ← checked_u128 (pow10 scales.price_digits)
  qty_scale ← checked_u128 (pow10 scales.qty_digits)
  scaled ← checked_u128 (notional_usd * price_scale)
  scaled ← checked_u128 (scaled * qty_scale)
  some (min (scaled / reference_price) (u64_mod - 1)))

min_eq : (d c : ℕ) → d < c → min d c ≡ d
min_eq d c less = omega arith

capped_le : (d p c n : ℕ) → d * p ≤ n → min d c * p ≤ n
capped_le d p c n h = elim (lt-or-ge d c) [
  | inl less ↦ omega (arith, ap (λ k. k * p) (min_eq d c less))
  | inr more ↦ grind arith
]

capped_largest : (d p c n : ℕ) → n < suc d * p → (min d c ≡ c) ⊎ (n < suc (min d c) * p)
capped_largest d p c n h = elim (lt-or-ge d c) [
  | inl less ↦ inr (omega (arith, h, ap (λ k. suc k * p) (min_eq d c less)))
  | inr more ↦ inl (omega arith)
]

-- At a positive price, if nothing overflows a `u128`, the size is a `u64`, it costs no more than the
-- amount, and one unit more would, unless the size is the largest there is.
pub qty_for_notional-largest :
    (notional price : ℕ) (scales : Scales)
    → 0 < price
    → pow10 scales.price_digits < 2 ^ 128
    → pow10 scales.qty_digits < 2 ^ 128
    → notional * pow10 scales.price_digits < 2 ^ 128
    → notional * pow10 scales.price_digits * pow10 scales.qty_digits < 2 ^ 128
    → (qty : Qty) × (qty_for_notional notional price scales ≡ some qty)
      × (qty < u64_mod)
      × (qty * price ≤ notional * pow10 scales.price_digits * pow10 scales.qty_digits)
      × ((qty ≡ u64_mod - 1)
          ⊎ (notional * pow10 scales.price_digits * pow10 scales.qty_digits < suc qty * price))
unfolding qty_for_notional
qty_for_notional-largest notional price scales pos ps qs first second =
    let amount = notional * pow10 scales.price_digits * pow10 scales.qty_digits in
    let d = amount / price in
    let sum : d * price + amount % price ≡ amount = div-add-mod' amount price in
    let below : amount % price < price = mod-lt amount pos in
    (
      min d (u64_mod - 1),
      rw
          (
            ==_ne price 0 (omega arith),
            checked_u128-some (pow10 scales.price_digits) ps,
            checked_u128-some (pow10 scales.qty_digits) qs,
            checked_u128-some (notional * pow10 scales.price_digits) first,
            checked_u128-some amount second,
          )
          refl,
      omega arith,
      capped_le d price (u64_mod - 1) amount (omega arith),
      capped_largest d price (u64_mod - 1) amount (grind arith),
    )
