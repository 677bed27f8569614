-- ===== src/Dwellir/Fixed.antt =====
-- src/dwellir.rs: `parse_fixed`, which reads a decimal text as a fixed-point `u64`.
pub mod Digits
use l4_book.Prelude.{
  ℕ, zero, suc, ◌+◌, ◌-◌, ◌*◌, ◌%◌, List, [], ◌∷◌, Option, none, some, ◌>>=◌, Bool, ◌==◌, leb,
  if◌then◌else◌, u64_mod, add_u64,
}
use l4_book.Text.{is_digit, checked, parse_u64}
use l4_book.Text.Decimal.{pow10}

-- `split_once('.')`, or the whole text and the empty text.
unfoldable pub split_point : List ℕ → List ℕ × List ℕ
split_point [] = ([], [])
split_point (c ∷ s) =
    let (int_part, frac_part) = split_point s in
    if c == b'.' then ([], s) else (c ∷ int_part, frac_part)

-- The loop over the fraction: its value and the number of digits read. Digits beyond the scale are
-- not looked at.
unfoldable pub read_frac : ℕ → List ℕ → ℕ → ℕ → Option (ℕ × ℕ)
read_frac scale_digits [] frac digits = some (frac, digits)
read_frac scale_digits (b ∷ s) frac digits =
    let rest = read_frac scale_digits s (add_u64 (frac * 10 % u64_mod) (b - b'0')) (digits + 1) in
    if leb scale_digits digits then some (frac, digits) else if is_digit b then rest else none

-- The loop that scales the fraction up, for the digits that are missing.
unfoldable pub scale_up : ℕ → ℕ → Option ℕ
scale_up zero frac = some frac
scale_up (suc missing) frac = checked (frac * 10) >>= scale_up missing

unfoldable pub parse_parts : List ℕ → List ℕ → ℕ → Option ℕ
unfolding read_frac scale_up
parse_parts int_part frac_part scale_digits = do
  int ← parse_u64 int_part
  scale_mul ← checked (pow10 scale_digits)
  out ← checked (int * scale_mul)
  (frac, digits) ← read_frac scale_digits frac_part 0 0
  frac ← scale_up (scale_digits - digits) frac
  checked (out + frac)

unfoldable pub parse_fixed : List ℕ → ℕ → Option ℕ
unfolding split_point parse_parts
parse_fixed [] scale_digits = none
parse_fixed (c ∷ s) scale_digits =
    let (int_part, frac_part) = split_point (c ∷ s) in
    if c == b'-' then none else parse_parts int_part frac_part scale_digits
