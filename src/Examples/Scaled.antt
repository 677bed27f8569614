-- ===== src/Examples/Scaled.antt =====
-- examples/dwellir_debug_log_sp500.rs: `fmt_scaled`, which prints a fixed-point number.
pub mod RoundTrip
mod Tests
use l4_book.Prelude.{
  ℕ, zero, suc, ◌-◌, ◌/◌, ◌%◌, List, [], ◌∷◌, ◌++◌, Bool, true, false, ◌&&◌, ◌==◌, if◌then◌else◌,
  length,
}
use l4_book.Text.{to_string}
use l4_book.Text.Decimal.{pow10}

unfoldable pub zeros : ℕ → List ℕ
zeros zero = []
zeros (suc n) = b'0' ∷ zeros n

-- `format!("{frac:0width$}")`: zeros before the digits, up to the width.
unfoldable pub pad_left : ℕ → List ℕ → List ℕ
unfolding zeros
pad_left width s = zeros (width - length s) ++ s

abbrev pub is_empty : List ℕ → Bool
is_empty [] = true
is_empty (c ∷ s) = false

-- The loop that pops the zeros at the end.
unfoldable pub pop_zeros : List ℕ → List ℕ
pop_zeros [] = []
pop_zeros (c ∷ s) = let rest = pop_zeros s in if c == b'0' && is_empty rest then [] else c ∷ rest

unfoldable pub join_point : List ℕ → List ℕ → List ℕ
join_point int [] = int
join_point int (c ∷ frac) = int ++ b'.' ∷ (c ∷ frac)

unfoldable pub fmt_scaled : ℕ → ℕ → List ℕ
unfolding pad_left pop_zeros join_point
fmt_scaled value digits =
    let scale = pow10 digits in
    if digits == 0
    then to_string value
    else join_point (to_string (value / scale))
        (pop_zeros (pad_left digits (to_string (value % scale))))
