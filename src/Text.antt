-- ===== src/Text.antt =====
-- Texts as lists of bytes, and the decimal forms of numbers that Rust's `parse` and `to_string`
-- read and write.
pub mod Decimal
use Prim.Native.Char.{code}
use Prim.Native.String.{String}
use l4_book.Prelude.{
  ℕ, zero, suc, ◌+◌, ◌-◌, ◌*◌, ◌/◌, ◌%◌, List, [], ◌∷◌, ◌++◌, Option, none, some, ◌>>=◌, Bool, true,
  false, ◌&&◌, ◌==◌, ltb, leb, if◌then◌else◌, length, u64_mod,
}

-- The bytes of a literal in ASCII.
abbrev pub codes : String → List ℕ
codes String.[] = []
codes (String.◌∷◌ c s) = code c ∷ codes s

unfoldable pub same_text : List ℕ → List ℕ → Bool
same_text [] [] = true
same_text [] (d ∷ t) = false
same_text (c ∷ s) [] = false
same_text (c ∷ s) (d ∷ t) = c == d && same_text s t

abbrev pub is_digit : ℕ → Bool
is_digit c = leb b'0' c && leb c b'9'

-- `none` where the number does not fit into a `u64`.
abbrev pub checked : ℕ → Option ℕ
checked n = if ltb n u64_mod then some n else none

unfoldable pub parse_digits : ℕ → List ℕ → Option ℕ
parse_digits n [] = some n
parse_digits n (c ∷ s) =
    if is_digit c then (checked (n * 10 + (c - b'0')) >>= λ n'. parse_digits n' s) else none

-- `str::parse::<u64>`: digits, at least one, and perhaps a plus sign before them.
unfoldable pub parse_unsigned : List ℕ → Option ℕ
unfolding parse_digits
parse_unsigned [] = none
parse_unsigned (c ∷ s) = parse_digits 0 (c ∷ s)

unfoldable pub parse_u64 : List ℕ → Option ℕ
unfolding parse_unsigned
parse_u64 [] = none
parse_u64 (c ∷ s) = if c == b'+' then parse_unsigned s else parse_unsigned (c ∷ s)

-- At most `fuel` digits of a number; a `u128` has at most 39.
unfoldable pub decimal_digits : ℕ → ℕ → List ℕ
decimal_digits zero n = []
decimal_digits (suc fuel) n =
    let rest = decimal_digits fuel (n / 10) in
    if ltb n 10 then (b'0' + n) ∷ [] else rest ++ (b'0' + n % 10) ∷ []

unfoldable pub to_string : ℕ → List ℕ
unfolding decimal_digits
to_string = decimal_digits 39
