-- ===== src/Text/Decimal.antt =====
-- Decimal digits: what they are worth, and that a number is read back from its digits.
use l4_book.Prelude.{
  ℕ, zero, suc, ◌+◌, ◌-◌, ◌*◌, ◌/◌, ◌%◌, ◌≤◌, ◌<◌, ◌≡◌, ◌≢◌, refl, List, [], ◌∷◌, ◌++◌, some, arith,
  length, length-append, u64_mod, true, false, ltb, lt→ltb, Bool-cases, inl, inr, ◌==◌,
}
use l4_book.Text.{is_digit, parse_digits, parse_unsigned, parse_u64, decimal_digits}

abbrev pub pow10 : ℕ → ℕ
pow10 zero = 1
pow10 (suc n) = 10 * pow10 n

pub pow10-pos : (n : ℕ) → 0 < pow10 n
pow10-pos zero = omega arith
pow10-pos (suc n) = omega (arith, pow10-pos n)

pub pow10_mono : (m n : ℕ) → m ≤ n → pow10 m ≤ pow10 n
pow10_mono zero n h = omega (arith, pow10-pos n)
pow10_mono (suc m) zero h = absurd (omega arith)
pow10_mono (suc m) (suc n) h = omega (arith, pow10_mono m n (omega arith))

-- The value of digits behind a number.
abbrev pub num : ℕ → List ℕ → ℕ
num n [] = n
num n (c ∷ s) = num (n * 10 + (c - b'0')) s

abbrev pub AreDigits : List ℕ → Type 0
AreDigits [] = Unit {0}
AreDigits (c ∷ s) = (is_digit c ≡ true) × AreDigits s

pub num-append : (n : ℕ) (s t : List ℕ) → num n (s ++ t) ≡ num (num n s) t
num-append n [] t = refl
num-append n (c ∷ s) t = num-append (n * 10 + (c - b'0')) s t

pub AreDigits-append : (s t : List ℕ) → AreDigits s → AreDigits t → AreDigits (s ++ t)
AreDigits-append [] t h k = k
AreDigits-append (c ∷ s) t h k = (h.0, AreDigits-append s t h.1 k)

pub num-le : (n : ℕ) (s : List ℕ) → n ≤ num n s
num-le n [] = omega arith
num-le n (c ∷ s) = omega (arith, num-le (n * 10 + (c - b'0')) s)

pub digit-is_digit : (d : ℕ) → d < 10 → is_digit (b'0' + d) ≡ true
digit-is_digit d h = ground arith

-- Below 10^`fuel` the digits are those of the number.
pub num-decimal_digits : (fuel n : ℕ) → n < pow10 fuel → num 0 (decimal_digits fuel n) ≡ n
unfolding decimal_digits
num-decimal_digits zero n h = omega arith
num-decimal_digits (suc fuel) n h = elim (Bool-cases (ltb n 10)) [
  | inl small ↦ rw small (omega arith)
  | inr big ↦
      rw
        (
          big,
          num-append 0 (decimal_digits fuel (n / 10)) ((b'0' + n % 10) ∷ []),
          num-decimal_digits fuel (n / 10) (omega arith),
        )
        (omega arith)
]

pub decimal_digits-AreDigits : (fuel n : ℕ) → AreDigits (decimal_digits fuel n)
unfolding decimal_digits
decimal_digits-AreDigits zero n = tt
decimal_digits-AreDigits (suc fuel) n = elim (Bool-cases (ltb n 10)) [
  | inl small ↦ rw small (digit-is_digit n (ground arith), tt)
  | inr big ↦ rw big (
      AreDigits-append (decimal_digits fuel (n / 10)) ((b'0' + n % 10) ∷ [])
        (decimal_digits-AreDigits fuel (n / 10)) (digit-is_digit (n % 10) (omega arith), tt))
]

-- A number below 10^`w` has at most `w` digits, and one digit at least.
pub length-decimal_digits :
    (fuel n w : ℕ) → n < pow10 (suc w) → length (decimal_digits fuel n) ≤ suc w
unfolding decimal_digits
length-decimal_digits zero n w h = omega arith
length-decimal_digits (suc fuel) n zero h = rw (lt→ltb n 10 (omega arith)) (omega arith)
length-decimal_digits (suc fuel) n (suc w) h = elim (Bool-cases (ltb n 10)) [
  | inl small ↦ rw small (omega arith)
  | inr big ↦
      rw (big, length-append (decimal_digits fuel (n / 10)) ((b'0' + n % 10) ∷ []))
        (omega (arith, length-decimal_digits fuel (n / 10) w (omega arith)))
]

pub parse_digits-num :
    (n : ℕ) (s : List ℕ) → AreDigits s → num n s < u64_mod → parse_digits n s ≡ some (num n s)
unfolding parse_digits
parse_digits-num n [] d h = refl
parse_digits-num n (c ∷ s) d h =
    let n' = n * 10 + (c - b'0') in ground (arith, num-le n' s, parse_digits-num n' s d.1)

digit_not_plus : (c : ℕ) → is_digit c ≡ true → (c == b'+') ≡ false
digit_not_plus c h = ground arith

pub parse_u64-num :
    (s : List ℕ) → s ≢ [] → AreDigits s → num 0 s < u64_mod → parse_u64 s ≡ some (num 0 s)
unfolding parse_u64 parse_unsigned
parse_u64-num [] ne d h = absurd (ne refl)
parse_u64-num (c ∷ s) ne d h = rw (digit_not_plus c d.0) (parse_digits-num 0 (c ∷ s) d h)
