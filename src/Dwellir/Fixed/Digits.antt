-- ===== src/Dwellir/Fixed/Digits.antt =====
-- `parse_fixed` on a number and a fraction that are written in digits.
use native.Mathlib.Nat.{zero-add}
use l4_book.Prelude.{
  ℕ, zero, suc, ◌+◌, ◌-◌, ◌*◌, ◌%◌, ◌≤◌, ◌<◌, ◌≡◌, ◌≢◌, refl, ap, ap₂, ◌∙◌, List, [], ◌∷◌, ◌++◌,
  some, >>=-eq-some, arith, length, true, false, ◌==◌, lt→ltb, leb, u64_mod, add_u64, Bool-cases,
  inl, inr,
}
use l4_book.Text.{is_digit, checked, parse_u64}
use l4_book.Text.Decimal.{pow10, pow10-pos, pow10_mono, num, AreDigits, parse_u64-num}
use l4_book.Dwellir.Fixed.{split_point, read_frac, scale_up, parse_parts, parse_fixed}

pub checked-lt : (n : ℕ) {v : ℕ} → checked n ≡ some v → v < u64_mod
checked-lt n h = ground arith

pub checked-some : (n : ℕ) → n < u64_mod → checked n ≡ some n
checked-some n h = rw (lt→ltb n u64_mod h) refl

-- A result is a `u64`: no operation of the reader wraps round in it.
pub parse_parts-lt :
    (int_part frac_part : List ℕ) (d : ℕ) {v : ℕ}
    → parse_parts int_part frac_part d ≡ some v
    → v < u64_mod
unfolding parse_parts
parse_parts-lt int_part frac_part d h =
    let (int, _, h₁) = >>=-eq-some (parse_u64 int_part) _ h in
    let (mul, _, h₂) = >>=-eq-some (checked (pow10 d)) _ h₁ in
    let (out, _, h₃) = >>=-eq-some (checked (int * mul)) _ h₂ in
    let (frac, _, h₄) = >>=-eq-some (read_frac d frac_part 0 0) _ h₃ in
    let (up, _, h₅) = >>=-eq-some (scale_up (d - frac.1) frac.0) _ h₄ in checked-lt (out + up) h₅

-- As many digits as the scale has room for are read without a loss.
read_frac-num :
    (scale : ℕ) (s : List ℕ) (frac digits : ℕ)
    → pow10 scale ≤ u64_mod
    → AreDigits s
    → digits + length s ≤ scale
    → frac < pow10 digits
    → read_frac scale s frac digits ≡ some (num frac s, digits + length s)
unfolding read_frac add_u64
read_frac-num scale [] frac digits small d room h = ap₂ (λ a b. some (a, b)) refl (omega arith)
read_frac-num scale (c ∷ s) frac digits small d room h =
    let n = frac * 10 + (c - b'0') in
    let below : n < pow10 (suc digits) = ground arith in
    let fits : pow10 (suc digits) ≤ pow10 scale = pow10_mono (suc digits) scale (omega arith) in
    let exact : add_u64 (frac * 10 % u64_mod) (c - b'0') ≡ n = omega arith in
    let more : leb scale digits ≡ false = ground arith in
    let rest = read_frac-num scale s n (suc digits) small d.1 (omega arith) below in
    let next : digits + 1 ≡ suc digits = omega arith in
    rw (more, d.0, exact, next) (rest ∙ ap (λ k. some (num n s, k)) (omega arith))

scale_up-mul : (k frac : ℕ) → frac * pow10 k < u64_mod → scale_up k frac ≡ some (frac * pow10 k)
unfolding scale_up
scale_up-mul zero frac h = ap some (omega arith)
scale_up-mul (suc k) frac h =
    let small : frac * 10 < u64_mod = grind (arith, pow10-pos k) in
    let assoc : frac * (10 * pow10 k) ≡ frac * 10 * pow10 k = grind arith in
    rw (checked-some (frac * 10) small, assoc) (scale_up-mul k (frac * 10) (omega arith))

-- The digits beyond the scale do not count.
read_frac-truncates :
    (scale : ℕ) (s t : List ℕ) (frac digits : ℕ)
    → digits + length s ≡ scale
    → AreDigits s
    → read_frac scale (s ++ t) frac digits ≡ read_frac scale s frac digits
unfolding read_frac
read_frac-truncates scale [] [] frac digits e d = refl
read_frac-truncates scale [] (b ∷ t) frac digits e d =
    let full : leb scale digits ≡ true = ground arith in rw full refl
read_frac-truncates scale (c ∷ s) t frac digits e d =
    let more : leb scale digits ≡ false = ground arith in
    rw (more, d.0)
      (read_frac-truncates scale s t (add_u64 (frac * 10 % u64_mod) (c - b'0')) (digits + 1)
        (omega arith) d.1)

-- The fixed-point value of the digits `is` before the point and `fs` behind it.
abbrev pub fixed_value : List ℕ → List ℕ → ℕ → ℕ
fixed_value is fs d = num 0 is * pow10 d + num 0 fs * pow10 (d - length fs)

pub parse_parts-fixed_value :
    (is fs : List ℕ) (d : ℕ)
    → is ≢ []
    → AreDigits is
    → AreDigits fs
    → length fs ≤ d
    → pow10 d < u64_mod
    → fixed_value is fs d < u64_mod
    → parse_parts is fs d ≡ some (fixed_value is fs d)
unfolding parse_parts
parse_parts-fixed_value is fs d ne di df few small fits =
    let int_le : num 0 is ≤ num 0 is * pow10 d = grind (arith, pow10-pos d) in
    rw
      (
        parse_u64-num is ne di (omega arith),
        checked-some (pow10 d) small,
        checked-some (num 0 is * pow10 d) (omega arith),
        read_frac-num d fs 0 0 (omega arith) df (omega arith) (omega arith),
        zero-add (length fs),
        scale_up-mul (d - length fs) (num 0 fs) (omega arith),
      )
      (checked-some (fixed_value is fs d) fits)

split_point-point : (s t : List ℕ) → AreDigits s → split_point (s ++ b'.' ∷ t) ≡ (s, t)
unfolding split_point
split_point-point [] t d = refl
split_point-point (c ∷ s) t d =
    let other : (c == b'.') ≡ false = ground arith in rw (other, split_point-point s t d.1) refl

split_point-digits : (s : List ℕ) → AreDigits s → split_point s ≡ (s, [])
unfolding split_point
split_point-digits [] d = refl
split_point-digits (c ∷ s) d =
    let other : (c == b'.') ≡ false = ground arith in rw (other, split_point-digits s d.1) refl

digit_not_minus : (c : ℕ) → is_digit c ≡ true → (c == b'-') ≡ false
digit_not_minus c h = ground arith

-- Digits, a point and digits are read as their fixed-point value, if it is a `u64`.
pub parse_fixed-point :
    (is fs : List ℕ) (d : ℕ)
    → is ≢ []
    → AreDigits is
    → AreDigits fs
    → length fs ≤ d
    → pow10 d < u64_mod
    → fixed_value is fs d < u64_mod
    → parse_fixed (is ++ b'.' ∷ fs) d ≡ some (fixed_value is fs d)
unfolding parse_fixed
parse_fixed-point [] fs d ne di df few small fits = absurd (ne refl)
parse_fixed-point (c ∷ is) fs d ne di df few small fits =
    rw (split_point-point (c ∷ is) fs di, digit_not_minus c di.0)
      (parse_parts-fixed_value (c ∷ is) fs d ne di df few small fits)

pub parse_fixed-digits :
    (is : List ℕ) (d : ℕ)
    → is ≢ []
    → AreDigits is
    → pow10 d < u64_mod
    → fixed_value is [] d < u64_mod
    → parse_fixed is d ≡ some (fixed_value is [] d)
unfolding parse_fixed
parse_fixed-digits [] d ne di small fits = absurd (ne refl)
parse_fixed-digits (c ∷ is) d ne di small fits =
    rw (split_point-digits (c ∷ is) di, digit_not_minus c di.0)
      (parse_parts-fixed_value (c ∷ is) [] d ne di tt (omega arith) small fits)

-- What `parse_fixed` returns is a `u64`.
pub parse_fixed-lt : (s : List ℕ) (d : ℕ) {v : ℕ} → parse_fixed s d ≡ some v → v < u64_mod
unfolding parse_fixed
parse_fixed-lt [] d h = cc
parse_fixed-lt (c ∷ s) d h = elim (Bool-cases (c == b'-')) [
  | inl minus ↦ cc (rw minus at h)
  | inr other ↦ parse_parts-lt (split_point (c ∷ s)).0 (split_point (c ∷ s)).1 d (rw other at h)
]

parse_parts-truncates :
    (is fs t : List ℕ) (d : ℕ)
    → AreDigits fs
    → length fs ≡ d
    → parse_parts is (fs ++ t) d ≡ parse_parts is fs d
unfolding parse_parts
parse_parts-truncates is fs t d df full = rw (read_frac-truncates d fs t 0 0 (omega arith) df) refl

-- Whatever stands behind as many digits of the fraction as the scale has is ignored.
pub parse_fixed-truncates :
    (is fs t : List ℕ) (d : ℕ)
    → AreDigits is
    → AreDigits fs
    → length fs ≡ d
    → parse_fixed (is ++ b'.' ∷ (fs ++ t)) d ≡ parse_fixed (is ++ b'.' ∷ fs) d
unfolding parse_fixed split_point parse_parts parse_u64
parse_fixed-truncates [] fs t d di df full = refl
parse_fixed-truncates (c ∷ is) fs t d di df full =
    rw
      (
        split_point-point (c ∷ is) (fs ++ t) di,
        split_point-point (c ∷ is) fs di,
        digit_not_minus c di.0,
      )
      (parse_parts-truncates (c ∷ is) fs t d df full)
