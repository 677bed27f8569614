-- ===== src/Examples/Scaled/RoundTrip.antt =====
-- What `fmt_scaled` prints, `parse_fixed` reads back.
use native.Mathlib.Nat.{div-add-mod', mod-lt}
use l4_book.Prelude.{
  ℕ, zero, suc, ◌+◌, ◌-◌, ◌*◌, ◌/◌, ◌%◌, ◌≤◌, ◌<◌, ◌≡◌, ◌≢◌, refl, ap, ap₂, sym, ◌∙◌, List, [], ◌∷◌,
  some, arith, length, length-append, true, ltb, ◌==◌, ◌&&◌, u64_mod, Bool-cases, inl, inr, ==_ne,
}
use l4_book.Text.{to_string, decimal_digits}
use l4_book.Text.Decimal.{
  pow10, pow10-pos, pow10_mono, num, AreDigits, AreDigits-append, num-append, num-decimal_digits,
  decimal_digits-AreDigits, length-decimal_digits,
}
use l4_book.Dwellir.Fixed.{parse_fixed}
use l4_book.Dwellir.Fixed.Digits.{fixed_value, parse_fixed-point, parse_fixed-digits}
use l4_book.Examples.Scaled.{zeros, pad_left, is_empty, pop_zeros, join_point, fmt_scaled}

num-to_string : (n : ℕ) → n < u64_mod → num 0 (to_string n) ≡ n
unfolding to_string
num-to_string n h = num-decimal_digits 39 n (omega arith)

to_string-AreDigits : (n : ℕ) → AreDigits (to_string n)
unfolding to_string
to_string-AreDigits n = decimal_digits-AreDigits 39 n

zeros-AreDigits : (n : ℕ) → AreDigits (zeros n)
unfolding zeros
zeros-AreDigits zero = tt
zeros-AreDigits (suc n) = (refl, zeros-AreDigits n)

length-zeros : (n : ℕ) → length (zeros n) ≡ n
unfolding zeros
length-zeros zero = refl
length-zeros (suc n) = ap suc (length-zeros n)

num-zeros : (n : ℕ) → num 0 (zeros n) ≡ 0
unfolding zeros
num-zeros zero = refl
num-zeros (suc n) = num-zeros n

num-pad_left : (w : ℕ) (s : List ℕ) → num 0 (pad_left w s) ≡ num 0 s
unfolding pad_left
num-pad_left w s =
    num-append 0 (zeros (w - length s)) s ∙ ap (λ n. num n s) (num-zeros (w - length s))

length-pad_left : (w : ℕ) (s : List ℕ) → length s ≤ w → length (pad_left w s) ≡ w
unfolding pad_left
length-pad_left w s h =
    omega (arith, length-append (zeros (w - length s)) s, length-zeros (w - length s))

pop_zeros-AreDigits : (s : List ℕ) → AreDigits s → AreDigits (pop_zeros s)
unfolding pop_zeros
pop_zeros-AreDigits [] d = tt
pop_zeros-AreDigits (c ∷ s) d = elim (Bool-cases (c == b'0' && is_empty (pop_zeros s))) [
  | inl e ↦ rw e tt
  | inr e ↦ rw e (d.0, pop_zeros-AreDigits s d.1)
]

length-pop_zeros : (s : List ℕ) → length (pop_zeros s) ≤ length s
unfolding pop_zeros
length-pop_zeros [] = omega arith
length-pop_zeros (c ∷ s) = ground (arith, length-pop_zeros s)

empty-nil : (s : List ℕ) → is_empty s ≡ true → s ≡ []
empty-nil [] e = refl
empty-nil (c ∷ s) e = cc

-- The popped zeros come back by the scale.
num-pop_zeros :
    (n : ℕ) (s : List ℕ) → num n (pop_zeros s) * pow10 (length s - length (pop_zeros s)) ≡ num n s
unfolding pop_zeros
num-pop_zeros n [] = omega arith
num-pop_zeros n (c ∷ s) =
    let rest = num-pop_zeros (n * 10 + (c - b'0')) s in
    elim (Bool-cases (c == b'0' && is_empty (pop_zeros s))) [
      | inl e ↦
          let none_left : pop_zeros s ≡ [] = empty-nil (pop_zeros s) (ground arith) in
          let rest' = rw none_left at rest in
          let digit : c - b'0' ≡ 0 = ground arith in
          let all : suc (length s) - 0 ≡ suc (length s) = omega arith in
          let all' : length s - 0 ≡ length s = omega arith in
          rw (e, all, ← rest', all', digit) (grind arith)
      | inr e ↦
          let same : suc (length s) - suc (length (pop_zeros s)) ≡ length s - length (pop_zeros s) =
            omega arith in
          rw (e, same) rest
    ]

decimal_digits-ne-nil : (fuel n : ℕ) → decimal_digits (suc fuel) n ≢ []
unfolding decimal_digits
decimal_digits-ne-nil fuel n e = elim (Bool-cases (ltb n 10)) [
  | inl small ↦ cc (rw small at e)
  | inr big ↦ absurd (
      omega (
        arith,
        ap length (rw big at e),
        length-append (decimal_digits fuel (n / 10)) ((b'0' + n % 10) ∷ []),
      ))
]

to_string-ne-nil : (n : ℕ) → to_string n ≢ []
unfolding to_string
to_string-ne-nil n = decimal_digits-ne-nil 38 n

-- The printed fraction, and its value.
frac_text : ℕ → ℕ → List ℕ
frac_text d f = pop_zeros (pad_left d (to_string f))

module _ (d f : ℕ) (below : f < pow10 (suc d)) (small : f < u64_mod) where
  length-padded : length (pad_left (suc d) (to_string f)) ≡ suc d
  unfolding to_string
  length-padded = length-pad_left (suc d) (to_string f) (length-decimal_digits 39 f d below)

  length-frac_text : length (frac_text (suc d) f) ≤ suc d
  unfolding frac_text
  length-frac_text = omega (arith, length-pop_zeros (pad_left (suc d) (to_string f)), length-padded)

  frac_text-AreDigits : AreDigits (frac_text (suc d) f)
  unfolding frac_text pad_left
  frac_text-AreDigits = pop_zeros-AreDigits (pad_left (suc d) (to_string f)) (
      AreDigits-append (zeros (suc d - length (to_string f))) (to_string f)
        (zeros-AreDigits (suc d - length (to_string f))) (to_string-AreDigits f))

  num-frac_text : num 0 (frac_text (suc d) f) * pow10 (suc d - length (frac_text (suc d) f)) ≡ f
  unfolding frac_text
  num-frac_text =
      ap (λ k. num 0 (frac_text (suc d) f) * pow10 (k - length (frac_text (suc d) f)))
        (sym length-padded)
      ∙ num-pop_zeros 0 (pad_left (suc d) (to_string f))
      ∙ num-pad_left (suc d) (to_string f)
      ∙ num-to_string f small

parse_join_point :
    (is fs : List ℕ) (d : ℕ)
    → is ≢ []
    → AreDigits is
    → AreDigits fs
    → length fs ≤ d
    → pow10 d < u64_mod
    → fixed_value is fs d < u64_mod
    → parse_fixed (join_point is fs) d ≡ some (fixed_value is fs d)
unfolding join_point
parse_join_point is [] d ne di df few small fits = parse_fixed-digits is d ne di small fits
parse_join_point is (c ∷ fs) d ne di df few small fits =
    parse_fixed-point is (c ∷ fs) d ne di df few small fits

-- A `u64` that `fmt_scaled` prints with at most 19 decimal digits is read back by `parse_fixed`
-- with the same number of digits.
pub parse_fixed-fmt_scaled :
    (v d : ℕ) → v < u64_mod → d ≤ 19 → parse_fixed (fmt_scaled v d) d ≡ some v
unfolding fmt_scaled frac_text
parse_fixed-fmt_scaled v zero small few =
    let value : fixed_value (to_string v) [] 0 ≡ v = omega (arith, num-to_string v small) in
    parse_fixed-digits (to_string v) 0 (to_string-ne-nil v) (to_string-AreDigits v) (omega arith)
      (omega (arith, num-to_string v small))
    ∙ ap some value
parse_fixed-fmt_scaled v (suc d) small few =
    let scale = pow10 (suc d) in
    let pos = pow10-pos (suc d) in
    let i = v / scale in
    let f = v % scale in
    let sum : i * scale + f ≡ v = div-add-mod' v scale in
    let below : f < scale = mod-lt v pos in
    let i_small : i < u64_mod = grind arith in
    let value : fixed_value (to_string i) (frac_text (suc d) f) (suc d) ≡ v =
      ap₂ (λ a c. a * scale + c) (num-to_string i i_small) (num-frac_text d f below (omega arith))
      ∙ sum in
    rw (==_ne (suc d) 0 (omega arith)) (
      parse_join_point (to_string i) (frac_text (suc d) f) (suc d) (to_string-ne-nil i)
        (to_string-AreDigits i) (frac_text-AreDigits d f below (omega arith))
        (length-frac_text d f below (omega arith)) (omega (arith, pow10_mono (suc d) 19 few))
        (omega arith)
      ∙ ap some value)
