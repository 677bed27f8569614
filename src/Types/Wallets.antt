-- ===== src/Types/Wallets.antt =====
-- src/types.rs: the hexadecimal form of a wallet, over the bytes of a string.
use l4_book.Prelude.{
  ℕ, ◌+◌, ◌-◌, ◌*◌, ◌/◌, ◌%◌, ◌<◌, ◌≡◌, refl, ap, List, [], ◌∷◌, Option, none, some, ◌>>=◌, arith,
  length, ◌==◌, ltb, leb, ◌&&◌, not, if◌then◌else◌,
}
use l4_book.Types.{WalletId}

-- `none` is the error `InvalidWalletHex`. The three ranges are `0` to `9`, `a` to `f`, `A` to `F`.
unfoldable pub hex_nib : ℕ → Option ℕ
hex_nib b =
    if leb 48 b && leb b 57
    then some (b - 48)
    else if leb 97 b && leb b 102
    then some (b - 97 + 10)
    else if leb 65 b && leb b 70
    then some (b - 65 + 10)
    else none

-- `strip_prefix("0x")`, or the string itself.
unfoldable pub strip_0x : List ℕ → List ℕ
strip_0x [] = []
strip_0x (a ∷ []) = a ∷ []
strip_0x (a ∷ c ∷ s) = if a == 48 && c == 120 then s else a ∷ c ∷ s

-- The loop. The four low bits of `hi << 4` are zero, so the bits of `lo` are added to it.
unfoldable pub bytes_of_hex : List ℕ → Option (List ℕ)
bytes_of_hex [] = some []
bytes_of_hex (c ∷ []) = none
bytes_of_hex (c ∷ d ∷ s) = do
  hi ← hex_nib c
  lo ← hex_nib d
  out ← bytes_of_hex s
  some ((hi * 16 % 256 + lo) ∷ out)

unfoldable pub from_hex : List ℕ → Option WalletId
unfolding strip_0x bytes_of_hex
from_hex s = let s = strip_0x s in if not (length s == 40) then none else bytes_of_hex s

unfoldable pub hex_digit : ℕ → ℕ
hex_digit n = if ltb n 10 then 48 + n else 87 + n

-- The loop of `fmt`: each byte as two digits.
unfoldable pub hex_of_bytes : List ℕ → List ℕ
unfolding hex_digit
hex_of_bytes [] = []
hex_of_bytes (b ∷ bs) = hex_digit (b / 16) ∷ hex_digit (b % 16) ∷ hex_of_bytes bs

unfoldable pub fmt : WalletId → List ℕ
unfolding hex_of_bytes
fmt wallet = 48 ∷ 120 ∷ hex_of_bytes wallet

abbrev pub AreBytes : List ℕ → Type 0
AreBytes [] = Unit {0}
AreBytes (b ∷ bs) = (b < 256) × AreBytes bs

hex_nib-hex_digit : (n : ℕ) → n < 16 → hex_nib (hex_digit n) ≡ some n
unfolding hex_nib hex_digit
hex_nib-hex_digit n h = ground arith

length-hex_of_bytes : (bs : List ℕ) → length (hex_of_bytes bs) ≡ 2 * length bs
unfolding hex_of_bytes
length-hex_of_bytes [] = refl
length-hex_of_bytes (b ∷ bs) = omega (arith, length-hex_of_bytes bs)

bytes_of_hex-hex_of_bytes : (bs : List ℕ) → AreBytes bs → bytes_of_hex (hex_of_bytes bs) ≡ some bs
unfolding bytes_of_hex hex_of_bytes
bytes_of_hex-hex_of_bytes [] h = refl
bytes_of_hex-hex_of_bytes (b ∷ bs) (lt, h) =
    rw
      (
        hex_nib-hex_digit (b / 16) (omega arith),
        hex_nib-hex_digit (b % 16) (omega arith),
        bytes_of_hex-hex_of_bytes bs h,
      )
      (ap (λ c. some (c ∷ bs)) (omega arith))

-- Twenty bytes are read back from the text that is printed for them.
pub from_hex-fmt : (w : WalletId) → length w ≡ 20 → AreBytes w → from_hex (fmt w) ≡ some w
unfolding from_hex fmt
from_hex-fmt w len h = rw (length-hex_of_bytes w, len) (bytes_of_hex-hex_of_bytes w h)
