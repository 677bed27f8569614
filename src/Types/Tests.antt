-- ===== src/Types/Tests.antt =====
-- A wallet is printed and read back.
use l4_book.Prelude.{◌≡◌, refl, [], ◌∷◌, some, arith}
use l4_book.Types.{WalletId}
use l4_book.Types.Wallets.{from_hex, fmt, from_hex-fmt}

abbrev test_wallet : WalletId
test_wallet =
    0 ∷ 1 ∷ 15 ∷ 16 ∷ 255 ∷ 7 ∷ 8 ∷ 9 ∷ 10 ∷ 11 ∷ 200 ∷ 201 ∷ 17 ∷ 33 ∷ 171 ∷ 172 ∷ 1 ∷ 2 ∷ 3 ∷ 4
    ∷ []

from_hex-fmt_example : from_hex (fmt test_wallet) ≡ some test_wallet
from_hex-fmt_example = from_hex-fmt test_wallet refl (ground arith)
