-- ===== src/Dwellir/Types.antt =====
-- src/dwellir.rs: what decoding gives, its errors, and the chaining of steps that can fail.
use l4_book.Prelude.{ℕ, ◌≡◌, refl, List, Option, none, some}
use l4_book.Types.{Order, BookOp, OperationCause, ReasonedBookOp}

pub record UpdateBatch : Type 0 where
  pub ops : List BookOp
  pub collapsed_complete_fills : ℕ
  pub dropped_duplicate_removes : ℕ

pub record ReasonedUpdateBatch : Type 0 where
  pub ops : List ReasonedBookOp
  pub collapsed_complete_fills : ℕ
  pub dropped_duplicate_removes : ℕ
  pub unresolved_new : ℕ

pub data Decoded : Type 0 where
  skip : Decoded
  snapshot : List Order → Decoded
  updates : UpdateBatch → Decoded

pub data DecodedWithMeta : Type 0 where
  skip : DecodedWithMeta
  snapshot : List Order → OperationCause → DecodedWithMeta
  updates : ReasonedUpdateBatch → DecodedWithMeta

pub record CaptureStats : Type 0 where
  pub lines : ℕ
  pub updates_messages : ℕ
  pub total_ops : ℕ
  pub adds : ℕ
  pub removes : ℕ
  pub size_updates : ℕ
  pub size_amends : ℕ
  pub unresolved_new : ℕ
  pub collapsed_complete_fills : ℕ
  pub dropped_duplicate_removes : ℕ

pub record Capture : Type 0 where
  pub snapshot : List Order
  pub updates : List (List BookOp)
  pub stats : CaptureStats

pub record ReasonedCapture : Type 0 where
  pub snapshot : List Order
  pub updates : List (List ReasonedBookOp)
  pub stats : CaptureStats

-- The errors of `std::io` and `serde_json` without what they carry.
pub data AdapterError : Type 0 where
  io json : AdapterError
  bad_price bad_qty bad_wallet bad_side : List ℕ → AdapterError
  missing_field : List ℕ → AdapterError

pub record Scales : Type 0 where
  pub price_digits : ℕ
  pub qty_digits : ℕ

abbrev pub btc_default : Scales
btc_default = record { price_digits = 6; qty_digits = 8 }

pub data Result {ℓ} (T : Type ℓ) : Type ℓ where
  err : AdapterError → Result T
  ok : T → Result T

abbrev pub map_ok {ℓ κ} : {T : Type ℓ} {U : Type κ} → (T → U) → Result T → Result U
map_ok g (err reason) = err reason
map_ok g (ok value) = ok (g value)

-- `ok_or` and `ok_or_else`.
abbrev pub ok_or {ℓ} : {T : Type ℓ} → AdapterError → Option T → Result T
ok_or reason (some value) = ok value
ok_or reason none = err reason

-- The question mark behind a result.
infixl 5 ◌>>=◌
abbrev pub ◌>>=◌ {κ ℓ} : {T : Type κ} {U : Type ℓ} → Result T → (T → Result U) → Result U
err reason >>= next = err reason
ok value >>= next = next value

pub ok-inj {ℓ} : {T : Type ℓ} {v w : T} → Result.ok v ≡ ok w → v ≡ w
ok-inj same = cc same

pub ok_or-eq-ok {ℓ} :
    {T : Type ℓ} (reason : AdapterError) (found : Option T) {v : T}
    → ok_or reason found ≡ ok v
    → found ≡ some v
ok_or-eq-ok reason (some value) same = cc same
ok_or-eq-ok reason none same = cc same

-- What a chain that succeeds went through.
pub >>=-eq-ok {κ ℓ} :
    {T : Type κ} {U : Type ℓ} (r : Result T) (next : T → Result U) {w : U}
    → (r >>= next) ≡ ok w
    → (v : T) × (r ≡ ok v) × (next v ≡ ok w)
>>=-eq-ok (err reason) next same = cc same
>>=-eq-ok (ok value) next same = (value, refl, same)
