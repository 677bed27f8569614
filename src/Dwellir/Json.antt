-- ===== src/Dwellir/Json.antt =====
-- serde_json, as far as the decoder uses it: an interface with documented behaviour.
use l4_book.Prelude.{ℕ, ◌<◌, ◌≡◌, List, Option, some, u64_mod}

-- `from_str` is `none` on a text that is not JSON. `get` finds a member of an object by its key and
-- gives `none` on other values. The members of an object are looked up by `member`.
pub record Json : Type 1 where
  pub Value : Type 0
  pub Object : Type 0
  pub from_str : List ℕ → Option Value
  pub get : Value → List ℕ → Option Value
  pub as_str : Value → Option (List ℕ)
  pub as_u64 : Value → Option ℕ
  pub as_array : Value → Option (List Value)
  pub as_object : Value → Option Object
  pub member : Object → List ℕ → Option Value
  -- `as_u64` is a `u64`.
  pub as_u64-lt : (v : Value) (n : ℕ) → as_u64 v ≡ some n → n < u64_mod
