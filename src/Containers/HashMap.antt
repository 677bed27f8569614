-- ===== src/Containers/HashMap.antt =====
-- `std::collections::HashMap` and `HashSet` (under another hasher in src/book.rs) as association
-- lists with each key once. The order of the entries stands for the unspecified order of
-- iteration.
use l4_book.Prelude.{◌≡◌, ite, Option, none, some, List, [], ◌∷◌, arith, Bool, true, false, is_some}

module _ {ℓ} {K : Type 0} {V : Type ℓ} (dec : Discrete K) where
  unfoldable pub get : K → List (K × V) → Option V
  get k [] = none
  get k ((j, v) ∷ m) = ite (dec j k) (some v) (get k m)

  unfoldable pub remove : K → List (K × V) → List (K × V)
  remove k [] = []
  remove k ((j, v) ∷ m) = ite (dec j k) (remove k m) ((j, v) ∷ remove k m)

  unfoldable pub insert : K → V → List (K × V) → List (K × V)
  unfolding remove
  insert k v m = (k, v) ∷ remove k m

  unfoldable pub contains_key : K → List (K × V) → Bool
  contains_key k m = is_some (get k m)

  pub get-remove : (k j : K) (m : List (K × V)) → get j (remove k m) ≡ ite (dec k j) none (get j m)
  unfolding get remove
  get-remove k j [] = ground arith
  get-remove k j ((i, v) ∷ m) = ground (arith, get-remove k j m)

  pub get-insert :
      (k j : K) (v : V) (m : List (K × V)) → get j (insert k v m) ≡ ite (dec k j) (some v) (get j m)
  unfolding get insert
  get-insert k j v m = ground (arith, get-remove k j m)

-- Each key once.
module _ {ℓ} {K : Type 0} {V : Type ℓ} (dec : Discrete K) where
  abbrev pub IsKeyed : List (K × V) → Type ℓ
  IsKeyed [] = Unit {ℓ}
  IsKeyed ((k, v) ∷ m) = (get dec k m ≡ none) × IsKeyed m

  pub remove-IsKeyed : (k : K) (m : List (K × V)) → IsKeyed m → IsKeyed (remove dec k m)
  unfolding remove
  remove-IsKeyed k [] h = tt
  remove-IsKeyed k ((j, v) ∷ m) h = ground (arith, get-remove dec k j m, remove-IsKeyed k m)

  pub insert-IsKeyed : (k : K) (v : V) (m : List (K × V)) → IsKeyed m → IsKeyed (insert dec k v m)
  unfolding insert
  insert-IsKeyed k v m h = (ground (arith, get-remove dec k k m), remove-IsKeyed k m h)

-- A set of identifiers, as the list of its members.
module _ {K : Type 0} (dec : Discrete K) where
  unfoldable pub has : K → List K → Bool
  has k [] = false
  has k (j ∷ s) = ite (dec j k) true (has k s)

  unfoldable pub set_remove : K → List K → List K
  set_remove k [] = []
  set_remove k (j ∷ s) = ite (dec j k) (set_remove k s) (j ∷ set_remove k s)

  unfoldable pub set_insert : K → List K → List K
  unfolding set_remove
  set_insert k s = k ∷ set_remove k s

  pub has-set_remove :
      (k j : K) (s : List K) → has j (set_remove k s) ≡ ite (dec k j) false (has j s)
  unfolding has set_remove
  has-set_remove k j [] = ground arith
  has-set_remove k j (i ∷ s) = ground (arith, has-set_remove k j s)

  pub has-set_insert :
      (k j : K) (s : List K) → has j (set_insert k s) ≡ ite (dec k j) true (has j s)
  unfolding has set_insert
  has-set_insert k j s = ground (arith, has-set_remove k j s)
