-- ===== src/Containers/TreeMap.antt =====
-- `std::collections::BTreeMap` with `u64` keys, as an association list in ascending order of keys.
use l4_book.Prelude.{
  ℕ, ◌≡◌, ◌<◌, Option, none, some, List, [], ◌∷◌, arith, ite, ℕ_discrete, ltb, if◌then◌else◌,
}

module _ {ℓ} {V : Type ℓ} where
  unfoldable pub get : ℕ → List (ℕ × V) → Option V
  get k [] = none
  get k ((j, v) ∷ m) = ite (ℕ_discrete j k) (some v) (get k m)

  unfoldable pub insert : ℕ → V → List (ℕ × V) → List (ℕ × V)
  insert k v [] = (k, v) ∷ []
  insert k v ((j, w) ∷ m) =
      ite (ℕ_discrete j k) ((k, v) ∷ m)
        (if ltb k j then (k, v) ∷ (j, w) ∷ m else (j, w) ∷ insert k v m)

  unfoldable pub remove : ℕ → List (ℕ × V) → List (ℕ × V)
  remove k [] = []
  remove k ((j, v) ∷ m) = ite (ℕ_discrete j k) (remove k m) ((j, v) ∷ remove k m)

  unfoldable pub first_key : List (ℕ × V) → Option ℕ
  first_key [] = none
  first_key ((j, v) ∷ m) = some j

  unfoldable pub last_key : List (ℕ × V) → Option ℕ
  last_key [] = none
  last_key ((j, v) ∷ []) = some j
  last_key ((j, v) ∷ e ∷ m) = last_key (e ∷ m)

  pub get-insert :
      (k j : ℕ) (v : V) (m : List (ℕ × V))
      → get j (insert k v m) ≡ ite (ℕ_discrete k j) (some v) (get j m)
  unfolding get insert
  get-insert k j v [] = ground arith
  get-insert k j v ((i, w) ∷ m) = ground (arith, get-insert k j v m)

  pub get-remove :
      (k j : ℕ) (m : List (ℕ × V)) → get j (remove k m) ≡ ite (ℕ_discrete k j) none (get j m)
  unfolding get remove
  get-remove k j [] = ground arith
  get-remove k j ((i, w) ∷ m) = ground (arith, get-remove k j m)

  -- Every key is above `k`, and the keys ascend.
  abbrev pub Above : ℕ → List (ℕ × V) → Type 0
  Above k [] = Unit {0}
  Above k ((j, v) ∷ m) = (k < j) × Above j m

  abbrev pub IsSorted : List (ℕ × V) → Type 0
  IsSorted [] = Unit {0}
  IsSorted ((j, v) ∷ m) = Above j m

  insert-Above : (l k : ℕ) (v : V) (m : List (ℕ × V)) → l < k → Above l m → Above l (insert k v m)
  unfolding insert
  insert-Above l k v [] h a = (h, tt)
  insert-Above l k v ((j, w) ∷ m) h a = ground (arith, insert-Above j k v m)

  pub insert-IsSorted : (k : ℕ) (v : V) (m : List (ℕ × V)) → IsSorted m → IsSorted (insert k v m)
  unfolding insert
  insert-IsSorted k v [] a = tt
  insert-IsSorted k v ((j, w) ∷ m) a = ground (arith, insert-Above j k v m)

  Above-mono : (l k : ℕ) (m : List (ℕ × V)) → l < k → Above k m → Above l m
  Above-mono l k [] h a = tt
  Above-mono l k ((j, w) ∷ m) h a = (omega arith, a.1)

  remove-Above : (l k : ℕ) (m : List (ℕ × V)) → Above l m → Above l (remove k m)
  unfolding remove
  remove-Above l k [] a = tt
  remove-Above l k ((j, w) ∷ m) a = ground (arith, remove-Above j k m, Above-mono l j (remove k m))

  pub remove-IsSorted : (k : ℕ) (m : List (ℕ × V)) → IsSorted m → IsSorted (remove k m)
  unfolding remove
  remove-IsSorted k [] a = tt
  remove-IsSorted k ((j, w) ∷ m) a =
      ground (arith, remove-Above j k m, sorted_of_Above j (remove k m))
    where
      sorted_of_Above : (l : ℕ) (n : List (ℕ × V)) → Above l n → IsSorted n
      sorted_of_Above l [] h = tt
      sorted_of_Above l ((i, u) ∷ n) h = h.1
