-- ===== src/Prelude/Pairs.antt =====
-- Predicates on all the elements of a list, and on all its pairs, and what reversal does to them.
use mathlib.Core.List.{List, [], ◌∷◌, ◌++◌, map, reverse, reverse-cons}
use mathlib.Core.Path.{subst, sym}

module _ {ℓ κ} {A : Type ℓ} where
  abbrev pub All : (A → Type κ) → List A → Type κ
  All P [] = Unit {κ}
  All P (a ∷ l) = P a × All P l

  pub All-append : (P : A → Type κ) (l m : List A) → All P l → All P m → All P (l ++ m)
  All-append P [] m h k = k
  All-append P (a ∷ l) m h k = (h.0, All-append P l m h.1 k)

  pub All-reverse : (P : A → Type κ) (l : List A) → All P l → All P (reverse l)
  All-reverse P [] h = tt
  All-reverse P (a ∷ l) h =
      subst (All P) (sym (reverse-cons a l))
        (All-append P (reverse l) (a ∷ []) (All-reverse P l h.1) (h.0, tt))

  pub All-imp : (P Q : A → Type κ) (l : List A) → ((a : A) → P a → Q a) → All P l → All Q l
  All-imp P Q [] f h = tt
  All-imp P Q (a ∷ l) f h = (f a h.0, All-imp P Q l f h.1)

  pub All-both :
      (P Q R : A → Type κ) (l : List A) → ((a : A) → P a → Q a → R a) → All P l → All Q l → All R l
  All-both P Q R [] f h k = tt
  All-both P Q R (a ∷ l) f h k = (f a h.0 k.0, All-both P Q R l f h.1 k.1)

  -- Every element is related to all behind it.
  abbrev pub Ordered : (A → A → Type κ) → List A → Type κ
  Ordered R [] = Unit {κ}
  Ordered R (a ∷ l) = All (R a) l × Ordered R l

  Ordered-snoc :
      (R : A → A → Type κ) (l : List A) (a : A)
      → Ordered R l
      → All (λ b. R b a) l
      → Ordered R (l ++ a ∷ [])
  Ordered-snoc R [] a h k = (tt, tt)
  Ordered-snoc R (b ∷ l) a h k =
      (All-append (R b) l (a ∷ []) h.0 (k.0, tt), Ordered-snoc R l a h.1 k.1)

  pub Ordered-reverse :
      (R : A → A → Type κ) (l : List A) → Ordered R l → Ordered (λ a b. R b a) (reverse l)
  Ordered-reverse R [] h = tt
  Ordered-reverse R (a ∷ l) h = subst (Ordered (λ a b. R b a)) (sym (reverse-cons a l)) (
      Ordered-snoc (λ a b. R b a) (reverse l) a (Ordered-reverse R l h.1) (All-reverse (R a) l h.0))

module _ {ℓ κ ι} {A : Type ℓ} {B : Type κ} (f : A → B) where
  pub All-map : (P : B → Type ι) (l : List A) → All (λ a. P (f a)) l → All P (map f l)
  All-map P [] h = tt
  All-map P (a ∷ l) h = (h.0, All-map P l h.1)

  pub Ordered-map :
      (R : B → B → Type ι) (l : List A) → Ordered (λ a b. R (f a) (f b)) l → Ordered R (map f l)
  Ordered-map R [] h = tt
  Ordered-map R (a ∷ l) h = (All-map (R (f a)) l h.0, Ordered-map R l h.1)
