-- ===== src/Slab/Chain.antt =====
-- Chains: the doubly linked list of a level as the list of its slots with their orders.
use l4_book.Prelude.{
  ℕ, ◌≡◌, refl, ◌∙◌, List, [], ◌∷◌, ◌++◌, Option, none, some, arith, ite, ℕ_discrete, Bool, true,
  false, ◌||◌,
}
use l4_book.Types.{Order}
use l4_book.Slab.{OrderNode}
use l4_book.Slab.Laws.{Nodes, adjust, IsLive}

abbrev pub Cells : Type 0
Cells = List (ℕ × Order)

abbrev pub has : ℕ → Cells → Bool
has i [] = false
has i ((x, o) ∷ xs) = ite (ℕ_discrete x i) true (has i xs)

abbrev pub head_or : Cells → Option ℕ → Option ℕ
head_or [] next = next
head_or ((x, o) ∷ xs) next = some x

abbrev pub last_or : Option ℕ → Cells → Option ℕ
last_or prev [] = prev
last_or prev ((x, o) ∷ xs) = last_or (some x) xs

abbrev pub link : Order → Option ℕ → Option ℕ → OrderNode
link o next prev = record { order = o; next = next; prev = prev }

-- The nodes at `xs` are linked both ways, from `prev` to `next`.
abbrev pub Chain : Nodes → Option ℕ → Cells → Option ℕ → Type 0
Chain h prev [] next = Unit {0}
Chain h prev ((x, o) ∷ xs) next =
    (h x ≡ some (link o (head_or xs next) prev)) × Chain h (some x) xs next

abbrev pub Distinct : Cells → Type 0
Distinct [] = Unit {0}
Distinct ((x, o) ∷ xs) = (has x xs ≡ false) × Distinct xs

abbrev pub Disjoint : Cells → Cells → Type 0
Disjoint xs ys = (i : ℕ) → has i xs ≡ true → has i ys ≡ false

pub has-append : (i : ℕ) (xs ys : Cells) → has i (xs ++ ys) ≡ (has i xs || has i ys)
has-append i [] ys = refl
has-append i ((x, o) ∷ xs) ys = ground (arith, has-append i xs ys)

pub has-moved :
    (i x : ℕ) (o o' : Order) (ls rs : Cells)
    → has i ((ls ++ rs) ++ (x, o') ∷ []) ≡ has i (ls ++ (x, o) ∷ rs)
has-moved i x o o' ls rs = ground (
  arith,
  has-append i (ls ++ rs) ((x, o') ∷ []),
  has-append i ls rs,
  has-append i ls ((x, o) ∷ rs),
)

pub not-has-append :
    (i : ℕ) (xs ys : Cells) → has i (xs ++ ys) ≡ false → (has i xs ≡ false) × (has i ys ≡ false)
not-has-append i xs ys out = ground (arith, has-append i xs ys)

pub Chain-frame :
    (h h' : Nodes) (prev : Option ℕ) (xs : Cells) (next : Option ℕ)
    → ((i : ℕ) → has i xs ≡ true → h' i ≡ h i)
    → Chain h prev xs next
    → Chain h' prev xs next
Chain-frame h h' prev [] next same c = tt
Chain-frame h h' prev ((x, o) ∷ xs) next same (e, c) =
    (same x (ground arith) ∙ e, Chain-frame h h' (some x) xs next (λ i m. same i (ground arith)) c)

module _ (h : Nodes) where
  pub Chain-split :
      (prev : Option ℕ) (xs ys : Cells) (next : Option ℕ)
      → Chain h prev (xs ++ ys) next
      → Chain h prev xs (head_or ys next) × Chain h (last_or prev xs) ys next
  Chain-split prev [] ys next c = (tt, c)
  Chain-split prev ((x, o) ∷ []) ys next (e, c) = ((e, tt), c)
  Chain-split prev ((x, o) ∷ (y, p) ∷ xs) ys next (e, c) =
      let (c', d) = Chain-split (some x) ((y, p) ∷ xs) ys next c in ((e, c'), d)

  pub Chain-join :
      (prev : Option ℕ) (xs ys : Cells) (next : Option ℕ)
      → Chain h prev xs (head_or ys next)
      → Chain h (last_or prev xs) ys next
      → Chain h prev (xs ++ ys) next
  Chain-join prev [] ys next c d = d
  Chain-join prev ((x, o) ∷ []) ys next (e, c) d = (e, d)
  Chain-join prev ((x, o) ∷ (y, p) ∷ xs) ys next (e, c) d =
      (e, Chain-join (some x) ((y, p) ∷ xs) ys next c d)

pub Distinct-join :
    (xs ys : Cells) → Distinct xs → Distinct ys → Disjoint xs ys → Distinct (xs ++ ys)
Distinct-join [] ys d e apart = e
Distinct-join ((x, o) ∷ xs) ys (out, d) e apart = (
  ground (arith, has-append x xs ys, apart x),
  Distinct-join xs ys d e (λ i m. apart i (ground arith)),
)

pub Distinct-split :
    (xs ys : Cells) → Distinct (xs ++ ys) → Distinct xs × Distinct ys × Disjoint xs ys
Distinct-split [] ys d = (tt, d, λ i m. cc)
Distinct-split ((x, o) ∷ xs) ys (out, d) =
    let (dx, dy, apart) = Distinct-split xs ys d in
    (
      (ground (arith, has-append x xs ys), dx),
      dy,
      λ i m. ground (arith, has-append x xs ys, apart i),
    )

module _ (f : OrderNode → OrderNode) (h : Nodes) where
  pub adjust-head_or :
      (j : ℕ) (xs : Cells) → has j xs ≡ false → adjust (head_or xs none) f h j ≡ h j
  unfolding adjust
  adjust-head_or j [] out = refl
  adjust-head_or j ((x, o) ∷ xs) out = ground arith

  pub adjust-last_or :
      (j : ℕ) (xs : Cells) → has j xs ≡ false → adjust (last_or none xs) f h j ≡ h j
  unfolding adjust
  adjust-last_or j [] out = refl
  adjust-last_or j ((x, o) ∷ []) out = ground arith
  adjust-last_or j ((x, o) ∷ (y, p) ∷ xs) out = adjust-last_or j ((y, p) ∷ xs) (ground arith)

module _ (h : Nodes) where
  pub IsLive-head_or :
      (prev : Option ℕ) (xs : Cells) (next : Option ℕ)
      → Chain h prev xs next
      → IsLive h (head_or xs none)
  IsLive-head_or prev [] next c = tt
  IsLive-head_or prev ((x, o) ∷ xs) next c = (_, c.0)

  pub IsLive-last_or :
      (prev : Option ℕ) (xs : Cells) (next : Option ℕ)
      → Chain h prev xs next
      → IsLive h (last_or none xs)
  IsLive-last_or prev [] next c = tt
  IsLive-last_or prev ((x, o) ∷ []) next c = (_, c.0)
  IsLive-last_or prev ((x, o) ∷ (y, p) ∷ xs) next c = IsLive-last_or (some x) ((y, p) ∷ xs) next c.1

abbrev pub set_next : Option ℕ → OrderNode → OrderNode
set_next next n = record n { next = next }

abbrev pub set_prev : Option ℕ → OrderNode → OrderNode
set_prev prev n = record n { prev = prev }

module _ (h : Nodes) where
  pub Chain-set_next :
      (prev : Option ℕ) (xs : Cells) (next new : Option ℕ)
      → Distinct xs
      → Chain h prev xs next
      → Chain (adjust (last_or none xs) (set_next new) h) prev xs new
  unfolding adjust
  Chain-set_next prev [] next new d c = tt
  Chain-set_next prev ((x, o) ∷ []) next new d (e, c) = (ground arith, tt)
  Chain-set_next prev ((x, o) ∷ (y, p) ∷ xs) next new (out, d) (e, c) = (
    adjust-last_or (set_next new) h x ((y, p) ∷ xs) out ∙ e,
    Chain-set_next (some x) ((y, p) ∷ xs) next new d c,
  )

  pub Chain-set_prev :
      (prev : Option ℕ) (xs : Cells) (next new : Option ℕ)
      → Distinct xs
      → Chain h prev xs next
      → Chain (adjust (head_or xs none) (set_prev new) h) new xs next
  unfolding adjust
  Chain-set_prev prev [] next new d c = tt
  Chain-set_prev prev ((x, o) ∷ xs) next new (out, d) (e, c) =
      (ground arith, Chain-frame h _ (some x) xs next (λ i m. ground arith) c)
