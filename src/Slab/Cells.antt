-- ===== src/Slab/Cells.antt =====
-- Lists of slots: sums of sizes, a slot taken out, and a bound on the length.
use l4_book.Prelude.{
  ℕ, zero, suc, ◌+◌, ◌≤◌, ◌<◌, ◌≡◌, List, [], ◌∷◌, ◌++◌, arith, length, ite, ℕ_discrete, true,
  false,
}
use l4_book.Types.{Order, Qty}
use l4_book.Slab.Chain.{Cells, has, Distinct}

abbrev pub sum_qty : Cells → ℕ
sum_qty [] = 0
sum_qty ((x, o) ∷ xs) = o.qty + sum_qty xs

abbrev pub orders_of : Cells → List Order
orders_of [] = []
orders_of ((x, o) ∷ xs) = o ∷ orders_of xs

unfoldable pub drop_slot : ℕ → Cells → Cells
drop_slot i [] = []
drop_slot i ((x, o) ∷ xs) = ite (ℕ_discrete x i) xs ((x, o) ∷ drop_slot i xs)

-- `o` with another size.
abbrev pub resized : Qty → Order → Order
resized q o = record o { qty = q }

unfoldable pub resize_slot : ℕ → Qty → Cells → Cells
resize_slot i q [] = []
resize_slot i q ((x, o) ∷ xs) =
    ite (ℕ_discrete x i) ((x, resized q o) ∷ xs) ((x, o) ∷ resize_slot i q xs)

pub sum_qty-append : (xs ys : Cells) → sum_qty (xs ++ ys) ≡ sum_qty xs + sum_qty ys
sum_qty-append [] ys = omega arith
sum_qty-append ((x, o) ∷ xs) ys = omega (arith, sum_qty-append xs ys)

pub has-drop_slot :
    (i j : ℕ) (xs : Cells)
    → Distinct xs
    → has j (drop_slot i xs) ≡ ite (ℕ_discrete i j) false (has j xs)
unfolding drop_slot
has-drop_slot i j [] d = ground arith
has-drop_slot i j ((x, o) ∷ xs) d = ground (arith, has-drop_slot i j xs d.1)

pub drop_slot-Distinct : (i : ℕ) (xs : Cells) → Distinct xs → Distinct (drop_slot i xs)
unfolding drop_slot
drop_slot-Distinct i [] d = tt
drop_slot-Distinct i ((x, o) ∷ xs) d =
    ground (arith, drop_slot-Distinct i xs d.1, has-drop_slot i x xs d.1)

length-drop_slot : (i : ℕ) (xs : Cells) → length xs ≤ suc (length (drop_slot i xs))
unfolding drop_slot
length-drop_slot i [] = omega arith
length-drop_slot i ((x, o) ∷ xs) = ground (arith, length-drop_slot i xs)

-- Distinct slots below `n` are at most `n`.
pub length-le_of_below :
    (n : ℕ) (xs : Cells) → Distinct xs → ((i : ℕ) → has i xs ≡ true → i < n) → length xs ≤ n
length-le_of_below zero [] d below = omega arith
length-le_of_below zero ((x, o) ∷ xs) d below = absurd (omega (arith, below x (ground arith)))
length-le_of_below (suc n) xs d below = omega (
  arith,
  length-drop_slot n xs,
  length-le_of_below n (drop_slot n xs) (drop_slot-Distinct n xs d)
      (λ i m. ground (arith, has-drop_slot n i xs d, below i)),
)

-- A list that holds a slot falls into what is before it, its cell and what is behind it.
pub split_at :
    (i : ℕ) (xs : Cells)
    → has i xs ≡ true
    → (ls : Cells) × (o : Order) × (rs : Cells) × (xs ≡ ls ++ (i, o) ∷ rs)
split_at i [] m = cc
split_at i ((x, o) ∷ xs) m = elim (ℕ_discrete x i) [
  | yes e ↦ ([], o, xs, rw e)
  | no ne ↦ let (ls, p, rs, e) = split_at i xs (ground arith) in ((x, o) ∷ ls, p, rs, rw e)
]

pub drop_slot-append :
    (i : ℕ) (o : Order) (ls rs : Cells)
    → has i ls ≡ false
    → drop_slot i (ls ++ (i, o) ∷ rs) ≡ ls ++ rs
unfolding drop_slot
drop_slot-append i o [] rs out = ground arith
drop_slot-append i o ((x, p) ∷ ls) rs out = ground (arith, drop_slot-append i o ls rs)

pub resize_slot-append :
    (i : ℕ) (q : Qty) (o : Order) (ls rs : Cells)
    → has i ls ≡ false
    → resize_slot i q (ls ++ (i, o) ∷ rs) ≡ ls ++ (i, resized q o) ∷ rs
unfolding resize_slot
resize_slot-append i q o [] rs out = ground arith
resize_slot-append i q o ((x, p) ∷ ls) rs out = ground (arith, resize_slot-append i q o ls rs)
