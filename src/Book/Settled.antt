-- ===== src/Book/Settled.antt =====
-- A snapshot of any orders leaves a well-formed book, also where it is refused.
use l4_book.Prelude.{
  ℕ, suc, ◌+◌, ◌≤◌, ◌<◌, ◌≡◌, sym, subst, List, [], ◌∷◌, arith, length, u64_mod, refl, ◌⊎◌, inl,
  inr,
}
use l4_book.Types.{BookError, Order}
use l4_book.Book.{OrderBook, new_book, clear, Run, ok, err, and_then, max_slots}
use l4_book.Book.Invariant.{IsWellFormed, Queues}
use l4_book.Book.Growth.{Within, add-Within}
use l4_book.Book.Ops.{Sound, kept, refused, add-Sound, new_book-IsWellFormed}
use l4_book.Book.Replay.{add_all, apply_snapshot_with_policy, apply_snapshot}

-- A run without a panic that leaves a well-formed book, whether it succeeds or not.
pub data Settled {A : Type 0} : Run A → Type 0 where
  done : {a : A} {b : OrderBook} (q : Queues) → IsWellFormed b q → Settled (ok a b)
  stopped : {e : BookError} {b : OrderBook} (q : Queues) → IsWellFormed b q → Settled (err e b)

-- The sizes are `u64` values.
abbrev pub FitQty : List Order → Type 0
FitQty [] = Unit {0}
FitQty (o ∷ os) = (o.qty < u64_mod) × FitQty os

pub Sound-Settled :
    {A : Type 0} (b : OrderBook) (q : Queues) {r : Run A} → IsWellFormed b q → Sound b r → Settled r
Sound-Settled b q wf (kept q' wf') = done q' wf'
Sound-Settled b q wf (refused same) = stopped q (subst (λ c. IsWellFormed c q) (sym same) wf)

chain-Settled :
    {A B : Type 0} (n : ℕ) {r : Run A} (f : A → OrderBook → Run B)
    → Settled r
    → Within n r
    → ((a : A) (b : OrderBook) (q : Queues)
        → IsWellFormed b q
        → length b.slab ≤ n
        → Settled (f a b))
    → Settled (and_then r f)
chain-Settled n f (done q wf) within next = next _ _ q wf within
chain-Settled n f (stopped q wf) within next = stopped q wf

map-Settled :
    {A B : Type 0} (f : A → B) {r : Run A} → Settled r → Settled (and_then r λ a b. ok (f a) b)
map-Settled f (done q wf) = done q wf
map-Settled f (stopped q wf) = stopped q wf

add_all-Settled :
    (os : List Order) (n : ℕ) (b : OrderBook) (q : Queues)
    → IsWellFormed b q
    → FitQty os
    → length b.slab + length os ≤ max_slots
    → Settled (add_all n os b)
unfolding add_all
add_all-Settled [] n b q wf fits room = done q wf
add_all-Settled (o ∷ os) n b q wf fits room =
    chain-Settled (suc (length b.slab)) _
      (Sound-Settled b q wf (add-Sound b q wf o (inr (omega arith)) fits.0)) (add-Within o b)
      (λ _ b' q' wf' small. add_all-Settled os (n + 1) b' q' wf' fits.1 (omega arith))

-- A snapshot whose sizes are `u64` values and which fits into a slab never panics, and leaves a
-- well-formed book of any book, whether it is applied or stops at an order that is refused.
pub apply_snapshot-Settled :
    (os : List Order) (b : OrderBook)
    → FitQty os
    → length os ≤ max_slots
    → Settled (apply_snapshot os b)
unfolding apply_snapshot apply_snapshot_with_policy clear new_book add_all
apply_snapshot-Settled os b fits room = map-Settled _ (
    map-Settled _
      (add_all-Settled os 0 new_book (λ s p. []) new_book-IsWellFormed fits (omega arith)))

pub Settled-cases :
    {A : Type 0} {r : Run A}
    → Settled r
    → ((a : A) × (b : OrderBook) × (q : Queues) × (r ≡ ok a b) × IsWellFormed b q)
      ⊎ ((e : BookError) × (b : OrderBook) × (q : Queues) × (r ≡ err e b) × IsWellFormed b q)
Settled-cases (done {a} {b} q wf) = inl (a, b, q, refl, wf)
Settled-cases (stopped {e} {b} q wf) = inr (e, b, q, refl, wf)
