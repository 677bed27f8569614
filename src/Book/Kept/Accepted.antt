-- ===== src/Book/Kept/Accepted.antt =====
-- A snapshot that is accepted beside the synthetic orders of the book.
use l4_book.Prelude.{
  ℕ, ◌+◌, ◌≤◌, ◌≡◌, refl, ap, ap₂, ◌∙◌, subst, List, [], ◌∷◌, ◌++◌, none, arith, length, All,
}
use l4_book.Types.{Order, Side, Price, preserve_synthetic}
use l4_book.Slab.Cells.{orders_of}
use l4_book.Book.{OrderBook, new_book, clear, Run, ok, err, panic, add, and_then, max_slots}
use l4_book.Book.Growth.{Within}
use l4_book.Book.Growth.Snapshot.{add_all-Within}
use l4_book.Book.Invariant.{IsWellFormed, Queues}
use l4_book.Book.Kept.{preserved_of-once, preserved_of-ArePositive}
use l4_book.Book.Kept.Queued.{preserved_of-kept}
use l4_book.Book.Ops.{new_book-IsWellFormed}
use l4_book.Book.Preserved.{preserved_of, synthetic_orders-preserved_of}
use l4_book.Book.Rebuild.{
  AreUnknown, ArePositive, AreUnknown-add, AreUnknown-new_book, new_book-room, resting_at,
  add_all-resting_at,
}
use l4_book.Book.Replay.{
  keep_synthetic, ids_of, add_all, rebuild, preserved_orders, validate,
  validate_preserve_synthetic_snapshot, apply_snapshot_with_policy,
}
use l4_book.Book.Settled.{FitQty}
use l4_book.Book.Snapshots.{IsAcceptable, validate-All}

-- What a chain that succeeds went through.
and_then-eq-ok :
    {A B : Type 0} (r : Run A) (f : A → OrderBook → Run B) {v : B} {b' : OrderBook}
    → and_then r f ≡ ok v b'
    → (a : A) × (b : OrderBook) × (r ≡ ok a b) × (f a b ≡ ok v b')
and_then-eq-ok (ok a b) f e = (a, b, refl, e)
and_then-eq-ok (err x b) f e = cc e
and_then-eq-ok panic f e = cc e

-- Orders of other identifiers stay unknown.
add_all-AreUnknown :
    (ps os : List Order) (n : ℕ) (b : OrderBook) {n' : ℕ} {b' : OrderBook}
    → add_all n os b ≡ ok n' b'
    → All (IsAcceptable (ids_of ps)) os
    → AreUnknown ps b
    → AreUnknown ps b'
unfolding add_all
add_all-AreUnknown ps [] n b e fine unknown = subst (AreUnknown ps) (same_book e) unknown
  where
    same_book : {n n' : ℕ} {b b' : OrderBook} → ok n b ≡ ok n' b' → b ≡ b'
    same_book e = cc e
add_all-AreUnknown ps (o ∷ os) n b e (fine, fines) unknown =
    let (_, b₁, run, rest) = and_then-eq-ok (add o b) _ e in
    add_all-AreUnknown ps os (n + 1) b₁ rest fines (AreUnknown-add ps o b run fine.1 unknown)

fine-ArePositive :
    (ids : List ℕ) (os : List Order) → All (IsAcceptable ids) os → FitQty os → ArePositive os
fine-ArePositive ids [] h k = tt
fine-ArePositive ids (o ∷ os) (fine, h) (small, k) =
    ((omega (arith, fine.0), small), fine-ArePositive ids os h k)

module _ (b : OrderBook) (q : Queues) (wf : IsWellFormed b q) where
  -- On a well-formed book, a snapshot of `u64` sizes that passes the validation against the synthetic
  -- orders of the book, and fits into a slab with these, replaces the book by a well-formed one. Each
  -- queue holds the orders of the snapshot in their order, then the synthetic orders of the old queue
  -- in theirs, and the outcome has the numbers of both.
  pub apply_snapshot_with_policy-preserves :
      (os : List Order)
      → FitQty os
      → validate_preserve_synthetic_snapshot os (preserved_of q b) ≡ none
      → length os + length (preserved_of q b) ≤ max_slots
      → (b' : OrderBook) × (q' : Queues) × (apply_snapshot_with_policy os preserve_synthetic b
          ≡ ok (record { inserted = length os; preserved = length (preserved_of q b) }) b')
        × IsWellFormed b' q'
        × ((s : Side) (p : Price)
            → orders_of (q' s p) ≡ resting_at s p os ++ keep_synthetic (orders_of (q s p)))
  unfolding apply_snapshot_with_policy preserved_orders validate rebuild clear new_book
  apply_snapshot_with_policy-preserves os small accepted fits =
      let ps = preserved_of q b in
      let (once, fine) = validate-All os ps accepted in
      let (b₁, q₁, run₁, good₁, queues₁) =
        add_all-resting_at os 0 new_book (λ s p. []) new_book-IsWellFormed
          (new_book-room (omega arith)) (AreUnknown-new_book os) once
          (fine-ArePositive (ids_of ps) os fine small) in
      let grown : length b₁.slab ≤ length os =
        subst (Within (length os)) run₁
          (add_all-Within os 0 (length os) new_book (new_book-slots os)) in
      let (b₂, q₂, run₂, good₂, queues₂) =
        add_all-resting_at ps 0 b₁ q₁ good₁ (omega (arith, grown))
          (add_all-AreUnknown ps os 0 new_book run₁ fine (AreUnknown-new_book ps))
          (preserved_of-once b q wf) (preserved_of-ArePositive b q wf) in
      (
        b₂,
        q₂,
        rw (apply_snapshot_with_policy, synthetic_orders-preserved_of b q wf, accepted, run₁, run₂)
            (ap₂ (λ n m. ok (record { inserted = n; preserved = m }) b₂) (omega arith)
              (omega arith)),
        good₂,
        λ s p.
            queues₂ s p
            ∙ ap (λ l. l ++ resting_at s p ps) (queues₁ s p)
            ∙ ap (λ l. resting_at s p os ++ l) (preserved_of-kept b q wf s p),
      )
    where
      new_book-slots : (os : List Order) → length new_book.slab + length os ≤ length os
      new_book-slots os = omega arith
