-- ===== src/Book/Rebuild.antt =====
-- A list of new orders is added in its order: `add_all`, and the snapshot that replaces a book.
mod Tests
use mathlib.Core.Logic.{if_neg, if_pos}
use mathlib.Core.List.{append-nil, append_assoc}
use l4_book.Prelude.{
  ℕ, zero, suc, ◌+◌, ◌≤◌, ◌<◌, ◌≡◌, ◌≢◌, refl, ap, ap₂, sym, ◌∙◌, subst, List, [], ◌∷◌, ◌++◌,
  Option, none, some, ◌>>=◌, >>=-eq-some, some-inj, arith, length, length-append, Option-cases,
  Bool-cases, inl, inr, ℕ_discrete, Bool, true, false, ◌==◌, ==_ne, ltb, u64_mod, is_some,
  if◌then◌else◌,
}
use l4_book.Types.{SnapshotOutcome, Order, OrderId, Side, Price}
use l4_book.Containers.HashMap
use l4_book.Slab.{write_slot, link_tail, new_node}
use l4_book.Slab.Chain.{Cells}
use l4_book.Slab.Cells.{orders_of}
use l4_book.Book.{
  OrderBook, new_book, clear, Run, ok, max_slots, alloc_slot, insert_order, add, and_then,
  with_levels,
}
use l4_book.Book.Invariant.{IsWellFormed, Queues, NoRepeat, here, here-eq}
use l4_book.Book.Alloc.{HasRoom}
use l4_book.Book.Add.{add-enqueue, enqueue}
use l4_book.Book.Growth.{Within, add-Within}
use l4_book.Book.Ops.{new_book-IsWellFormed}
use l4_book.Book.Replay.{ids_of, add_all, apply_snapshot_with_policy, apply_snapshot}

alloc_slot-index :
    (b : OrderBook) {x : ℕ} {b' : OrderBook}
    → alloc_slot b ≡ some (x, b')
    → b'.order_index ≡ b.order_index
unfolding alloc_slot
alloc_slot-index b {x} {b'} h = choose b.free_list refl
  where
    choose : (l : List ℕ) → b.free_list ≡ l → b'.order_index ≡ b.order_index
    choose (slot ∷ rest) e =
        ap (λ (r : ℕ × OrderBook). r.1.order_index) (sym (some-inj (rw (e, alloc_slot) at h)))
    choose [] e = elim (Bool-cases (ltb (length b.slab) max_slots)) [
      | inl fits ↦
          ap (λ (r : ℕ × OrderBook). r.1.order_index)
            (sym (some-inj (rw (e, alloc_slot, fits) at h)))
      | inr full ↦ cc (rw (e, alloc_slot, full) at h)
    ]

insert_order-index :
    (o : Order) (b : OrderBook) {b' : OrderBook}
    → insert_order o b ≡ some b'
    → (x : ℕ) × (b'.order_index ≡ HashMap.insert ℕ_discrete o.id x b.order_index)
unfolding insert_order with_levels
insert_order-index o b h =
    let (t₁, e₁, h₁) = >>=-eq-some (alloc_slot b) _ h in
    let (slab, e₂, h₂) = >>=-eq-some (write_slot t₁.1.slab t₁.0 (some (new_node o))) _ h₁ in
    let (t₃, e₃, h₃) = >>=-eq-some (link_tail slab _ t₁.0) _ h₂ in
    (
      t₁.0,
      ap (λ (r : OrderBook). r.order_index) (sym (some-inj h₃))
          ∙ ap (HashMap.insert ℕ_discrete o.id t₁.0) (alloc_slot-index b e₁),
    )

ok-book : {b b' : OrderBook} → ◌≡◌ {A = Run (Unit {0})} (ok tt b) (ok tt b') → b ≡ b'
ok-book h = cc h

-- An addition makes no other identifier known.
add-unknown :
    (o : Order) (b : OrderBook) (id : OrderId) {b' : OrderBook}
    → add o b ≡ ok tt b'
    → o.id ≢ id
    → HashMap.get ℕ_discrete id b.order_index ≡ none
    → HashMap.get ℕ_discrete id b'.order_index ≡ none
unfolding add
add-unknown o b id h other unknown = elim (Bool-cases (o.qty == 0)) [
  | inl z ↦ cc (rw z at h)
  | inr nz ↦ elim (Bool-cases (HashMap.contains_key ℕ_discrete o.id b.order_index)) [
    | inl known ↦ cc (rw (nz, known) at h)
    | inr fresh ↦ elim (Option-cases (insert_order o b)) [
      | inl e ↦ cc (rw (nz, fresh, e) at h)
      | inr (b₁, e) ↦
          let (x, index) = insert_order-index o b e in
          let same : b₁ ≡ _ = ok-book (rw (nz, fresh, e) at h) in
          ap (λ (r : OrderBook). HashMap.get ℕ_discrete id r.order_index) (sym same)
          ∙ ap (HashMap.get ℕ_discrete id) index
          ∙ HashMap.get-insert ℕ_discrete o.id id x b.order_index
          ∙ rw (if_neg _ other) unknown
    ]
  ]
]

-- The orders of a list that rest on one side at one price.
abbrev pub resting_at : Side → Price → List Order → List Order
resting_at s p [] = []
resting_at s p (o ∷ os) =
    let rest = resting_at s p os in if here o.side o.price s p then o ∷ rest else rest

abbrev pub AreUnknown : List Order → OrderBook → Type 0
AreUnknown [] b = Unit {0}
AreUnknown (o ∷ os) b = (HashMap.get ℕ_discrete o.id b.order_index ≡ none) × AreUnknown os b

-- Sizes are positive `u64` values.
abbrev pub ArePositive : List Order → Type 0
ArePositive [] = Unit {0}
ArePositive (o ∷ os) = ((0 < o.qty) × (o.qty < u64_mod)) × ArePositive os

pub AreUnknown-add :
    (os : List Order) (o : Order) (b : OrderBook) {b' : OrderBook}
    → add o b ≡ ok tt b'
    → HashMap.has ℕ_discrete o.id (ids_of os) ≡ false
    → AreUnknown os b
    → AreUnknown os b'
unfolding HashMap.has
AreUnknown-add [] o b h out u = tt
AreUnknown-add (p ∷ os) o b h out u =
    (add-unknown o b p.id h (λ same. ground arith) u.0, AreUnknown-add os o b h (ground arith) u.1)

pub orders_of-append : (xs ys : Cells) → orders_of (xs ++ ys) ≡ orders_of xs ++ orders_of ys
orders_of-append [] ys = refl
orders_of-append ((x, o) ∷ xs) ys = ap (λ l. o ∷ l) (orders_of-append xs ys)

-- The queue of one side and price after an addition.
orders_of-enqueue :
    (x : ℕ) (o : Order) (q : Queues) (s : Side) (p : Price) (rest : List Order)
    → orders_of (enqueue x o q s p) ++ rest
      ≡ orders_of (q s p) ++ (if here o.side o.price s p then o ∷ rest else rest)
orders_of-enqueue x o q s p rest = elim (Bool-cases (here o.side o.price s p)) [
  | inl e ↦
      let (es, ep) = here-eq o.side s o.price p e in
      let old = q o.side o.price in
      rw e (
        ap (λ l. l ++ rest) (orders_of-append old ((x, o) ∷ []))
        ∙ append_assoc (orders_of old) (o ∷ []) rest
        ∙ ap (λ l. orders_of l ++ o ∷ rest) (ap₂ q es ep))
  | inr e ↦ rw e refl
]

-- Orders of positive `u64` sizes and new identifiers, each once, are all added to a well-formed
-- book whose slab has room for them, and rest behind its queues in their order.
pub add_all-resting_at :
    (os : List Order) (n : ℕ) (b : OrderBook) (q : Queues)
    → IsWellFormed b q
    → length b.slab + length os ≤ max_slots
    → AreUnknown os b
    → NoRepeat (ids_of os)
    → ArePositive os
    → (b' : OrderBook) × (q' : Queues) × (add_all n os b ≡ ok (n + length os) b')
      × IsWellFormed b' q'
      × ((s : Side) (p : Price) → orders_of (q' s p) ≡ orders_of (q s p) ++ resting_at s p os)
unfolding add_all
add_all-resting_at [] n b q wf room unknown once sized =
    (b, q, ap (λ k. ok k b) (omega arith), wf, λ s p. sym (append-nil (orders_of (q s p))))
add_all-resting_at (o ∷ os) n b q wf room unknown once sized =
    let (x, b₁, run, good) =
      add-enqueue b q o wf (inr (omega arith)) sized.0.0 sized.0.1 unknown.0 in
    let grown : length b₁.slab ≤ suc (length b.slab) =
      subst (Within (suc (length b.slab))) run (add-Within o b) in
    let (b', q', all, good', queues) =
      add_all-resting_at os (n + 1) b₁ (enqueue x o q) good (omega arith)
        (AreUnknown-add os o b run once.0 unknown.1) once.1 sized.1 in
    (
      b',
      q',
      rw run (all ∙ ap (λ k. ok k b') (omega arith)),
      good',
      λ s p. queues s p ∙ orders_of-enqueue x o q s p (resting_at s p os),
    )

pub AreUnknown-new_book : (os : List Order) → AreUnknown os new_book
unfolding new_book HashMap.get
AreUnknown-new_book [] = tt
AreUnknown-new_book (o ∷ os) = (refl, AreUnknown-new_book os)

pub new_book-room : {n : ℕ} → n ≤ max_slots → length new_book.slab + n ≤ max_slots
unfolding new_book
new_book-room fits = omega arith

apply_snapshot-eq :
    (os : List Order) (b : OrderBook) {n : ℕ} {b' : OrderBook}
    → add_all 0 os new_book ≡ ok n b'
    → apply_snapshot os b ≡ ok tt b'
unfolding apply_snapshot apply_snapshot_with_policy clear new_book
apply_snapshot-eq os b all =
    ap
      (λ (r : Run ℕ).
        and_then {A = SnapshotOutcome}
          (and_then r (λ inserted b₁. ok record { inserted = inserted; preserved = 0 } b₁))
          (λ x b₁. ok tt b₁))
      all

-- A snapshot of orders of positive `u64` sizes with distinct identifiers, which fit into a slab,
-- replaces any book by a well-formed one, whose queues are the orders of the snapshot in its order.
pub apply_snapshot-resting_at :
    (os : List Order) (b : OrderBook)
    → length os ≤ max_slots
    → NoRepeat (ids_of os)
    → ArePositive os
    → (b' : OrderBook) × (q' : Queues) × (apply_snapshot os b ≡ ok tt b')
      × IsWellFormed b' q'
      × ((s : Side) (p : Price) → orders_of (q' s p) ≡ resting_at s p os)
apply_snapshot-resting_at os b fits once sized =
    let (b', q', all, good, queues) =
      add_all-resting_at os 0 new_book (λ s p. []) new_book-IsWellFormed (new_book-room fits)
        (AreUnknown-new_book os) once sized in
    (b', q', apply_snapshot-eq os b all, good, queues)
