-- ===== src/Book/Kept/Refused.antt =====
-- A snapshot that is refused while the synthetic orders of the book stay.
use l4_book.Prelude.{
  ◌≡◌, ◌≢◌, refl, ◌∙◌, List, [], ◌∷◌, ◌++◌, none, some, arith, ℕ_discrete, true, false, ◌||◌, ◌⊎◌,
  inl, inr, Bool-cases, All, ==_ne,
}
use l4_book.Types.{
  Order, OrderId, BookError, zero_qty, duplicate_order_id, unknown_order_id, non_decreasing_size,
  invalid_wallet_hex, synthetic_order_id_in_snapshot, preserve_synthetic,
}
use l4_book.Types.Ids.{is_synthetic_order_id}
use l4_book.Containers.HashMap
use l4_book.Book.{OrderBook, err}
use l4_book.Book.Invariant.{IsWellFormed, Queues, NoRepeat, order_by_id}
use l4_book.Book.Kept.Known.{among, preserved-known, known-preserved}
use l4_book.Book.Preserved.{preserved_of, synthetic_orders-preserved_of}
use l4_book.Book.Replay.{
  ids_of, validate_loop, validate_preserve_synthetic_snapshot, preserved_orders, validate,
  apply_snapshot_with_policy,
}
use l4_book.Book.Snapshots.{IsAcceptable}

-- What is wrong with an order of a snapshot that comes behind others, in words of what rests.
abbrev pub IsFault : OrderBook → List Order → Order → BookError → Type 0
IsFault b before o zero_qty = o.qty ≡ 0
IsFault b before o (duplicate_order_id id) =
    (o.qty ≢ 0)
    × (id ≡ o.id)
    × (((is_synthetic_order_id o.id ≡ true) × (p : Order) × (order_by_id o.id b ≡ some p))
        ⊎ ((is_synthetic_order_id o.id ≡ false)
            × (HashMap.has ℕ_discrete o.id (ids_of before) ≡ true)))
IsFault b before o (synthetic_order_id_in_snapshot id) =
    (o.qty ≢ 0) × (id ≡ o.id) × (is_synthetic_order_id o.id ≡ true) × (order_by_id o.id b ≡ none)
IsFault b before o (unknown_order_id id) = ⊥
IsFault b before o (non_decreasing_size old new) = ⊥
IsFault b before o invalid_wallet_hex = ⊥

-- An order with a positive size and no synthetic identifier.
abbrev pub IsVenueOrder : Order → Type 0
IsVenueOrder o = (o.qty ≢ 0) × (is_synthetic_order_id o.id ≡ false)

module _ (preserved : List OrderId) where
  -- The loop goes on behind orders that are fine.
  validate_loop-behind :
      (seen : List OrderId) (os rest : List Order)
      → NoRepeat (ids_of os)
      → All (IsAcceptable preserved) os
      → ((id : OrderId) → among id os ≡ true → HashMap.has ℕ_discrete id seen ≡ false)
      → (seen' : List OrderId) × (validate_loop preserved seen (os ++ rest)
          ≡ validate_loop preserved seen' rest)
        × ((id : OrderId)
            → HashMap.has ℕ_discrete id seen' ≡ (among id os || HashMap.has ℕ_discrete id seen))
  unfolding validate_loop HashMap.has
  validate_loop-behind seen [] rest once fine new = (seen, refl, λ id. refl)
  validate_loop-behind seen (o ∷ os) rest (out, once) ((sized, apart, venue), fine) new =
      let (seen', e, same) =
        validate_loop-behind (HashMap.set_insert ℕ_discrete o.id seen) os rest once fine
          (λ id m. ground (arith, new id, HashMap.has-set_insert ℕ_discrete o.id id seen)) in
      (
        seen',
        rw (==_ne o.qty 0 sized, apart, venue, new o.id (ground arith)) e,
        λ id. ground (arith, same id, HashMap.has-set_insert ℕ_discrete o.id id seen),
      )

module _ (b : OrderBook) (q : Queues) (wf : IsWellFormed b q) where
  venue-apart :
      (id : OrderId) → is_synthetic_order_id id ≡ false → among id (preserved_of q b) ≡ false
  venue-apart id venue = elim (Bool-cases (among id (preserved_of q b))) [
    | inl e ↦ cc (venue, (preserved-known b q wf id e).0)
    | inr e ↦ e
  ]

  unknown-apart : (id : OrderId) → order_by_id id b ≡ none → among id (preserved_of q b) ≡ false
  unknown-apart id unknown = elim (Bool-cases (among id (preserved_of q b))) [
    | inl e ↦ cc (unknown, (preserved-known b q wf id e).1.1)
    | inr e ↦ e
  ]

  venue-IsAcceptable :
      (os : List Order) → All IsVenueOrder os → All (IsAcceptable (ids_of (preserved_of q b))) os
  venue-IsAcceptable [] h = tt
  venue-IsAcceptable (o ∷ os) ((sized, venue), h) =
      ((sized, venue-apart o.id venue, venue), venue-IsAcceptable os h)

  -- The loop stops at the fault.
  validate_loop-IsFault :
      (seen : List OrderId) (before rest : List Order) (o : Order) (e : BookError)
      → ((id : OrderId) → HashMap.has ℕ_discrete id seen ≡ (among id before || false))
      → IsFault b before o e
      → validate_loop (ids_of (preserved_of q b)) seen (o ∷ rest) ≡ some e
  unfolding validate_loop
  validate_loop-IsFault seen before rest o zero_qty same fault = rw fault refl
  validate_loop-IsFault seen before rest o (duplicate_order_id id) same (sized, name, fault) =
      elim fault [
        | inl (synthetic, p, known) ↦
            rw (==_ne o.qty 0 sized, known-preserved b q wf o.id p synthetic known, name) refl
        | inr (venue, again) ↦
            let seen_again : HashMap.has ℕ_discrete o.id seen ≡ true = same o.id ∙ rw again refl in
            rw (==_ne o.qty 0 sized, venue-apart o.id venue, venue, seen_again, name) refl
      ]
  validate_loop-IsFault seen before rest o (synthetic_order_id_in_snapshot id) same
        (sized, name, synthetic, unknown) =
      rw (==_ne o.qty 0 sized, unknown-apart o.id unknown, synthetic, name) refl
  validate_loop-IsFault seen before rest o (unknown_order_id id) same fault = absurd fault
  validate_loop-IsFault seen before rest o (non_decreasing_size old new) same fault = absurd fault
  validate_loop-IsFault seen before rest o invalid_wallet_hex same fault = absurd fault

  -- On a well-formed book, a snapshot that preserves the synthetic orders is refused at the first order
  -- with a fault, and the book stays as it is. The orders before it have distinct identifiers, none
  -- synthetic, and positive sizes. The fault is a size of zero; or, the size positive, an identifier
  -- that is synthetic and belongs to a resting order, or is not synthetic and came before, which are
  -- duplicates; or one that is synthetic and belongs to no resting order.
  pub apply_snapshot_with_policy-refuses :
      (before rest : List Order) (o : Order) (e : BookError)
      → NoRepeat (ids_of before)
      → All IsVenueOrder before
      → IsFault b before o e
      → apply_snapshot_with_policy (before ++ o ∷ rest) preserve_synthetic b ≡ err e b
  unfolding apply_snapshot_with_policy preserved_orders validate
      validate_preserve_synthetic_snapshot HashMap.has
  apply_snapshot_with_policy-refuses before rest o e once venue fault =
      let ps = ids_of (preserved_of q b) in
      let (seen, skipped, same) =
        validate_loop-behind ps [] before (o ∷ rest) once (venue-IsAcceptable before venue)
          (λ id m. refl) in
      rw
        (
          apply_snapshot_with_policy,
          synthetic_orders-preserved_of b q wf,
          skipped,
          validate_loop-IsFault seen before rest o e same fault,
        )
        refl
