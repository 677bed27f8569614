-- ===== src/Book/Growth/Frames.antt =====
-- What holds of a book through removals and partial fills, and so through the fills of a taker order.
use l4_book.Prelude.{
  ℕ, ◌≡◌, refl, List, [], ◌∷◌, Option, none, some, ◌>>=◌, ◌==◌, leb, ℕ_discrete, Bool-cases,
  Option-cases, inl, inr,
}
use l4_book.Types.{Order, OrderId, Price, Qty, Side, FillDelta}
use l4_book.Containers.HashMap
use l4_book.Slab.{Slab, Level, OrderNode, node_at}
use l4_book.Book.{
  OrderBook, Run, ok, err, panic, run_or_panic, discard, and_then, remove_slot, remove, shrink_slot,
  update_size_at, update_size,
}
use l4_book.Book.Taker.{apply_fill, apply_fills, apply_taker_order, match_taker_order}

module _ (P : OrderBook → Type 0) where
  -- The book of the result has the property.
  abbrev pub Holds : {A : Type 0} → Run A → Type 0
  Holds (ok a b) = P b
  Holds (err e b) = P b
  Holds panic = Unit {0}

  abbrev pub HoldsAfter : {A : Type 0} → Option (A × OrderBook) → Type 0
  HoldsAfter none = Unit {0}
  HoldsAfter (some (a, b)) = P b

  run_or_panic-Holds :
      {A : Type 0} (r : Option (A × OrderBook)) → HoldsAfter r → Holds (run_or_panic r)
  run_or_panic-Holds none h = tt
  run_or_panic-Holds (some (a, b)) h = h

  discard-Holds : {A : Type 0} (r : Run A) → Holds r → Holds (discard r)
  discard-Holds (ok a b) h = h
  discard-Holds (err e b) h = h
  discard-Holds panic h = tt

  pub found-HoldsAfter :
      {A B : Type 0} (m : Option B) (f : B → Option (A × OrderBook))
      → ((v : B) → m ≡ some v → HoldsAfter (f v))
      → HoldsAfter (m >>= f)
  found-HoldsAfter none f k = tt
  found-HoldsAfter (some v) f k = k v refl

  pub linked-HoldsAfter :
      {A : Type 0} (m : Option (Slab × Level)) (f : Slab × Level → Option (A × OrderBook))
      → ((s : Slab) (l : Level) → HoldsAfter (f (s, l)))
      → HoldsAfter (m >>= f)
  linked-HoldsAfter none f k = tt
  linked-HoldsAfter (some (s, l)) f k = k s l

  chain-Holds :
      {A B : Type 0} (r : Run A) (f : A → OrderBook → Run B)
      → Holds r
      → ((a : A) (b : OrderBook) → P b → Holds (f a b))
      → Holds (and_then r f)
  chain-Holds (ok a b) f h k = k a b h
  chain-Holds (err e b) f h k = h
  chain-Holds panic f h k = tt

  module _
      (removed : (id : OrderId) (slot : ℕ) (b : OrderBook)
        → P b
        → HoldsAfter (remove_slot id slot b))
      (shrunk : (slot : ℕ) (o : Order) (n : Qty) (b : OrderBook)
        → P b
        → HoldsAfter (shrink_slot slot o n b)) where
    remove-Holds : (id : OrderId) (b : OrderBook) → P b → Holds (remove id b)
    unfolding remove
    remove-Holds id b h = elim (Option-cases (HashMap.get ℕ_discrete id b.order_index)) [
      | inl e ↦ rw (e, remove) h
      | inr (slot, e) ↦ rw (e, remove) (run_or_panic-Holds _ (removed id slot b h))
    ]

    update_size_at-Holds :
        (id : OrderId) (slot : ℕ) (n : Qty) (b : OrderBook) (node : Option OrderNode)
        → P b
        → Holds (update_size_at id slot n b node)
    unfolding update_size_at
    update_size_at-Holds id slot n b none h = tt
    update_size_at-Holds id slot n b (some node) h = elim (Bool-cases (leb node.order.qty n)) [
      | inl more ↦ rw more h
      | inr less ↦ elim (Bool-cases (n == 0)) [
        | inl z ↦ rw (less, z) (discard-Holds (remove id b) (remove-Holds id b h))
        | inr nz ↦ rw (less, nz) (run_or_panic-Holds _ (shrunk slot node.order n b h))
      ]
    ]

    update_size-Holds : (id : OrderId) (n : Qty) (b : OrderBook) → P b → Holds (update_size id n b)
    unfolding update_size
    update_size-Holds id n b h = elim (Option-cases (HashMap.get ℕ_discrete id b.order_index)) [
      | inl e ↦ rw (e, update_size) h
      | inr (slot, e) ↦
          rw (e, update_size) (update_size_at-Holds id slot n b (node_at b.slab slot) h)
    ]

    apply_fill-Holds : (fill : FillDelta) (b : OrderBook) → P b → Holds (apply_fill fill b)
    unfolding apply_fill
    apply_fill-Holds fill b h = elim (Bool-cases fill.maker_removed) [
      | inl e ↦
          rw e (discard-Holds (remove fill.maker_order_id b) (remove-Holds fill.maker_order_id b h))
      | inr e ↦ rw e (update_size-Holds fill.maker_order_id fill.maker_qty_after b h)
    ]

    pub apply_fills-Holds :
        (fills : List FillDelta) (b : OrderBook) → P b → Holds (apply_fills fills b)
    unfolding apply_fills
    apply_fills-Holds [] b h = h
    apply_fills-Holds (fill ∷ fills) b h =
        chain-Holds (apply_fill fill b) _ (apply_fill-Holds fill b h)
          (λ _ b' h'. apply_fills-Holds fills b' h')

    pub apply_taker_order-Holds :
        (side : Side) (qty : Qty) (limit : Price) (b : OrderBook)
        → P b
        → Holds (apply_taker_order side qty limit b)
    unfolding apply_taker_order
    apply_taker_order-Holds side qty limit b h = elim (Bool-cases (qty == 0)) [
      | inl z ↦ rw z h
      | inr nz ↦ elim (Option-cases (match_taker_order side qty limit b)) [
        | inl e ↦ rw (nz, apply_taker_order, e) tt
        | inr (m, e) ↦
            rw (nz, apply_taker_order, e)
              (chain-Holds (apply_fills m.fills b) _ (apply_fills-Holds m.fills b h)
                (λ _ b' h'. h'))
      ]
    ]
