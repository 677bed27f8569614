-- ===== src/Book/Alloc.antt =====
-- `alloc_slot` takes a slot that holds no order.
use l4_book.Prelude.{
  ℕ, ◌≤◌, ◌<◌, ◌≡◌, refl, ◌≢◌, ◌⊎◌, inl, inr, ap, ◌∙◌, subst, List, [], ◌∷◌, ◌++◌, none, some,
  arith, length, ℕ_discrete, true, false, length-append,
}
use l4_book.Containers.HashMap
use l4_book.Slab.{Slab, node_at}
use l4_book.Slab.Laws.{node_at-push, node_at_end}
use l4_book.Book.{OrderBook, alloc_slot, max_slots}
use l4_book.Book.Invariant.{IsWellFormed, Queues, NoRepeat}

-- A freed slot can be taken again, or the slab can grow.
abbrev pub HasRoom : OrderBook → Type 0
HasRoom b = (b.free_list ≢ []) ⊎ (length b.slab < max_slots)

pub record Allocated (b : OrderBook) (x : ℕ) (slab : Slab) (free_list : List ℕ) : Type 0 where
  pub step : alloc_slot b ≡ some (x, record b { slab = slab; free_list = free_list })
  pub nodes : (j : ℕ) → node_at slab j ≡ node_at b.slab j
  pub empty : node_at slab x ≡ none
  pub inside : x < length slab
  pub small : length slab ≤ max_slots
  pub free :
      (i : ℕ)
      → HashMap.has ℕ_discrete i free_list ≡ true
      → (node_at slab i ≡ none) × (i < length slab)
  pub fresh : HashMap.has ℕ_discrete x free_list ≡ false
  pub no_leak :
      (i : ℕ)
      → i < length slab
      → node_at slab i ≡ none
      → x ≢ i
      → HashMap.has ℕ_discrete i free_list ≡ true
  pub no_repeat : NoRepeat free_list

module _ (b : OrderBook) (q : Queues) (wf : IsWellFormed b q) where
  reuse : (x : ℕ) (rest : List ℕ) → b.free_list ≡ x ∷ rest → Allocated b x b.slab rest
  unfolding alloc_slot HashMap.has
  reuse x rest e =
      let nr = subst NoRepeat e wf.no_repeat in
      let split = λ (i : ℕ). ap (HashMap.has ℕ_discrete i) e in
      let (vacant, inside) = wf.free x (ground (arith, split x)) in
      record {
        step = rw e refl;
        nodes = λ j. refl;
        empty = vacant;
        inside = inside;
        small = wf.small;
        free = λ i m. wf.free i (ground (arith, split i));
        fresh = nr.0;
        no_leak = λ i small empty ne. ground (arith, split i, wf.no_leak i small empty);
        no_repeat = nr.1;
      }

  grow :
      b.free_list ≡ []
      → length b.slab < max_slots
      → Allocated b (length b.slab) (b.slab ++ none ∷ []) []
  unfolding alloc_slot HashMap.has
  grow e room = record {
    step = rw e (ground arith);
    nodes = λ j. node_at-push b.slab j;
    empty = node_at-push b.slab (length b.slab) ∙ node_at_end b.slab;
    inside = omega (arith, length-append b.slab (none ∷ []));
    small = omega (arith, length-append b.slab (none ∷ []));
    free = λ i m. cc;
    fresh = refl;
    no_leak = λ i inside vacant ne.
        let full =
          wf.no_leak i (omega (arith, length-append b.slab (none ∷ [])))
            (ground (arith, node_at-push b.slab i)) in
        cc (ap (HashMap.has ℕ_discrete i) e, full);
    no_repeat = tt;
  }

  pub alloc_slot_lem :
      HasRoom b → (x : ℕ) × (slab : Slab) × (free_list : List ℕ) × Allocated b x slab free_list
  alloc_slot_lem room = choose b.free_list refl room
    where
      choose :
          (l : List ℕ)
          → b.free_list ≡ l
          → HasRoom b
          → (x : ℕ) × (slab : Slab) × (free_list : List ℕ) × Allocated b x slab free_list
      choose (x ∷ rest) e r = (x, b.slab, rest, reuse x rest e)
      choose [] e (inl ne) = absurd (ne e)
      choose [] e (inr room) = (length b.slab, b.slab ++ none ∷ [], [], grow e room)
