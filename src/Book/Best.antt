-- ===== src/Book/Best.antt =====
-- The best prices are those of the queues nearest to the other side.
use l4_book.Prelude.{
  ℕ, ◌≤◌, ◌<◌, ◌≡◌, ◌≢◌, refl, List, [], ◌∷◌, some, arith, ℕ_discrete, Option-cases, inl, inr,
  subst,
}
use l4_book.Types.{Side, bid, ask, Price}
use l4_book.Containers.TreeMap
use l4_book.Slab.{Level, node_at}
use l4_book.Book.{OrderBook, levels_of}
use l4_book.Book.Invariant.{IsWellFormed, Queues, IsLevel, level_at}
use l4_book.Book.Queries.{best_bid, best_ask}

module _ {ℓ} {V : Type ℓ} where
  -- A key of a sorted map is not below the bound.
  pub get-Above :
      (k j : ℕ) (v : V) (m : List (ℕ × V)) → TreeMap.Above k m → TreeMap.get j m ≡ some v → k < j
  unfolding TreeMap.get
  get-Above k j v [] a e = cc
  get-Above k j v ((i, w) ∷ m) a e = ground (arith, get-Above i j v m)

  -- The first key is in the map and not above any.
  first_key-lowest :
      (j : ℕ) (v : V) (m : List (ℕ × V))
      → TreeMap.IsSorted m
      → TreeMap.get j m ≡ some v
      → (k : ℕ) × (u : V) × (TreeMap.first_key m ≡ some k) × (TreeMap.get k m ≡ some u) × (k ≤ j)
  unfolding TreeMap.get TreeMap.first_key
  first_key-lowest j v [] a e = cc
  first_key-lowest j v ((i, w) ∷ m) a e =
      (i, w, refl, ground arith, ground (arith, get-Above i j v m))

  -- The last key is in the map and not below any.
  last_key_lem :
      (i : ℕ) (w : V) (m : List (ℕ × V))
      → TreeMap.Above i m
      → (k : ℕ) × (u : V) × (TreeMap.last_key ((i, w) ∷ m) ≡ some k)
        × (TreeMap.get k ((i, w) ∷ m) ≡ some u)
        × (i ≤ k)
  unfolding TreeMap.get TreeMap.last_key
  last_key_lem i w [] a = (i, w, refl, ground arith, omega arith)
  last_key_lem i w ((i', w') ∷ m) a =
      let (k, u, e, g, le) = last_key_lem i' w' m a.1 in (k, u, e, ground arith, omega arith)

  last_key-highest :
      (j : ℕ) (v : V) (i : ℕ) (w : V) (m : List (ℕ × V))
      → TreeMap.Above i m
      → TreeMap.get j ((i, w) ∷ m) ≡ some v
      → (k : ℕ) × (u : V) × (TreeMap.last_key ((i, w) ∷ m) ≡ some k)
        × (TreeMap.get k ((i, w) ∷ m) ≡ some u)
        × (j ≤ k)
  unfolding TreeMap.get TreeMap.last_key
  last_key-highest j v i w [] a e = (i, w, refl, ground arith, ground arith)
  last_key-highest j v i w ((i', w') ∷ m) a e = elim (ℕ_discrete i j) [
    | yes same ↦
        let (k, u, l, g, le) = last_key_lem i' w' m a.1 in (k, u, l, ground arith, omega arith)
    | no other ↦
        let rest : TreeMap.get j ((i', w') ∷ m) ≡ some v = ground arith in
        let (k, u, l, g, le) = last_key-highest j v i' w' m a.1 rest in
        (k, u, l, ground (arith, get-Above i j v ((i', w') ∷ m) a rest), le)
  ]

module _ (b : OrderBook) (q : Queues) (wf : IsWellFormed b q) where
  pub level_of_queue :
      (s : Side) (p : Price) → q s p ≢ [] → (level : Level) × (level_at s p b ≡ some level)
  level_of_queue s p busy = elim (Option-cases (level_at s p b)) [
    | inl e ↦ absurd (busy (subst (λ v. IsLevel (node_at b.slab) v (q s p)) e (wf.levels s p)))
    | inr found ↦ found
  ]

  level-occupied : (s : Side) (p : Price) (level : Level) → level_at s p b ≡ some level → q s p ≢ []
  level-occupied s p level e =
      (subst (λ v. IsLevel (node_at b.slab) v (q s p)) e (wf.levels s p)).occupied

  -- On a well-formed book where some order is offered at `p'`, `best_ask` is the price of a queue
  -- that is not empty, and not above `p'`.
  pub best_ask-lowest :
      (p' : Price) → q ask p' ≢ [] → (p : Price) × (best_ask b ≡ some p) × (q ask p ≢ []) × (p ≤ p')
  unfolding best_ask levels_of
  best_ask-lowest p' busy =
      let (level, e) = level_of_queue ask p' busy in
      let (p, level', first, found, le) = first_key-lowest p' level b.asks (wf.sorted ask) e in
      (p, first, level-occupied ask p level' found, le)

  -- On a well-formed book where some order bids at `p'`, `best_bid` is the price of a queue that
  -- is not empty, and not below `p'`.
  pub best_bid-highest :
      (p' : Price) → q bid p' ≢ [] → (p : Price) × (best_bid b ≡ some p) × (q bid p ≢ []) × (p' ≤ p)
  unfolding best_bid levels_of TreeMap.get
  best_bid-highest p' busy =
      let (level, e) = level_of_queue bid p' busy in
      let (p, level', last, found, le) = last_of b.bids level (wf.sorted bid) e in
      (p, last, level-occupied bid p level' found, le)
    where
      last_of :
          (m : List (ℕ × Level)) (v : Level)
          → TreeMap.IsSorted m
          → TreeMap.get p' m ≡ some v
          → (k : ℕ) × (u : Level) × (TreeMap.last_key m ≡ some k)
            × (TreeMap.get k m ≡ some u)
            × (p' ≤ k)
      last_of [] v a e = absurd (cc e)
      last_of ((i, w) ∷ m) v a e = last_key-highest p' v i w m a e
