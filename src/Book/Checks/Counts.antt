-- ===== src/Book/Checks/Counts.antt =====
-- The index has as many entries as the slab has orders.
use l4_book.Prelude.{
  ℕ, zero, suc, ◌+◌, ◌<◌, ◌≡◌, refl, ap, sym, ◌∙◌, List, [], ◌∷◌, Option, none, some, arith, length,
  ℕ_discrete, true, false, is_some, some-inj, Bool-cases, inl, inr,
}
use l4_book.Types.{Order, OrderId}
use l4_book.Containers.HashMap
use l4_book.Slab.{Slab, OrderNode, node_at}
use l4_book.Slab.Laws.{order_of}
use l4_book.Book.{OrderBook}
use l4_book.Book.Checks.{count_live}
use l4_book.Book.Invariant.{IsWellFormed, Queues, NoRepeat, order_at}

set_remove-NoRepeat :
    (i : ℕ) (l : List ℕ) → NoRepeat l → NoRepeat (HashMap.set_remove ℕ_discrete i l)
unfolding HashMap.set_remove
set_remove-NoRepeat i [] h = tt
set_remove-NoRepeat i (j ∷ l) h =
    ground (arith, HashMap.has-set_remove ℕ_discrete i j l, set_remove-NoRepeat i l)

absent-set_remove :
    (i : ℕ) (l : List ℕ)
    → HashMap.has ℕ_discrete i l ≡ false
    → HashMap.set_remove ℕ_discrete i l ≡ l
unfolding HashMap.set_remove HashMap.has
absent-set_remove i [] h = refl
absent-set_remove i (j ∷ l) h = ground (arith, absent-set_remove i l)

length-set_remove :
    (i : ℕ) (l : List ℕ)
    → NoRepeat l
    → HashMap.has ℕ_discrete i l ≡ true
    → length l ≡ suc (length (HashMap.set_remove ℕ_discrete i l))
unfolding HashMap.set_remove HashMap.has
length-set_remove i [] h m = cc
length-set_remove i (j ∷ l) h m = ground (arith, length-set_remove i l, absent-set_remove i l)

-- Lists without repetition that have the same members are equally long.
length-same :
    (l k : List ℕ)
    → NoRepeat l
    → NoRepeat k
    → ((i : ℕ) → HashMap.has ℕ_discrete i l ≡ HashMap.has ℕ_discrete i k)
    → length l ≡ length k
unfolding HashMap.has
length-same [] [] h g same = refl
length-same [] (j ∷ k) h g same = ground (arith, same j)
length-same (i ∷ l) k h g same =
    let mine : HashMap.has ℕ_discrete i k ≡ true = sym (same i) ∙ (ground arith) in
    ap suc (
      length-same l (HashMap.set_remove ℕ_discrete i k) h.1 (set_remove-NoRepeat i k g)
        (λ j. ground (arith, same j, HashMap.has-set_remove ℕ_discrete i j k, h.0)))
    ∙ sym (length-set_remove i k g mine)

-- The slots of a slab that hold an order, the first one having the number `n`.
abbrev pub lives : ℕ → Slab → List ℕ
lives n [] = []
lives n (none ∷ slab) = lives (suc n) slab
lives n (some node ∷ slab) = n ∷ lives (suc n) slab

length-lives : (n : ℕ) (slab : Slab) → length (lives n slab) ≡ count_live slab
unfolding count_live
length-lives n [] = refl
length-lives n (none ∷ slab) = length-lives (suc n) slab
length-lives n (some node ∷ slab) = ap suc (length-lives (suc n) slab)

below-lives :
    (n : ℕ) (slab : Slab) (x : ℕ) → x < n → HashMap.has ℕ_discrete x (lives n slab) ≡ false
unfolding HashMap.has
below-lives n [] x h = refl
below-lives n (none ∷ slab) x h = below-lives (suc n) slab x (omega arith)
below-lives n (some node ∷ slab) x h = ground (arith, below-lives (suc n) slab x)

lives-NoRepeat : (n : ℕ) (slab : Slab) → NoRepeat (lives n slab)
lives-NoRepeat n [] = tt
lives-NoRepeat n (none ∷ slab) = lives-NoRepeat (suc n) slab
lives-NoRepeat n (some node ∷ slab) =
    (below-lives (suc n) slab n (omega arith), lives-NoRepeat (suc n) slab)

has-lives :
    (n : ℕ) (slab : Slab) (k : ℕ)
    → HashMap.has ℕ_discrete (n + k) (lives n slab) ≡ is_some (node_at slab k)
unfolding HashMap.has node_at
has-lives n [] k = refl
has-lives n (none ∷ slab) zero = below-lives (suc n) slab (n + 0) (omega arith)
has-lives n (some node ∷ slab) zero = ground arith
has-lives n (none ∷ slab) (suc k) =
    ap (λ j. HashMap.has ℕ_discrete j (lives (suc n) slab)) (omega arith) ∙ has-lives (suc n) slab k
has-lives n (some node ∷ slab) (suc k) =
    let e : n + suc k ≡ suc n + k = omega arith in
    ground
      (arith, has-lives (suc n) slab k, ap (λ j. HashMap.has ℕ_discrete j (lives (suc n) slab)) e)

is_some-live :
    (slab : Slab) (x : ℕ) (v : Option OrderNode)
    → node_at slab x ≡ v
    → HashMap.has ℕ_discrete x (lives 0 slab) ≡ is_some v
is_some-live slab x v e =
    let zero_add : 0 + x ≡ x = omega arith in
    ap (λ k. HashMap.has ℕ_discrete k (lives 0 slab)) (sym zero_add)
    ∙ has-lives 0 slab x
    ∙ ap is_some e

abbrev slots : List (OrderId × ℕ) → List ℕ
slots [] = []
slots ((id, i) ∷ m) = i ∷ slots m

length-slots : (m : List (OrderId × ℕ)) → length (slots m) ≡ length m
length-slots [] = refl
length-slots ((id, i) ∷ m) = ap suc (length-slots m)

slot-get :
    (m : List (OrderId × ℕ)) (x : ℕ)
    → HashMap.IsKeyed ℕ_discrete m
    → HashMap.has ℕ_discrete x (slots m) ≡ true
    → (id : OrderId) × (HashMap.get ℕ_discrete id m ≡ some x)
unfolding HashMap.has HashMap.get
slot-get [] x h e = cc
slot-get ((id, i) ∷ m) x h e = elim (ℕ_discrete i x) [
  | yes same ↦ (id, ground arith)
  | no other ↦ let (id', at) = slot-get m x h.1 (ground arith) in (id', ground arith)
]

get-slot :
    (m : List (OrderId × ℕ)) (x : ℕ) (id : OrderId)
    → HashMap.get ℕ_discrete id m ≡ some x
    → HashMap.has ℕ_discrete x (slots m) ≡ true
unfolding HashMap.has HashMap.get
get-slot [] x id e = cc
get-slot ((j, i) ∷ m) x id e = ground (arith, get-slot m x id)

-- An index each of whose entries leads to the order of that identifier.
module _ (id_at : ℕ → Option OrderId) where
  abbrev Hits : List (OrderId × ℕ) → Type 0
  Hits m = (id : OrderId) (i : ℕ) → HashMap.get ℕ_discrete id m ≡ some i → id_at i ≡ some id

  Hits-tail :
      (id : OrderId) (i : ℕ) (m : List (OrderId × ℕ))
      → HashMap.get ℕ_discrete id m ≡ none
      → Hits ((id, i) ∷ m)
      → Hits m
  unfolding HashMap.get
  Hits-tail id i m new hits id' j e = ground (arith, hits id' j)

  slots-NoRepeat :
      (m : List (OrderId × ℕ)) → HashMap.IsKeyed ℕ_discrete m → Hits m → NoRepeat (slots m)
  unfolding HashMap.get
  slots-NoRepeat [] h hits = tt
  slots-NoRepeat ((id, i) ∷ m) h hits = (
    elim (Bool-cases (HashMap.has ℕ_discrete i (slots m))) [
      | inr e ↦ e
      | inl e ↦
          let (id', at) = slot-get m i h.1 e in
          let first : id_at i ≡ some id = hits id i (ground arith) in
          let second : id_at i ≡ some id' = Hits-tail id i m h.0 hits id' i at in
          let same : id' ≡ id = some-inj (sym second ∙ first) in
          cc (h.0, at, ap (λ k. HashMap.get ℕ_discrete k m) same)
    ],
    slots-NoRepeat m h.1 (Hits-tail id i m h.0 hits),
  )

module _ (b : OrderBook) (q : Queues) (wf : IsWellFormed b q) where
  abbrev id_of : Option Order → Option OrderId
  id_of none = none
  id_of (some o) = some o.id

  index-Hits : Hits (λ i. id_of (order_at b i)) b.order_index
  index-Hits id i e = let (o, at, same) = wf.indexed id i e in ap id_of at ∙ ap some same

  has-slots :
      (x : ℕ)
      → HashMap.has ℕ_discrete x (slots b.order_index) ≡ HashMap.has ℕ_discrete x (lives 0 b.slab)
  has-slots x = go (node_at b.slab x) refl
    where
      go :
          (v : Option OrderNode)
          → node_at b.slab x ≡ v
          → HashMap.has ℕ_discrete x (slots b.order_index)
            ≡ HashMap.has ℕ_discrete x (lives 0 b.slab)
      go (some n) e =
          get-slot b.order_index x n.order.id (wf.found x n.order (ap order_of e))
          ∙ sym (is_some-live b.slab x (some n) e)
      go none e = elim (Bool-cases (HashMap.has ℕ_discrete x (slots b.order_index))) [
        | inr out ↦ out ∙ sym (is_some-live b.slab x none e)
        | inl m ↦
            let (id, at) = slot-get b.order_index x wf.keyed m in
            let (o, live, same) = wf.indexed id x at in absurd (cc (live, ap order_of e))
      ]

  -- The index has as many entries as the slab has orders.
  pub index-count_live : length b.order_index ≡ count_live b.slab
  index-count_live =
      sym (length-slots b.order_index)
      ∙ length-same (slots b.order_index) (lives 0 b.slab)
          (slots-NoRepeat (λ i. id_of (order_at b i)) b.order_index wf.keyed index-Hits)
          (lives-NoRepeat 0 b.slab) has-slots
      ∙ length-lives 0 b.slab
