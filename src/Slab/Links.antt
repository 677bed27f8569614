-- ===== src/Slab/Links.antt =====
-- What `link_tail` does to the chain of a level.
pub mod Move
pub mod Unlink
use mathlib.Core.List.{append-nil}
use l4_book.Prelude.{
  ℕ, ◌≡◌, refl, ap, sym, ◌∙◌, [], ◌∷◌, ◌++◌, Option, none, some, arith, length, ite, ℕ_discrete,
  true, false, inl, inr, Bool-cases, ==_refl, ==_ne,
}
use l4_book.Types.{Order}
use l4_book.Slab.{
  Slab, Level, OrderNode, node_at, update_node, link_tail, relink_prev, relink_next, unlink,
  move_to_tail, eq_some,
}
use l4_book.Slab.Laws.{Nodes, adjust, IsLive, Leaves, update_node_lem, order_of}
use l4_book.Slab.Chain.{
  Cells, has, head_or, last_or, link, Chain, Distinct, Disjoint, has-append, not-has-append,
  Chain-frame, Chain-split, Chain-join, Distinct-join, Distinct-split, adjust-head_or,
  adjust-last_or, IsLive-head_or, IsLive-last_or, set_next, set_prev, Chain-set_next,
  Chain-set_prev,
}

-- The ends of the list, as a level keeps them.
pub record HasEnds (level : Level) (xs : Cells) : Type 0 where
  pub first : level.head ≡ head_or xs none
  pub last : level.tail ≡ last_or none xs

abbrev pub with_ends : Level → Cells → Level
with_ends level xs = record level { head = head_or xs none; tail = last_or none xs }

-- The same orders stand in the same slots.
abbrev pub SameOrders : Nodes → Nodes → Type 0
SameOrders h g = (j : ℕ) → order_of (g j) ≡ order_of (h j)

pub adjust-SameOrders :
    (a : Option ℕ) (f : OrderNode → OrderNode) (h : Nodes)
    → ((n : OrderNode) → (f n).order ≡ n.order)
    → SameOrders h (adjust a f h)
unfolding adjust
adjust-SameOrders none f h same j = refl
adjust-SameOrders (some a) f h same j =
    elim (h j)
      as (λ v.
        order_of (ite (ℕ_discrete a j) (elim v [ none ↦ none | some n ↦ some (f n) ]) v)
        ≡ order_of v) [ none ↦ ground arith | some n ↦ ground (arith, same n) ]

-- What a step on the links leaves.
pub record Linked (slab slab' : Slab) (xs : Cells) : Type 0 where
  pub chain : Chain (node_at slab') none xs none
  pub orders : SameOrders (node_at slab) (node_at slab')
  pub frame : (j : ℕ) → has j xs ≡ false → node_at slab' j ≡ node_at slab j
  pub size : length slab' ≡ length slab

Leaves-SameOrders :
    (a : Option ℕ) (f : OrderNode → OrderNode) (slab slab' : Slab)
    → ((n : OrderNode) → (f n).order ≡ n.order)
    → Leaves slab slab' (adjust a f (node_at slab))
    → SameOrders (node_at slab) (node_at slab')
Leaves-SameOrders a f slab slab' same l j =
    ap order_of (l.0 j) ∙ adjust-SameOrders a f (node_at slab) same j

pub head_or-append :
    (xs ys : Cells) (n : Option ℕ) → head_or (xs ++ ys) n ≡ head_or xs (head_or ys n)
head_or-append [] ys n = refl
head_or-append (c ∷ xs) ys n = refl

pub last_or-append :
    (p : Option ℕ) (xs ys : Cells) → last_or p (xs ++ ys) ≡ last_or (last_or p xs) ys
last_or-append p [] ys = refl
last_or-append p ((x, o) ∷ xs) ys = last_or-append (some x) xs ys

last_or-some :
    (y : ℕ) (p : Order) (ys : Cells)
    → (a : ℕ) × (last_or (some y) ys ≡ some a) × (has a ((y, p) ∷ ys) ≡ true)
last_or-some y p [] = (y, refl, ground arith)
last_or-some y p ((z, q) ∷ ys) = let (a, e, m) = last_or-some z q ys in (a, e, ground arith)

-- A change of the node at `x` is none elsewhere.
apart_from :
    (j x : ℕ) (o : Order) (f : OrderNode → OrderNode) (h : Nodes) {v : Option OrderNode}
    → has j ((x, o) ∷ []) ≡ false
    → v ≡ adjust (some x) f h j
    → v ≡ h j
unfolding adjust
apart_from j x o f h out e = ground arith

module _ (slab : Slab) (xs : Cells) (x : ℕ) (o : Order) (a : ℕ) where
  -- The two writes of `link_tail` behind the old tail `a`.
  link_behind :
      last_or none xs ≡ some a
      → Chain (node_at slab) none xs none
      → Distinct xs
      → has x xs ≡ false
      → node_at slab x ≡ some (link o none none)
      → (slab₁ slab₂ : Slab) × (update_node slab a (set_next (some x)) ≡ some slab₁)
        × (update_node slab₁ x (set_prev (some a)) ≡ some slab₂)
        × Linked slab slab₂ (xs ++ (x, o) ∷ [])
  unfolding adjust
  link_behind last c d out new =
      let live : IsLive (node_at slab) (some a) =
        rw last at (IsLive-last_or (node_at slab) none xs none c) in
      let (slab₁, e₁, l₁) = update_node_lem slab a (set_next (some x)) live in
      let at_last =
        λ (j : ℕ). l₁.0 j ∙ ap (λ p. adjust p (set_next (some x)) (node_at slab) j) (sym last) in
      let x₁ : node_at slab₁ x ≡ some (link o none none) =
        at_last x ∙ adjust-last_or (set_next (some x)) (node_at slab) x xs out ∙ new in
      let (slab₂, e₂, l₂) = update_node_lem slab₁ x (set_prev (some a)) (_, x₁) in
      let c₁ : Chain (node_at slab₁) none xs (some x) =
        Chain-frame (adjust (last_or none xs) (set_next (some x)) (node_at slab)) (node_at slab₁)
          none xs (some x) (λ i m. at_last i)
          (Chain-set_next (node_at slab) none xs none (some x) d c) in
      let c₂ : Chain (node_at slab₂) none xs (some x) =
        Chain-frame (node_at slab₁) (node_at slab₂) none xs (some x) (λ i m. ground (arith, l₂.0 i))
          c₁ in
      (
        slab₁,
        slab₂,
        e₁,
        e₂,
        record {
          chain =
              Chain-join (node_at slab₂) none xs ((x, o) ∷ []) none c₂ (ground (arith, l₂.0 x), tt);
          orders = λ j.
              Leaves-SameOrders (some x) (set_prev (some a)) slab₁ slab₂ (λ n. refl) l₂ j
              ∙ Leaves-SameOrders (some a) (set_next (some x)) slab slab₁ (λ n. refl) l₁ j;
          frame = λ j out'.
              let (oxs, ox) = not-has-append j xs ((x, o) ∷ []) out' in
              apart_from j x o (set_prev (some a)) (node_at slab₁) ox (l₂.0 j)
              ∙ at_last j
              ∙ adjust-last_or (set_next (some x)) (node_at slab) j xs oxs;
          size = omega (arith, l₁.1, l₂.1);
        },
      )

module _ (slab : Slab) (level : Level) (x : ℕ) (o : Order) where
  -- If a level has the ends and the slab the links of a list of distinct slots, `link_tail` of a
  -- slot that is in no list succeeds and leaves those of the list with the slot at its end; no
  -- order and no other slot changes.
  pub link_tail_lem :
      (xs : Cells)
      → HasEnds level xs
      → Chain (node_at slab) none xs none
      → Distinct xs
      → has x xs ≡ false
      → node_at slab x ≡ some (link o none none)
      → (slab' : Slab) × (link_tail slab level x
          ≡ some (slab', with_ends level (xs ++ (x, o) ∷ [])))
        × Linked slab slab' (xs ++ (x, o) ∷ [])
  unfolding link_tail
  link_tail_lem [] ends c d out new = (
    slab,
    rw ends.last refl,
    record { chain = (new, tt); orders = λ j. refl; frame = λ j out. refl; size = refl },
  )
  link_tail_lem ((y, p) ∷ ys) ends c d out new =
      let (a, last, _) = last_or-some y p ys in
      let (slab₁, slab₂, e₁, e₂, l) = link_behind slab ((y, p) ∷ ys) x o a last c d out new in
      (
        slab₂,
        rw (ends.last ∙ last, e₁, e₂)
            (ground (arith, ends.first, last_or-append (some y) ys ((x, o) ∷ []))),
        l,
      )
