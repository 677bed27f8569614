-- ===== src/Slab/Links/Unlink.antt =====
-- What `unlink` does to the chain of a level.
use mathlib.Core.List.{append-nil}
use l4_book.Prelude.{
  ℕ, ◌≡◌, refl, ◌∙◌, [], ◌∷◌, ◌++◌, Option, none, some, arith, inl, inr, Bool-cases,
}
use l4_book.Types.{Order}
use l4_book.Slab.{Slab, Level, node_at, relink_prev, relink_next, unlink}
use l4_book.Slab.Laws.{adjust, IsLive, Leaves, update_node_lem}
use l4_book.Slab.Chain.{
  Cells, has, head_or, last_or, Chain, Distinct, Disjoint, not-has-append, Chain-frame, Chain-join,
  adjust-head_or, adjust-last_or, IsLive-head_or, IsLive-last_or, set_next, set_prev,
  Chain-set_next, Chain-set_prev,
}
use l4_book.Slab.Links.{HasEnds, with_ends, Linked, Leaves-SameOrders, last_or-append, last_or-some}

new_head : Option ℕ → Option ℕ → Option ℕ → Option ℕ
new_head none next head = next
new_head (some p) next head = head

module _ (slab : Slab) (level : Level) where
  relink_prev_lem :
      (prev next : Option ℕ)
      → IsLive (node_at slab) prev
      → (slab' : Slab) × (relink_prev slab level prev next
          ≡ some (slab', record level { head = new_head prev next level.head }))
        × Leaves slab slab' (adjust prev (set_next next) (node_at slab))
  unfolding relink_prev new_head adjust
  relink_prev_lem none next live = (slab, refl, ((λ j. refl), refl))
  relink_prev_lem (some p) next live =
      let (slab', e, l) = update_node_lem slab p (set_next next) live in (slab', rw e, l)

  relink_next_lem :
      (prev next : Option ℕ)
      → IsLive (node_at slab) next
      → (slab' : Slab) × (relink_next slab level prev next
          ≡ some (slab', record level { tail = new_head next prev level.tail }))
        × Leaves slab slab' (adjust next (set_prev prev) (node_at slab))
  unfolding relink_next new_head adjust
  relink_next_lem prev none live = (slab, refl, ((λ j. refl), refl))
  relink_next_lem prev (some p) live =
      let (slab', e, l) = update_node_lem slab p (set_prev prev) live in (slab', rw e, l)

new_head-first :
    (ls rs : Cells) (x : ℕ) (o : Order)
    → new_head (last_or none ls) (head_or rs none) (head_or (ls ++ (x, o) ∷ rs) none)
      ≡ head_or (ls ++ rs) none
unfolding new_head
new_head-first [] rs x o = refl
new_head-first ((y, p) ∷ ys) rs x o = rw ((last_or-some y p ys).1)

new_head-last :
    (ls rs : Cells) (x : ℕ) (o : Order)
    → new_head (head_or rs none) (last_or none ls) (last_or none (ls ++ (x, o) ∷ rs))
      ≡ last_or none (ls ++ rs)
unfolding new_head
new_head-last ls [] x o = rw append-nil
new_head-last ls ((z, q) ∷ rs) x o =
    rw (last_or-append none ls ((x, o) ∷ (z, q) ∷ rs), last_or-append none ls ((z, q) ∷ rs))

Disjoint-symm : (xs ys : Cells) → Disjoint xs ys → Disjoint ys xs
Disjoint-symm xs ys apart i m = elim (Bool-cases (has i xs)) [ inl e ↦ cc (apart i e) | inr e ↦ e ]

module _ (slab : Slab) (level : Level) (ls rs : Cells) (x : ℕ) (o : Order) where
  -- If a level has the ends of a list of distinct slots, and the slab the links of its parts
  -- before and behind one slot, `unlink` of that slot's neighbours succeeds and leaves the ends
  -- and links of the list without the slot; no order and no other slot changes.
  pub unlink_lem :
      HasEnds level (ls ++ (x, o) ∷ rs)
      → Chain (node_at slab) none ls (some x)
      → Chain (node_at slab) (some x) rs none
      → Distinct ls
      → Distinct rs
      → Disjoint ls rs
      → (slab' : Slab) × (unlink slab level (last_or none ls) (head_or rs none)
          ≡ some (slab', with_ends level (ls ++ rs)))
        × Linked slab slab' (ls ++ rs)
  unfolding unlink
  unlink_lem ends c d da db apart =
      let prev = last_or none ls in
      let next = head_or rs none in
      let (slab₁, e₁, l₁) =
        relink_prev_lem slab level prev next (IsLive-last_or (node_at slab) none ls (some x) c) in
      let level₁ : Level = record level { head = new_head prev next level.head } in
      let sep : Disjoint rs ls = Disjoint-symm ls rs apart in
      let b₁ : Chain (node_at slab₁) (some x) rs none =
        Chain-frame (node_at slab) (node_at slab₁) (some x) rs none
          (λ i m. l₁.0 i ∙ adjust-last_or (set_next next) (node_at slab) i ls (sep i m)) d in
      let (slab₂, e₂, l₂) =
        relink_next_lem slab₁ level₁ prev next
          (IsLive-head_or (node_at slab₁) (some x) rs none b₁) in
      let c₁ : Chain (node_at slab₁) none ls next =
        Chain-frame (adjust prev (set_next next) (node_at slab)) (node_at slab₁) none ls next
          (λ i m. l₁.0 i) (Chain-set_next (node_at slab) none ls (some x) next da c) in
      let c₂ : Chain (node_at slab₂) none ls next =
        Chain-frame (node_at slab₁) (node_at slab₂) none ls next
          (λ i m. l₂.0 i ∙ adjust-head_or (set_prev prev) (node_at slab₁) i rs (apart i m)) c₁ in
      let d₂ : Chain (node_at slab₂) prev rs none =
        Chain-frame (adjust next (set_prev prev) (node_at slab₁)) (node_at slab₂) prev rs none
          (λ i m. l₂.0 i) (Chain-set_prev (node_at slab₁) (some x) rs none prev db b₁) in
      (
        slab₂,
        rw (e₁, e₂, ends.first, ends.last, new_head-first ls rs x o, new_head-last ls rs x o) refl,
        record {
          chain = Chain-join (node_at slab₂) none ls rs none c₂ d₂;
          orders = λ j.
              Leaves-SameOrders next (set_prev prev) slab₁ slab₂ (λ n. refl) l₂ j
              ∙ Leaves-SameOrders prev (set_next next) slab slab₁ (λ n. refl) l₁ j;
          frame = λ j out.
              let (ols, ors) = not-has-append j ls rs out in
              l₂.0 j
              ∙ adjust-head_or (set_prev prev) (node_at slab₁) j rs ors
              ∙ l₁.0 j
              ∙ adjust-last_or (set_next next) (node_at slab) j ls ols;
          size = omega (arith, l₁.1, l₂.1);
        },
      )
