-- ===== src/Slab/Links/Move.antt =====
-- What `move_to_tail` does to the chain of a level.
use mathlib.Core.List.{append-nil}
use l4_book.Prelude.{ℕ, ◌≡◌, refl, ◌∙◌, [], ◌∷◌, ◌++◌, none, some, arith, false, ==_refl, ==_ne}
use l4_book.Types.{Order}
use l4_book.Slab.{
  Slab, Level, OrderNode, node_at, update_node, link_tail, unlink, move_to_tail, eq_some,
}
use l4_book.Slab.Laws.{adjust, update_node_lem}
use l4_book.Slab.Chain.{
  Cells, has, link, Chain, Distinct, Disjoint, has-append, not-has-append, Chain-frame, Chain-split,
  Distinct-join, Distinct-split,
}
use l4_book.Slab.Links.{
  HasEnds, with_ends, Linked, Leaves-SameOrders, last_or-append, last_or-some, apart_from,
  link_tail_lem,
}
use l4_book.Slab.Links.Unlink.{unlink_lem}

abbrev clear_links : OrderNode → OrderNode
clear_links n = record n { prev = none; next = none }

-- The steps of `move_to_tail`, one after the other.
move_to_tail_run :
    (slab : Slab) (level : Level) (x : ℕ) {node : OrderNode} {slab₁ slab₂ : Slab} {level₁ : Level}
    {r : Slab × Level}
    → eq_some level.tail x ≡ false
    → node_at slab x ≡ some node
    → unlink slab level node.prev node.next ≡ some (slab₁, level₁)
    → update_node slab₁ x clear_links ≡ some slab₂
    → link_tail slab₂ level₁ x ≡ some r
    → move_to_tail slab level x ≡ some r
unfolding move_to_tail
move_to_tail_run slab level x other e e₁ e₂ e₃ = rw (other, e, e₁, e₂, e₃) refl

module _ (slab : Slab) (level : Level) (ls rs : Cells) (x : ℕ) (o : Order) where
  -- `move_to_tail` when the slot is not the last one.
  relocate :
      HasEnds level (ls ++ (x, o) ∷ rs)
      → Chain (node_at slab) none (ls ++ (x, o) ∷ rs) none
      → Distinct (ls ++ (x, o) ∷ rs)
      → eq_some level.tail x ≡ false
      → (slab' : Slab) × (move_to_tail slab level x
          ≡ some (slab', with_ends level ((ls ++ rs) ++ (x, o) ∷ [])))
        × Linked slab slab' ((ls ++ rs) ++ (x, o) ∷ [])
  unfolding move_to_tail adjust
  relocate ends c d other =
      let (cl, (at_x, cr)) = Chain-split (node_at slab) none ls ((x, o) ∷ rs) none c in
      let (dl, (out, dr), apart) = Distinct-split ls ((x, o) ∷ rs) d in
      let apart' : Disjoint ls rs = λ i m. ground (arith, apart i) in
      let out' : has x ls ≡ false = ground (arith, apart x) in
      let out₂ : has x (ls ++ rs) ≡ false = ground (arith, has-append x ls rs) in
      let (slab₁, e₁, l₁) = unlink_lem slab level ls rs x o ends cl cr dl dr apart' in
      let (slab₂, e₂, l₂) = update_node_lem slab₁ x clear_links (_, l₁.frame x out₂ ∙ at_x) in
      let c₂ : Chain (node_at slab₂) none (ls ++ rs) none =
        Chain-frame (node_at slab₁) (node_at slab₂) none (ls ++ rs) none
          (λ i m. ground (arith, l₂.0 i)) l₁.chain in
      let new : node_at slab₂ x ≡ some (link o none none) =
        ground (arith, l₂.0 x, l₁.frame x out₂) in
      let (slab₃, e₃, l₃) =
        link_tail_lem slab₂ (with_ends level (ls ++ rs)) x o (ls ++ rs)
          (record { first = refl; last = refl }) c₂ (Distinct-join ls rs dl dr apart') out₂ new in
      (
        slab₃,
        move_to_tail_run slab level x other at_x e₁ e₂ e₃,
        record {
          chain = l₃.chain;
          orders = λ j.
              l₃.orders j
              ∙ Leaves-SameOrders (some x) clear_links slab₁ slab₂ (λ n. refl) l₂ j
              ∙ l₁.orders j;
          frame = λ j outs.
              let (oxs, ox) = not-has-append j (ls ++ rs) ((x, o) ∷ []) outs in
              l₃.frame j outs
              ∙ apart_from j x o clear_links (node_at slab₁) ox (l₂.0 j)
              ∙ l₁.frame j oxs;
          size = omega (arith, l₁.size, l₂.1, l₃.size);
        },
      )

module _ (slab : Slab) (level : Level) (ls : Cells) (x : ℕ) (o : Order) where
  -- If a level has the ends and the slab the links of a list of distinct slots, `move_to_tail`
  -- succeeds and leaves those of the list with one slot moved to the end; no order and no other
  -- slot changes.
  pub move_to_tail_lem :
      (rs : Cells)
      → HasEnds level (ls ++ (x, o) ∷ rs)
      → Chain (node_at slab) none (ls ++ (x, o) ∷ rs) none
      → Distinct (ls ++ (x, o) ∷ rs)
      → (slab' : Slab) × (move_to_tail slab level x
          ≡ some (slab', with_ends level ((ls ++ rs) ++ (x, o) ∷ [])))
        × Linked slab slab' ((ls ++ rs) ++ (x, o) ∷ [])
  unfolding move_to_tail
  move_to_tail_lem [] ends c d =
      let last : level.tail ≡ some x = ends.last ∙ last_or-append none ls ((x, o) ∷ []) in
      (
        slab,
        rw append-nil (ground (arith, last, ends.first, ends.last, ==_refl x)),
        rw append-nil
            (record { chain = c; orders = λ j. refl; frame = λ j out. refl; size = refl }),
      )
  move_to_tail_lem ((z, q) ∷ rs) ends c d =
      let (a, last, m) = last_or-some z q rs in
      let (dl, (out, dr), apart) = Distinct-split ls ((x, o) ∷ (z, q) ∷ rs) d in
      relocate slab level ls ((z, q) ∷ rs) x o ends c d (
        rw (ends.last, last_or-append none ls ((x, o) ∷ (z, q) ∷ rs), last)
          (==_ne a x (λ e. cc (m, out))))
