-- ===== src/Slab/Length.antt =====
-- No operation on the links changes the number of slots.
use l4_book.Prelude.{
  ℕ, ◌≡◌, ap, sym, ◌∙◌, Option, none, some, ◌>>=◌, >>=-eq-some, some-inj, length, length-set,
  Option-cases, Bool-cases, inl, inr, ltb,
}
use l4_book.Slab.{
  Slab, Level, OrderNode, node_at, write_slot, update_node, link_tail, relink_prev, relink_next,
  unlink, eq_some, move_to_tail,
}

abbrev pub HasLength : ℕ → Option (Slab × Level) → Type 0
HasLength n none = Unit {0}
HasLength n (some (slab, level)) = length slab ≡ n

pub length-update_node :
    (slab : Slab) (i : ℕ) (f : OrderNode → OrderNode) {slab' : Slab}
    → update_node slab i f ≡ some slab'
    → length slab' ≡ length slab
unfolding update_node
length-update_node slab i f h =
    let (n, _, e) = >>=-eq-some (node_at slab i) _ h in
    ap length (sym (some-inj e)) ∙ length-set slab i (some (f n))

pub length-write_slot :
    (slab : Slab) (i : ℕ) (v : Option OrderNode) {slab' : Slab}
    → write_slot slab i v ≡ some slab'
    → length slab' ≡ length slab
unfolding write_slot
length-write_slot slab i v h = elim (Bool-cases (ltb i (length slab))) [
  | inl e ↦ ap length (sym (some-inj (rw e at h))) ∙ length-set slab i v
  | inr e ↦ cc (rw e at h)
]

bind-HasLength :
    (n : ℕ) (m : Option (Slab × Level)) (f : Slab × Level → Option (Slab × Level))
    → HasLength n m
    → ((s : Slab) (l : Level) → length s ≡ n → HasLength n (f (s, l)))
    → HasLength n (m >>= f)
bind-HasLength n none f h k = tt
bind-HasLength n (some (s, l)) f h k = k s l h

update-HasLength :
    (n : ℕ) (slab : Slab) (i : ℕ) (g : OrderNode → OrderNode) (f : Slab → Option (Slab × Level))
    → length slab ≡ n
    → ((s : Slab) → length s ≡ n → HasLength n (f s))
    → HasLength n (update_node slab i g >>= f)
update-HasLength n slab i g f h k = elim (Option-cases (update_node slab i g)) [
  | inl e ↦ rw e tt
  | inr (s, e) ↦ rw e (k s (length-update_node slab i g e ∙ h))
]

pub link_tail-HasLength :
    (n : ℕ) (slab : Slab) (level : Level) (slot : ℕ)
    → length slab ≡ n
    → HasLength n (link_tail slab level slot)
unfolding link_tail
link_tail-HasLength n slab level slot h = elim (Option-cases level.tail) [
  | inl e ↦ rw (e, link_tail) h
  | inr (old_tail, e) ↦
      rw (e, link_tail)
        (update-HasLength n slab old_tail _ _ h
          (λ s e₁. update-HasLength n s slot _ _ e₁ (λ s' e₂. e₂)))
]

relink_prev-HasLength :
    (n : ℕ) (slab : Slab) (level : Level) (prev next : Option ℕ)
    → length slab ≡ n
    → HasLength n (relink_prev slab level prev next)
unfolding relink_prev
relink_prev-HasLength n slab level none next h = h
relink_prev-HasLength n slab level (some p) next h = update-HasLength n slab p _ _ h (λ s e. e)

relink_next-HasLength :
    (n : ℕ) (slab : Slab) (level : Level) (prev next : Option ℕ)
    → length slab ≡ n
    → HasLength n (relink_next slab level prev next)
unfolding relink_next
relink_next-HasLength n slab level prev none h = h
relink_next-HasLength n slab level prev (some q) h = update-HasLength n slab q _ _ h (λ s e. e)

pub unlink-HasLength :
    (n : ℕ) (slab : Slab) (level : Level) (prev next : Option ℕ)
    → length slab ≡ n
    → HasLength n (unlink slab level prev next)
unfolding unlink
unlink-HasLength n slab level prev next h =
    bind-HasLength n (relink_prev slab level prev next) _
      (relink_prev-HasLength n slab level prev next h)
      (λ s l e. relink_next-HasLength n s l prev next e)

pub move_to_tail-HasLength :
    (n : ℕ) (slab : Slab) (level : Level) (slot : ℕ)
    → length slab ≡ n
    → HasLength n (move_to_tail slab level slot)
unfolding move_to_tail
move_to_tail-HasLength n slab level slot h = elim (Bool-cases (eq_some level.tail slot)) [
  | inl last ↦ rw last h
  | inr other ↦ elim (Option-cases (node_at slab slot)) [
    | inl e ↦ rw (other, e) tt
    | inr (node, e) ↦
        rw (other, e)
          (bind-HasLength n (unlink slab level node.prev node.next) _
            (unlink-HasLength n slab level node.prev node.next h)
            (λ s l e₁.
              update-HasLength n s slot _ _ e₁ (λ s' e₂. link_tail-HasLength n s' l slot e₂)))
  ]
]
