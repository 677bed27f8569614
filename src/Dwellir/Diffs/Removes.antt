-- ===== src/Dwellir/Diffs/Removes.antt =====
-- The operations of a decoded message: an order is removed once at most, and the sizes are `u64`
-- values.
use l4_book.Prelude.{
  ℕ, ◌+◌, ◌-◌, ◌≤◌, ◌<◌, ◌≡◌, refl, ap, sym, ◌∙◌, subst, List, [], ◌∷◌, ◌++◌, Option, arith, length,
  length-append, ℕ_discrete, false, ◌==◌, u64_mod, Bool-cases, inl, inr, ◌||◌,
}
use mathlib.Core.List.{append_assoc, append-nil}
use l4_book.Types.{OrderId, Qty, BookOp, VenueDiffKind, ReasonedBookOp}
use l4_book.Containers.HashMap
use l4_book.Book.Invariant.{NoRepeat}
use l4_book.Dwellir.Diffs.{reasoned_venue_op, Decoding, start, push, push_remove, push_size}

abbrev pub removed_by : BookOp → List OrderId
removed_by (BookOp.add o) = []
removed_by (BookOp.remove id) = id ∷ []
removed_by (BookOp.update_size id n) = []
removed_by (BookOp.amend_size id n) = []

abbrev pub removed_ids : List ReasonedBookOp → List OrderId
removed_ids [] = []
removed_ids (o ∷ ops) = removed_by o.op ++ removed_ids ops

-- Sizes and prices are `u64` values, and a new size is not zero.
abbrev pub IsSized : BookOp → Type 0
IsSized (BookOp.add o) = (o.qty < u64_mod) × (o.price < u64_mod)
IsSized (BookOp.remove id) = Unit {0}
IsSized (BookOp.update_size id n) = (0 < n) × (n < u64_mod)
IsSized (BookOp.amend_size id n) = (0 < n) × (n < u64_mod)

abbrev pub AreSized : List ReasonedBookOp → Type 0
AreSized [] = Unit {0}
AreSized (o ∷ ops) = IsSized o.op × AreSized ops

removed_ids-append :
    (xs ys : List ReasonedBookOp) → removed_ids (xs ++ ys) ≡ removed_ids xs ++ removed_ids ys
removed_ids-append [] ys = refl
removed_ids-append (x ∷ xs) ys =
    ap (λ l. removed_by x.op ++ l) (removed_ids-append xs ys)
    ∙ sym (append_assoc (removed_by x.op) (removed_ids xs) (removed_ids ys))

AreSized-append : (xs ys : List ReasonedBookOp) → AreSized xs → AreSized ys → AreSized (xs ++ ys)
AreSized-append [] ys h k = k
AreSized-append (x ∷ xs) ys h k = (h.0, AreSized-append xs ys h.1 k)

has-append :
    (i : ℕ) (xs ys : List ℕ)
    → HashMap.has ℕ_discrete i (xs ++ ys)
      ≡ (HashMap.has ℕ_discrete i xs || HashMap.has ℕ_discrete i ys)
unfolding HashMap.has
has-append i [] ys = refl
has-append i (x ∷ xs) ys = ground (arith, has-append i xs ys)

NoRepeat-append_one :
    (i : ℕ) (xs : List ℕ)
    → NoRepeat xs
    → HashMap.has ℕ_discrete i xs ≡ false
    → NoRepeat (xs ++ i ∷ [])
unfolding HashMap.has
NoRepeat-append_one i [] h out = (refl, tt)
NoRepeat-append_one i (x ∷ xs) h out =
    ground (arith, NoRepeat-append_one i xs h.1, has-append x xs (i ∷ []))

-- After `n` diffs. `k` complete fills are counted ahead of their removal.
pub record Fine (n k : ℕ) (s : Decoding) : Type 0 where
  pub once : NoRepeat (removed_ids s.ops)
  pub tracked :
      (id : OrderId)
      → HashMap.has ℕ_discrete id (removed_ids s.ops) ≡ HashMap.has ℕ_discrete id s.removed
  pub sized : AreSized s.ops
  pub counted : length s.ops + s.dropped_duplicate_removes + s.unresolved_new ≤ n
  pub collapsed :
      s.collapsed_complete_fills ≤ length (removed_ids s.ops) + s.dropped_duplicate_removes + k

pub start-Fine : Fine 0 0 start
unfolding HashMap.has
start-Fine = record {
  once = tt;
  tracked = λ id. refl;
  sized = tt;
  counted = omega arith;
  collapsed = omega arith;
}

pub push-Fine :
    (n k : ℕ) (op : BookOp) (diff : VenueDiffKind) (status : Option (List ℕ)) (s : Decoding)
    → removed_by op ≡ []
    → IsSized op
    → Fine n k s
    → Fine (n + 1) k (push op diff status s)
unfolding push
push-Fine n k op diff status s keeps is_sized f =
    let r = reasoned_venue_op op diff status in
    let same : removed_ids (s.ops ++ r ∷ []) ≡ removed_ids s.ops =
      removed_ids-append s.ops (r ∷ [])
      ∙ ap (λ l. removed_ids s.ops ++ (l ++ [])) keeps
      ∙ append-nil (removed_ids s.ops) in
    record {
      once = subst NoRepeat (sym same) f.once;
      tracked = λ id. ap (HashMap.has ℕ_discrete id) same ∙ f.tracked id;
      sized = AreSized-append s.ops (r ∷ []) f.sized (is_sized, tt);
      counted = omega (arith, length-append s.ops (r ∷ []), f.counted);
      collapsed = rw same f.collapsed;
    }

tracked_insert :
    (oid id : OrderId) (xs removed : List OrderId)
    → HashMap.has ℕ_discrete id xs ≡ HashMap.has ℕ_discrete id removed
    → HashMap.has ℕ_discrete id (xs ++ oid ∷ [])
      ≡ HashMap.has ℕ_discrete id (HashMap.set_insert ℕ_discrete oid removed)
unfolding HashMap.has
tracked_insert oid id xs removed e =
    ground (arith, has-append id xs (oid ∷ []), HashMap.has-set_insert ℕ_discrete oid id removed)

pub push_remove-Fine :
    (n k : ℕ) (oid : OrderId) (diff : VenueDiffKind) (status : Option (List ℕ)) (s : Decoding)
    → Fine n k s
    → Fine (n + 1) (k - 1) (push_remove oid diff status s)
unfolding push_remove push
push_remove-Fine n k oid diff status s f =
    elim (Bool-cases (HashMap.has ℕ_discrete oid s.removed)) [
      | inl again ↦ rw again (record {
        once = f.once;
        tracked = f.tracked;
        sized = f.sized;
        counted = omega (arith, f.counted);
        collapsed = omega (arith, f.collapsed);
      })
      | inr first ↦
          let r = reasoned_venue_op (BookOp.remove oid) diff status in
          let more : removed_ids (s.ops ++ r ∷ []) ≡ removed_ids s.ops ++ oid ∷ [] =
            removed_ids-append s.ops (r ∷ []) in
          rw first (record {
            once =
                subst NoRepeat (sym more)
                  (NoRepeat-append_one oid (removed_ids s.ops) f.once (f.tracked oid ∙ first));
            tracked = λ id.
                ap (HashMap.has ℕ_discrete id) more
                ∙ tracked_insert oid id (removed_ids s.ops) s.removed (f.tracked id);
            sized = AreSized-append s.ops (r ∷ []) f.sized (tt, tt);
            counted = omega (arith, length-append s.ops (r ∷ []), f.counted);
            collapsed =
                omega (
                  arith,
                  ap length more,
                  length-append (removed_ids s.ops) (oid ∷ []),
                  f.collapsed,
                );
          })
    ]

pub push_size-Fine :
    (n : ℕ) (oid : OrderId) (new_qty : Qty) (op : BookOp) (diff : VenueDiffKind)
    (status : Option (List ℕ)) (s : Decoding)
    → removed_by op ≡ []
    → (0 < new_qty → IsSized op)
    → Fine n 0 s
    → Fine (n + 1) 0 (push_size oid new_qty op diff status s)
unfolding push_size
push_size-Fine n oid new_qty op diff status s keeps is_sized f = elim (Bool-cases (new_qty == 0)) [
  | inl zero_size ↦ rw zero_size (
      push_remove-Fine n 1 oid VenueDiffKind.complete_fill_collapsed status _ (record {
        once = f.once;
        tracked = f.tracked;
        sized = f.sized;
        counted = f.counted;
        collapsed = omega (arith, f.collapsed);
      }))
  | inr other ↦ rw other (push-Fine n 0 op diff status s keeps (is_sized (ground arith)) f)
]
