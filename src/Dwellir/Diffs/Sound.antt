-- ===== src/Dwellir/Diffs/Sound.antt =====
-- Decoding a message that succeeds: every diff keeps what `Fine` says.
use l4_book.Prelude.{
  ℕ, ◌+◌, ◌≤◌, ◌<◌, ◌≡◌, refl, subst, List, [], ◌∷◌, Option, none, some, arith, length, ℕ_discrete,
  u64_mod, Bool-cases, inl, inr,
}
use l4_book.Text.{codes}
use l4_book.Types.{Order, OrderId, BookOp, VenueDiffKind}
use l4_book.Types.Wallets.{from_hex}
use l4_book.Containers.HashMap
use l4_book.Book.Invariant.{NoRepeat}
use l4_book.Dwellir.Types.{
  ReasonedUpdateBatch, AdapterError, bad_price, bad_qty, bad_wallet, Scales, Result, ok, ◌>>=◌,
  ok_or, >>=-eq-ok, ok_or-eq-ok, ok-inj,
}
use l4_book.Dwellir.Fixed.{parse_fixed}
use l4_book.Dwellir.Fixed.Digits.{parse_fixed-lt}
use l4_book.Dwellir.Json.{Json}
use l4_book.Dwellir.Diffs.{
  missing, batch_of, parse_side, Decoding, start, text_at, u64_at, array_at, Statuses, status_text,
  text_or_empty, new_order, push_new, decode_new, decode_update, decode_modified, decode_shape,
  is_remove, decode_diff, decode_diffs, statuses_by_oid, values_or_none, decode_updates_with_meta,
}
use l4_book.Dwellir.Diffs.Removes.{
  removed_ids, IsSized, AreSized, Fine, start-Fine, push-Fine, push_remove-Fine, push_size-Fine,
}

-- A number that `parse_fixed` reads.
pub parsed-lt :
    (s : List ℕ) (d : ℕ) {n : ℕ} (e : List ℕ → AdapterError)
    → ok_or (e s) (parse_fixed s d) ≡ ok n
    → n < u64_mod
parsed-lt s d e h = parse_fixed-lt s d (ok_or-eq-ok (e s) (parse_fixed s d) h)

module _ (j : Json) (m : Statuses j) (scales : Scales) (oid : OrderId) where
  open j use {Value, get, as_str, as_object, member}

  new_order-IsSized :
      (sz_str px_str user_str : List ℕ) (status : Value) {o : Order}
      → new_order j oid sz_str px_str user_str status scales ≡ ok o
      → IsSized (BookOp.add o)
  unfolding new_order
  new_order-IsSized sz_str px_str user_str status h =
      let (order_obj, _, h₁) = >>=-eq-ok (missing "order" (get status (codes "order"))) _ h in
      let (side, _, h₂) =
        >>=-eq-ok (parse_side (text_or_empty j (text_at j order_obj "side"))) _ h₁ in
      let (wallet, _, h₃) = >>=-eq-ok (ok_or (bad_wallet user_str) (from_hex user_str)) _ h₂ in
      let (price, e₄, h₄) =
        >>=-eq-ok (ok_or (bad_price px_str) (parse_fixed px_str scales.price_digits)) _ h₃ in
      let (qty, e₅, h₅) =
        >>=-eq-ok (ok_or (bad_qty sz_str) (parse_fixed sz_str scales.qty_digits)) _ h₄ in
      subst (λ o. IsSized (BookOp.add o)) (ok-inj h₅)
        (
          parsed-lt sz_str scales.qty_digits bad_qty e₅,
          parsed-lt px_str scales.price_digits bad_price e₄,
        )

  push_new-Fine :
      (n : ℕ) (sz_str px_str user_str : List ℕ) (s : Decoding) (status : Option Value)
      {s' : Decoding}
      → Fine n 0 s
      → push_new j oid sz_str px_str user_str scales s status ≡ ok s'
      → Fine (n + 1) 0 s'
  unfolding push_new
  push_new-Fine n sz_str px_str user_str s none f h = subst (Fine (n + 1) 0) (ok-inj h) (record {
    once = f.once;
    tracked = f.tracked;
    sized = f.sized;
    counted = omega (arith, f.counted);
    collapsed = f.collapsed;
  })
  push_new-Fine n sz_str px_str user_str s (some status) f h =
      let (o, e, h₁) = >>=-eq-ok (new_order j oid sz_str px_str user_str status scales) _ h in
      subst (Fine (n + 1) 0) (ok-inj h₁) (
        push-Fine n 0 (BookOp.add o) VenueDiffKind.new (text_at j status "status") s refl
          (new_order-IsSized sz_str px_str user_str status e) f)

  module _ (n : ℕ) (d : Value) (s : Decoding) (f : Fine n 0 s) where
    decode_new-Fine :
        (new_obj : Value) {s' : Decoding}
        → decode_new j m scales d oid new_obj s ≡ ok s'
        → Fine (n + 1) 0 s'
    unfolding decode_new
    decode_new-Fine new_obj h =
        let (sz_str, _, h₁) = >>=-eq-ok (missing "new.sz" (text_at j new_obj "sz")) _ h in
        let (px_str, _, h₂) = >>=-eq-ok (missing "book_diff.px" (text_at j d "px")) _ h₁ in
        let (user_str, _, h₃) = >>=-eq-ok (missing "book_diff.user" (text_at j d "user")) _ h₂ in
        push_new-Fine n sz_str px_str user_str s (HashMap.get ℕ_discrete oid m) f h₃

    decode_update-Fine :
        (upd : Value) {s' : Decoding}
        → decode_update j m scales oid upd s ≡ ok s'
        → Fine (n + 1) 0 s'
    unfolding decode_update
    decode_update-Fine upd h =
        let (new_sz, _, h₁) = >>=-eq-ok (missing "update.newSz" (text_at j upd "newSz")) _ h in
        let (new_qty, e, h₂) =
          >>=-eq-ok (ok_or (bad_qty new_sz) (parse_fixed new_sz scales.qty_digits)) _ h₁ in
        subst (Fine (n + 1) 0) (ok-inj h₂) (
          push_size-Fine n oid new_qty (BookOp.update_size oid new_qty) VenueDiffKind.update
            (status_text j m oid) s refl
            (λ pos. (pos, parsed-lt new_sz scales.qty_digits bad_qty e)) f)

    decode_modified-Fine :
        (modified : Value) {s' : Decoding}
        → decode_modified j m scales oid modified s ≡ ok s'
        → Fine (n + 1) 0 s'
    unfolding decode_modified
    decode_modified-Fine modified h =
        let (sz, _, h₁) = >>=-eq-ok (missing "modified.sz" (text_at j modified "sz")) _ h in
        let (new_qty, e, h₂) =
          >>=-eq-ok (ok_or (bad_qty sz) (parse_fixed sz scales.qty_digits)) _ h₁ in
        subst (Fine (n + 1) 0) (ok-inj h₂) (
          push_size-Fine n oid new_qty (BookOp.amend_size oid new_qty) VenueDiffKind.modified
            (status_text j m oid) s refl (λ pos. (pos, parsed-lt sz scales.qty_digits bad_qty e)) f)

    decode_shape-Fine :
        (a b c : Option Value) {s' : Decoding}
        → decode_shape j m scales d oid s a b c ≡ ok s'
        → Fine (n + 1) 0 s'
    unfolding decode_shape
    decode_shape-Fine (some new_obj) b c h = decode_new-Fine new_obj h
    decode_shape-Fine none (some upd) c h = decode_update-Fine upd h
    decode_shape-Fine none none (some modified) h = decode_modified-Fine modified h
    decode_shape-Fine none none none h = subst (Fine (n + 1) 0) (ok-inj h) (record {
      once = f.once;
      tracked = f.tracked;
      sized = f.sized;
      counted = omega (arith, f.counted);
      collapsed = f.collapsed;
    })

module _ (j : Json) (m : Statuses j) (scales : Scales) where
  open j use {Value, get, as_str, as_array, as_object, member}

  decode_diff-Fine :
      (n : ℕ) (d : Value) (s : Decoding) {s' : Decoding}
      → Fine n 0 s
      → decode_diff j m scales d s ≡ ok s'
      → Fine (n + 1) 0 s'
  unfolding decode_diff
  decode_diff-Fine n d s f h =
      let (oid, _, h₁) = >>=-eq-ok (missing "book_diff.oid" (u64_at j d "oid")) _ h in
      let (raw, _, h₂) = >>=-eq-ok (missing "raw_book_diff" (get d (codes "raw_book_diff"))) _ h₁ in
      elim (Bool-cases (is_remove j (as_str raw))) [
        | inl plain ↦
            subst (Fine (n + 1) 0) (ok-inj (rw plain at h₂))
              (push_remove-Fine n 0 oid VenueDiffKind.remove (status_text j m oid) s f)
        | inr other ↦
            let (raw_obj, _, h₃) =
              >>=-eq-ok (missing "raw_book_diff{}" (as_object raw)) _ (rw other at h₂) in
            decode_shape-Fine j m scales oid n d s f (member raw_obj (codes "new"))
              (member raw_obj (codes "update")) (member raw_obj (codes "modified")) h₃
      ]

  decode_diffs-Fine :
      (n : ℕ) (ds : List Value) (s : Decoding) {s' : Decoding}
      → Fine n 0 s
      → decode_diffs j m scales ds s ≡ ok s'
      → Fine (n + length ds) 0 s'
  unfolding decode_diffs
  decode_diffs-Fine n [] s {s'} f h =
      subst (λ k. Fine k 0 s') (omega arith) (subst (Fine n 0) (ok-inj h) f)
  decode_diffs-Fine n (d ∷ ds) s {s'} f h =
      let (s₁, e, h₁) = >>=-eq-ok (decode_diff j m scales d s) _ h in
      subst (λ k. Fine k 0 s') (omega arith)
        (decode_diffs-Fine (n + 1) ds s₁ (decode_diff-Fine n d s f e) h₁)

-- No order is removed twice, prices and sizes are `u64` values and new sizes are not zero. The
-- operations, the removals that are dropped and the new orders without a status are no more than
-- the `n` diffs, and every complete fill is a removal or one that is dropped.
pub record IsFine (n : ℕ) (batch : ReasonedUpdateBatch) : Type 0 where
  pub once : NoRepeat (removed_ids batch.ops)
  pub sized : AreSized batch.ops
  pub counted : length batch.ops + batch.dropped_duplicate_removes + batch.unresolved_new ≤ n
  pub collapsed :
      batch.collapsed_complete_fills
      ≤ length (removed_ids batch.ops) + batch.dropped_duplicate_removes

Fine-IsFine : (j : Json) (n : ℕ) (s : Decoding) → Fine n 0 s → IsFine n (batch_of j s)
Fine-IsFine j n s f = record {
  once = f.once;
  sized = f.sized;
  counted = f.counted;
  collapsed = omega (arith, f.collapsed);
}

-- In a message that is decoded no order is removed twice, prices and sizes are `u64` values and new
-- sizes are not zero. The operations, the removals that are dropped and the new orders without a
-- status are no more than the diffs, and every complete fill is a removal or one that is dropped.
pub decode_updates-IsFine :
    (j : Json) (updates : j.Value) (scales : Scales) {batch : ReasonedUpdateBatch}
    → decode_updates_with_meta j updates scales ≡ ok batch
    → IsFine (length (values_or_none j (array_at j updates "book_diffs"))) batch
unfolding decode_updates_with_meta
decode_updates-IsFine j updates scales h = diffs-IsFine (array_at j updates "book_diffs") h
  where
    m : Statuses j
    m = statuses_by_oid j (values_or_none j (array_at j updates "order_statuses")) []

    diffs-IsFine :
        (found : Option (List j.Value)) {batch : ReasonedUpdateBatch}
        → elim found as (λ x. Result ReasonedUpdateBatch) [
          | none ↦ ok (batch_of j start)
          | some diffs ↦ decode_diffs j m scales diffs start >>= λ s. ok (batch_of j s)
        ]
          ≡ ok batch
        → IsFine (length (values_or_none j found)) batch
    diffs-IsFine none e = subst (IsFine 0) (ok-inj e) (Fine-IsFine j 0 start start-Fine)
    diffs-IsFine (some diffs) e =
        let (s, e₁, e₂) = >>=-eq-ok (decode_diffs j m scales diffs start) _ e in
        subst (IsFine (length diffs)) (ok-inj e₂) (
          Fine-IsFine j (length diffs) s (
            subst (λ k. Fine k 0 s) (omega arith)
              (decode_diffs-Fine j m scales 0 diffs start start-Fine e₁)))
