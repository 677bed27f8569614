-- ===== src/Dwellir/Lines/Ranges.antt =====
-- What a line is decoded to fits the book: prices and sizes are `u64` values.
use l4_book.Prelude.{
  ℕ, ◌<◌, ◌≡◌, subst, List, [], ◌∷◌, ◌++◌, Option, none, some, u64_mod, Bool-cases, inl, inr,
}
use l4_book.Text.{codes}
use l4_book.Types.{Order, Side}
use l4_book.Types.Wallets.{from_hex}
use l4_book.Book.Invariant.{NoRepeat}
use l4_book.Dwellir.Types.{
  DecodedWithMeta, json, bad_price, bad_qty, bad_wallet, Scales, ok, ok_or, >>=-eq-ok, ok-inj,
}
use l4_book.Dwellir.Fixed.{parse_fixed}
use l4_book.Dwellir.Json.{Json}
use l4_book.Dwellir.Diffs.{missing, text_at, u64_at, values_or_none, decode_updates_with_meta}
use l4_book.Dwellir.Diffs.Removes.{removed_ids, AreSized}
use l4_book.Dwellir.Diffs.Sound.{parsed-lt, decode_updates-IsFine}
use l4_book.Dwellir.Lines.{
  is_text, side_or, parse_order, parse_orders, parse_sides, decode_snapshot, decode_payload,
  decode_l4_with_meta, message_of, decode_message, decode_line_with_meta,
}

abbrev pub AreInRange : List Order → Type 0
AreInRange [] = Unit {0}
AreInRange (o ∷ os) = ((o.qty < u64_mod) × (o.price < u64_mod)) × AreInRange os

pub AreInRange-append : (os ps : List Order) → AreInRange os → AreInRange ps → AreInRange (os ++ ps)
AreInRange-append [] ps h k = k
AreInRange-append (o ∷ os) ps h k = (h.0, AreInRange-append os ps h.1 k)

-- What the book relies on: orders in range, or operations in range that remove no order twice.
abbrev pub FitsBook : DecodedWithMeta → Type 0
FitsBook DecodedWithMeta.skip = Unit {0}
FitsBook (DecodedWithMeta.snapshot orders cause) = AreInRange orders
FitsBook (DecodedWithMeta.updates batch) = NoRepeat (removed_ids batch.ops) × AreSized batch.ops

module _ (j : Json) (scales : Scales) where
  open j use {Value, from_str, get, as_array}

  parse_order-range :
      (o : Value) (default_side : Option Side) {order : Order}
      → parse_order j o default_side scales ≡ ok order
      → (order.qty < u64_mod) × (order.price < u64_mod)
  unfolding parse_order
  parse_order-range o default_side h =
      let (oid, _, h₁) = >>=-eq-ok (missing "oid" (u64_at j o "oid")) _ h in
      let (user_str, _, h₂) = >>=-eq-ok (missing "user" (text_at j o "user")) _ h₁ in
      let (side, _, h₃) = >>=-eq-ok (side_or j default_side (text_at j o "side")) _ h₂ in
      let (px_str, _, h₄) = >>=-eq-ok (missing "limitPx" (text_at j o "limitPx")) _ h₃ in
      let (sz_str, _, h₅) = >>=-eq-ok (missing "sz" (text_at j o "sz")) _ h₄ in
      let (wallet, _, h₆) = >>=-eq-ok (ok_or (bad_wallet user_str) (from_hex user_str)) _ h₅ in
      let (price, e₇, h₇) =
        >>=-eq-ok (ok_or (bad_price px_str) (parse_fixed px_str scales.price_digits)) _ h₆ in
      let (qty, e₈, h₈) =
        >>=-eq-ok (ok_or (bad_qty sz_str) (parse_fixed sz_str scales.qty_digits)) _ h₇ in
      subst (λ r. (r.qty < u64_mod) × (r.price < u64_mod)) (ok-inj h₈)
        (
          parsed-lt sz_str scales.qty_digits bad_qty e₈,
          parsed-lt px_str scales.price_digits bad_price e₇,
        )

  parse_orders-AreInRange :
      (os : List Value) {orders : List Order}
      → parse_orders j os scales ≡ ok orders
      → AreInRange orders
  unfolding parse_orders
  parse_orders-AreInRange [] h = subst AreInRange (ok-inj h) tt
  parse_orders-AreInRange (o ∷ os) h =
      let (order, e, h₁) = >>=-eq-ok (parse_order j o none scales) _ h in
      let (rest, e', h₂) = >>=-eq-ok (parse_orders j os scales) _ h₁ in
      subst AreInRange (ok-inj h₂) (parse_order-range o none e, parse_orders-AreInRange os e')

  parse_sides-AreInRange :
      (sides : List Value) {orders : List Order}
      → parse_sides j sides scales ≡ ok orders
      → AreInRange orders
  unfolding parse_sides
  parse_sides-AreInRange [] h = subst AreInRange (ok-inj h) tt
  parse_sides-AreInRange (side_arr ∷ sides) h =
      let side_orders = values_or_none j (as_array side_arr) in
      let (orders, e, h₁) = >>=-eq-ok (parse_orders j side_orders scales) _ h in
      let (rest, e', h₂) = >>=-eq-ok (parse_sides j sides scales) _ h₁ in
      subst AreInRange (ok-inj h₂) (
        AreInRange-append orders rest (parse_orders-AreInRange side_orders e)
          (parse_sides-AreInRange sides e'))

  decode_snapshot-FitsBook :
      (snap : Value) {d : DecodedWithMeta} → decode_snapshot j snap scales ≡ ok d → FitsBook d
  unfolding decode_snapshot
  decode_snapshot-FitsBook snap h =
      let (levels, _, h₁) = >>=-eq-ok (missing "levels" (get snap (codes "levels"))) _ h in
      let (arr, _, h₂) = >>=-eq-ok (missing "levels[]" (as_array levels)) _ h₁ in
      let (orders, e, h₃) = >>=-eq-ok (parse_sides j arr scales) _ h₂ in
      subst FitsBook (ok-inj h₃) (parse_sides-AreInRange arr e)

  decode_payload-FitsBook :
      (snap updates : Option Value) {d : DecodedWithMeta}
      → decode_payload j snap updates scales ≡ ok d
      → FitsBook d
  unfolding decode_payload
  decode_payload-FitsBook (some snap) updates h = decode_snapshot-FitsBook snap h
  decode_payload-FitsBook none (some updates) h =
      let (batch, e, h₁) = >>=-eq-ok (decode_updates_with_meta j updates scales) _ h in
      let fine = decode_updates-IsFine j updates scales e in
      subst FitsBook (ok-inj h₁) (fine.once, fine.sized)
  decode_payload-FitsBook none none h = subst FitsBook (ok-inj h) tt

  decode_message-FitsBook :
      (msg : Value) {d : DecodedWithMeta} → decode_message j msg scales ≡ ok d → FitsBook d
  unfolding decode_message decode_l4_with_meta
  decode_message-FitsBook msg h =
      elim (Bool-cases (is_text (text_at j msg "channel") (codes "subscriptionResponse"))) [
        | inl response ↦ subst FitsBook (ok-inj (rw response at h)) tt
        | inr other ↦ elim (Bool-cases (is_text (text_at j msg "channel") (codes "l4Book"))) [
          | inl book ↦
              let (content, _, h₁) =
                >>=-eq-ok (missing "data" (get msg (codes "data"))) _ (rw (other, book) at h) in
              decode_payload-FitsBook (get content (codes "Snapshot"))
                (get content (codes "Updates")) h₁
          | inr unknown ↦ subst FitsBook (ok-inj (rw (other, unknown) at h)) tt
        ]
      ]

  -- A line that is decoded without an error fits the book: the prices and sizes of a snapshot are
  -- `u64` values, and so are those of updates, whose new sizes are not zero and which remove no
  -- order twice.
  pub decode_line-FitsBook :
      (line : List ℕ) {d : DecodedWithMeta}
      → decode_line_with_meta j line scales ≡ ok d
      → FitsBook d
  unfolding decode_line_with_meta
  decode_line-FitsBook line h =
      let (v, _, h₁) = >>=-eq-ok (ok_or json (from_str line)) _ h in
      elim (Bool-cases (is_text (text_at j v "type") (codes "capture_header"))) [
        | inl header ↦ subst FitsBook (ok-inj (rw header at h₁)) tt
        | inr record_line ↦
            decode_message-FitsBook (message_of j v (get v (codes "msg"))) (rw record_line at h₁)
      ]
