-- ===== src/Dwellir/Printed.antt =====
-- The lines that the decoder reads, as values that hold printed orders.
use l4_book.Prelude.{
  ℕ, ◌≤◌, ◌<◌, ◌≡◌, refl, ap₂, subst, List, [], ◌∷◌, ◌++◌, none, some, true, ◌⊎◌, inl, inr,
  Bool-cases, if◌then◌else◌, length, arith, u64_mod, ◌==◌,
}
use l4_book.Text.{codes, same_text}
use l4_book.Types.{Order, Side, bid, ask, OperationCause}
use l4_book.Types.Wallets.{fmt, AreBytes, from_hex-fmt}
use l4_book.Dwellir.Types.{DecodedWithMeta, Scales, ok}
use l4_book.Dwellir.Json.{Json}
use l4_book.Dwellir.Diffs.{parse_side, text_at, u64_at}
use l4_book.Dwellir.Lines.{
  side_or, parse_order, parse_orders, parse_sides, decode_snapshot, decode_payload,
  decode_l4_with_meta, decode_message, decode_line_with_meta,
}
use l4_book.Examples.Scaled.{fmt_scaled}
use l4_book.Examples.Scaled.RoundTrip.{parse_fixed-fmt_scaled}

-- The letter of a side.
abbrev pub letter : Side → List ℕ
letter bid = codes "B"
letter ask = codes "A"

parse_side-letter : (s : Side) → parse_side (letter s) ≡ ok s
unfolding parse_side
parse_side-letter bid = refl
parse_side-letter ask = refl

-- An order that a printed form can hold.
pub record IsPrintable (o : Order) : Type 0 where
  pub twenty : length o.wallet ≡ 20
  pub bytes : AreBytes o.wallet
  pub price_small : o.price < u64_mod
  pub qty_small : o.qty < u64_mod

same_text-eq : (s t : List ℕ) → same_text s t ≡ true → s ≡ t
unfolding same_text
same_text-eq [] [] e = refl
same_text-eq [] (d ∷ t) e = cc e
same_text-eq (c ∷ s) [] e = cc e
same_text-eq (c ∷ s) (d ∷ t) e = elim (Bool-cases (c == d)) [
  | inl same ↦ ap₂ (λ x y. x ∷ y) (ground arith) (same_text-eq s t (ground arith))
  | inr other ↦ cc (rw other at e)
]

module _ (j : Json) (scales : Scales) where
  open j use {Value, from_str, get, as_array}

  -- An object with the fields of an order, its prices and sizes as printed numbers.
  pub record IsPrinted (v : Value) (o : Order) : Type 0 where
    pub printable : IsPrintable o
    pub oid : u64_at j v "oid" ≡ some o.id
    pub user : text_at j v "user" ≡ some (fmt o.wallet)
    pub side : text_at j v "side" ≡ some (letter o.side)
    pub limit_px : text_at j v "limitPx" ≡ some (fmt_scaled o.price scales.price_digits)
    pub sz : text_at j v "sz" ≡ some (fmt_scaled o.qty scales.qty_digits)
    pub timestamp : u64_at j v "timestamp" ≡ some o.ts

  abbrev pub ArePrinted : List Value → List Order → Type 0
  ArePrinted [] [] = Unit {0}
  ArePrinted [] (o ∷ os) = ⊥
  ArePrinted (v ∷ vs) [] = ⊥
  ArePrinted (v ∷ vs) (o ∷ os) = IsPrinted v o × ArePrinted vs os

  -- One array of orders for each side.
  abbrev pub AreSides : List Value → List (List Order) → Type 0
  AreSides [] [] = Unit {0}
  AreSides [] (os ∷ sides) = ⊥
  AreSides (v ∷ vs) [] = ⊥
  AreSides (v ∷ vs) (os ∷ sides) =
      ((l : List Value) × (as_array v ≡ some l) × ArePrinted l os) × AreSides vs sides

  abbrev pub joined : List (List Order) → List Order
  joined [] = []
  joined (os ∷ sides) = os ++ joined sides

  -- A message on a channel with a snapshot of the orders, which the line may wrap in an envelope;
  -- the line has no `type`, which a header has.
  pub record IsSnapshotLine (line channel : List ℕ) (sides : List (List Order)) : Type 0 where
    pub whole : Value
    pub message : Value
    pub content : Value
    pub snap : Value
    pub levels : Value
    pub arrays : List Value
    pub is_json : from_str line ≡ some whole
    pub no_header : text_at j whole "type" ≡ none
    pub envelope :
        (get whole (codes "msg") ≡ some message)
        ⊎ ((get whole (codes "msg") ≡ none) × (whole ≡ message))
    pub on_channel : text_at j message "channel" ≡ some channel
    pub has_data : get message (codes "data") ≡ some content
    pub has_snapshot : get content (codes "Snapshot") ≡ some snap
    pub has_levels : get snap (codes "levels") ≡ some levels
    pub is_array : as_array levels ≡ some arrays
    pub printed : AreSides arrays sides

  module _ (few_price : scales.price_digits ≤ 19) (few_qty : scales.qty_digits ≤ 19) where
    parse_order-printed :
        (v : Value) (o : Order) → IsPrinted v o → parse_order j v none scales ≡ ok o
    unfolding parse_order side_or
    parse_order-printed v o p =
        rw
          (
            p.oid,
            p.user,
            p.side,
            side_or,
            parse_side-letter o.side,
            p.limit_px,
            p.sz,
            from_hex-fmt o.wallet p.printable.twenty p.printable.bytes,
            parse_fixed-fmt_scaled o.price scales.price_digits p.printable.price_small few_price,
            parse_fixed-fmt_scaled o.qty scales.qty_digits p.printable.qty_small few_qty,
            p.timestamp,
          )
          refl

    parse_orders-printed :
        (vs : List Value) (os : List Order) → ArePrinted vs os → parse_orders j vs scales ≡ ok os
    unfolding parse_orders
    parse_orders-printed [] [] h = refl
    parse_orders-printed [] (o ∷ os) h = absurd h
    parse_orders-printed (v ∷ vs) [] h = absurd h
    parse_orders-printed (v ∷ vs) (o ∷ os) (p, h) =
        rw (parse_order-printed v o p, parse_orders-printed vs os h) refl

    parse_sides-printed :
        (vs : List Value) (sides : List (List Order))
        → AreSides vs sides
        → parse_sides j vs scales ≡ ok (joined sides)
    unfolding parse_sides
    parse_sides-printed [] [] h = refl
    parse_sides-printed [] (os ∷ sides) h = absurd h
    parse_sides-printed (v ∷ vs) [] h = absurd h
    parse_sides-printed (v ∷ vs) (os ∷ sides) ((l, e, p), h) =
        rw (e, parse_orders-printed l os p, parse_sides-printed vs sides h) refl

    subscribed-not_book :
        (channel : List ℕ)
        → same_text channel (codes "subscriptionResponse") ≡ true
        → same_text channel (codes "l4Book") ≡ true
        → ⊥
    unfolding same_text
    subscribed-not_book channel subscribed book = cc (
        subst (λ c. same_text c (codes "l4Book") ≡ true)
          (same_text-eq channel (codes "subscriptionResponse") subscribed) book)

    decode_message-printed :
        (line channel : List ℕ) (sides : List (List Order)) (l : IsSnapshotLine line channel sides)
        → decode_message j l.message scales
          ≡ ok (
              if same_text channel (codes "l4Book")
              then DecodedWithMeta.snapshot (joined sides) OperationCause.snapshot
              else DecodedWithMeta.skip)
    unfolding decode_message decode_l4_with_meta decode_payload decode_snapshot
    decode_message-printed line channel sides l =
        elim (Bool-cases (same_text channel (codes "subscriptionResponse"))) [
          | inl subscribed ↦ elim (Bool-cases (same_text channel (codes "l4Book"))) [
            | inl book ↦ absurd (subscribed-not_book channel subscribed book)
            | inr other ↦ rw (l.on_channel, subscribed, other) refl
          ]
          | inr unsubscribed ↦ elim (Bool-cases (same_text channel (codes "l4Book"))) [
            | inl book ↦
                rw
                  (
                    l.on_channel,
                    unsubscribed,
                    book,
                    l.has_data,
                    l.has_snapshot,
                    l.has_levels,
                    l.is_array,
                    parse_sides-printed l.arrays sides l.printed,
                  )
                  refl
            | inr other ↦ rw (l.on_channel, unsubscribed, other) refl
          ]
        ]

    -- A line without a `type` that is a message with a snapshot of printed orders, bare or in an
    -- envelope, is decoded to these orders, the sides one after the other, if the message is on the
    -- channel of the book, and is passed over on any other channel. The prices and sizes are `u64`
    -- values printed with at most 19 digits behind the point, and the wallets have twenty bytes.
    pub decode_line-printed :
        (line channel : List ℕ) (sides : List (List Order))
        → IsSnapshotLine line channel sides
        → decode_line_with_meta j line scales
          ≡ ok (
              if same_text channel (codes "l4Book")
              then DecodedWithMeta.snapshot (joined sides) OperationCause.snapshot
              else DecodedWithMeta.skip)
    unfolding decode_line_with_meta
    decode_line-printed line channel sides l = elim l.envelope [
      | inl wrapped ↦
          rw (l.is_json, l.no_header, wrapped) (decode_message-printed line channel sides l)
      | inr (bare, same) ↦
          rw (l.is_json, l.no_header, bare, same) (decode_message-printed line channel sides l)
    ]
