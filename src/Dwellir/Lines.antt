-- ===== src/Dwellir/Lines.antt =====
-- src/dwellir.rs: one line of a capture.
pub mod Ranges
use l4_book.Prelude.{
  ℕ, List, [], ◌∷◌, ◌++◌, Option, none, some, Bool, true, false, if◌then◌else◌, map,
}
use l4_book.Text.{codes, same_text}
use l4_book.Types.{Order, Side, OperationCause, BookOp, ReasonedBookOp}
use l4_book.Types.Wallets.{from_hex}
use l4_book.Dwellir.Types.{
  UpdateBatch, ReasonedUpdateBatch, Decoded, DecodedWithMeta, AdapterError, json, bad_price,
  bad_qty, bad_wallet, Scales, Result, ok, err, ◌>>=◌, ok_or, map_ok,
}
use l4_book.Dwellir.Fixed.{parse_fixed}
use l4_book.Dwellir.Json.{Json}
use l4_book.Dwellir.Diffs.{
  missing, parse_side, text_at, u64_at, zero_or, values_or_none, decode_updates_with_meta,
}

abbrev pub ops_of : List ReasonedBookOp → List BookOp
ops_of = map (λ reasoned. reasoned.op)

unfoldable pub strip_update_batch : ReasonedUpdateBatch → UpdateBatch
strip_update_batch batch = record {
  ops = ops_of batch.ops;
  collapsed_complete_fills = batch.collapsed_complete_fills;
  dropped_duplicate_removes = batch.dropped_duplicate_removes;
}

unfoldable pub strip_decoded : DecodedWithMeta → Decoded
unfolding strip_update_batch
strip_decoded DecodedWithMeta.skip = Decoded.skip
strip_decoded (DecodedWithMeta.snapshot orders cause) = Decoded.snapshot orders
strip_decoded (DecodedWithMeta.updates batch) = Decoded.updates (strip_update_batch batch)

abbrev pub is_text : Option (List ℕ) → List ℕ → Bool
is_text none t = false
is_text (some s) t = same_text s t

module _ (j : Json) where
  open j use {Value, from_str, get, as_array}

  -- `match side_str`.
  unfoldable pub side_or : Option Side → Option (List ℕ) → Result Side
  unfolding parse_side
  side_or default_side none = missing "side" default_side
  side_or default_side (some s) = parse_side s

  unfoldable pub parse_order : Value → Option Side → Scales → Result Order
  unfolding side_or
  parse_order o default_side scales = do
    oid ← missing "oid" (u64_at j o "oid")
    user_str ← missing "user" (text_at j o "user")
    side ← side_or default_side (text_at j o "side")
    px_str ← missing "limitPx" (text_at j o "limitPx")
    sz_str ← missing "sz" (text_at j o "sz")
    wallet ← ok_or (bad_wallet user_str) (from_hex user_str)
    price ← ok_or (bad_price px_str) (parse_fixed px_str scales.price_digits)
    qty ← ok_or (bad_qty sz_str) (parse_fixed sz_str scales.qty_digits)
    ok (record {
      id = oid;
      wallet = wallet;
      side = side;
      price = price;
      qty = qty;
      ts = zero_or j (u64_at j o "timestamp");
    })

  unfoldable pub parse_orders : List Value → Scales → Result (List Order)
  unfolding parse_order
  parse_orders [] scales = ok []
  parse_orders (o ∷ os) scales = do
    order ← parse_order o none scales
    rest ← parse_orders os scales
    ok (order ∷ rest)

  -- The loop over the sides; what is not an array is passed over.
  unfoldable pub parse_sides : List Value → Scales → Result (List Order)
  unfolding parse_orders
  parse_sides [] scales = ok []
  parse_sides (side_arr ∷ sides) scales = do
    orders ← parse_orders (values_or_none j (as_array side_arr)) scales
    rest ← parse_sides sides scales
    ok (orders ++ rest)

  unfoldable pub decode_snapshot : Value → Scales → Result DecodedWithMeta
  unfolding parse_sides
  decode_snapshot snap scales = do
    levels ← missing "levels" (get snap (codes "levels"))
    arr ← missing "levels[]" (as_array levels)
    orders ← parse_sides arr scales
    ok (DecodedWithMeta.snapshot orders OperationCause.snapshot)

  unfoldable pub decode_payload : Option Value → Option Value → Scales → Result DecodedWithMeta
  unfolding decode_snapshot
  decode_payload (some snap) updates scales = decode_snapshot snap scales
  decode_payload none (some updates) scales = do
    batch ← decode_updates_with_meta j updates scales
    ok (DecodedWithMeta.updates batch)
  decode_payload none none scales = ok DecodedWithMeta.skip

  unfoldable pub decode_l4_with_meta : Value → Scales → Result DecodedWithMeta
  unfolding decode_payload
  decode_l4_with_meta msg scales = do
    content ← missing "data" (get msg (codes "data"))
    decode_payload (get content (codes "Snapshot")) (get content (codes "Updates")) scales

  -- `v.get("msg").unwrap_or(&v)`.
  abbrev message_of : Value → Option Value → Value
  message_of v none = v
  message_of v (some msg) = msg

  unfoldable pub decode_message : Value → Scales → Result DecodedWithMeta
  unfolding decode_l4_with_meta same_text
  decode_message msg scales =
      if is_text (text_at j msg "channel") (codes "subscriptionResponse")
      then ok DecodedWithMeta.skip
      else if is_text (text_at j msg "channel") (codes "l4Book")
      then decode_l4_with_meta msg scales
      else ok DecodedWithMeta.skip

  unfoldable pub decode_line_with_meta : List ℕ → Scales → Result DecodedWithMeta
  unfolding decode_message
  decode_line_with_meta line scales = do
    v ← ok_or json (from_str line)
    if is_text (text_at j v "type") (codes "capture_header")
        then ok DecodedWithMeta.skip
        else decode_message (message_of v (get v (codes "msg"))) scales

  unfoldable pub decode_line : List ℕ → Scales → Result Decoded
  unfolding decode_line_with_meta strip_decoded
  decode_line line scales = map_ok strip_decoded (decode_line_with_meta line scales)
