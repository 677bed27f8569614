-- ===== src/Dwellir/Diffs.antt =====
-- src/dwellir.rs: the payload of an `Updates` message, one diff after another.
pub mod Removes
pub mod Sound
use l4_book.Prelude.{
  ℕ, zero, suc, ◌+◌, List, [], ◌∷◌, ◌++◌, Option, none, some, Bool, true, false, ◌==◌,
  if◌then◌else◌, ℕ_discrete,
}
use l4_book.Prelude
use Prim.Native.String.{String}
use l4_book.Text.{codes, same_text}
use l4_book.Types.{
  Order, OrderId, Qty, Side, bid, ask, BookOp, VenueDiffKind, OperationCause, ReasonedBookOp,
}
use l4_book.Types.Wallets.{from_hex}
use l4_book.Containers.HashMap
use l4_book.Dwellir.Types.{
  ReasonedUpdateBatch, AdapterError, bad_price, bad_qty, bad_wallet, bad_side, missing_field,
  Scales, Result, ok, err, ◌>>=◌, ok_or,
}
use l4_book.Dwellir.Fixed.{parse_fixed}
use l4_book.Dwellir.Json.{Json}

abbrev pub missing {ℓ} : {A : Type ℓ} → String → Option A → Result A
missing field = ok_or (missing_field (codes field))

unfoldable pub parse_side : List ℕ → Result Side
unfolding same_text
parse_side s =
    if same_text s (codes "B")
    then ok bid
    else if same_text s (codes "A")
    then ok ask
    else err (bad_side s)

abbrev pub reasoned_venue_op : BookOp → VenueDiffKind → Option (List ℕ) → ReasonedBookOp
reasoned_venue_op op diff status = record {
  op = op;
  cause = OperationCause.venue (codes "dwellir") diff status;
}

-- The variables of the loop over the diffs.
pub record Decoding : Type 0 where
  pub ops : List ReasonedBookOp
  pub removed : List OrderId
  pub collapsed_complete_fills : ℕ
  pub dropped_duplicate_removes : ℕ
  pub unresolved_new : ℕ

abbrev pub start : Decoding
start = record {
  ops = [];
  removed = [];
  collapsed_complete_fills = 0;
  dropped_duplicate_removes = 0;
  unresolved_new = 0;
}

unfoldable pub push : BookOp → VenueDiffKind → Option (List ℕ) → Decoding → Decoding
push op diff status s = record s { ops = s.ops ++ reasoned_venue_op op diff status ∷ [] }

-- `if removed.insert(oid)`.
unfoldable pub push_remove : OrderId → VenueDiffKind → Option (List ℕ) → Decoding → Decoding
unfolding push
push_remove oid diff status s =
    if HashMap.has ℕ_discrete oid s.removed
    then record s { dropped_duplicate_removes = s.dropped_duplicate_removes + 1 }
    else push (BookOp.remove oid) diff status
        (record s { removed = HashMap.set_insert ℕ_discrete oid s.removed })

-- The two arms with a new size: zero is a complete fill.
unfoldable pub push_size :
    OrderId → Qty → BookOp → VenueDiffKind → Option (List ℕ) → Decoding → Decoding
unfolding push push_remove
push_size oid new_qty op diff status s =
    if new_qty == 0
    then push_remove oid VenueDiffKind.complete_fill_collapsed status
        (record s { collapsed_complete_fills = s.collapsed_complete_fills + 1 })
    else push op diff status s

module _ (j : Json) where
  open j use {Value, Object, get, as_str, as_u64, as_array, as_object, member}

  -- `v.get(key).and_then(Value::as_str)`, and the like.
  abbrev pub text_at : Value → String → Option (List ℕ)
  text_at v key = Prelude.◌>>=◌ (get v (codes key)) as_str

  abbrev pub u64_at : Value → String → Option ℕ
  u64_at v key = Prelude.◌>>=◌ (get v (codes key)) as_u64

  abbrev pub array_at : Value → String → Option (List Value)
  array_at v key = Prelude.◌>>=◌ (get v (codes key)) as_array

  abbrev pub Statuses : Type 0
  Statuses = List (OrderId × Value)

  unfoldable pub insert_status : Option ℕ → Value → Statuses → Statuses
  insert_status none s m = m
  insert_status (some oid) s m = HashMap.insert ℕ_discrete oid s m

  -- The loop that stashes the statuses by the identifier of their order.
  unfoldable pub statuses_by_oid : List Value → Statuses → Statuses
  unfolding insert_status
  statuses_by_oid [] m = m
  statuses_by_oid (s ∷ ss) m =
      statuses_by_oid ss
        (insert_status (Prelude.◌>>=◌ (get s (codes "order")) λ order. u64_at order "oid") s m)

  unfoldable pub status_text : Statuses → OrderId → Option (List ℕ)
  status_text m oid = Prelude.◌>>=◌ (HashMap.get ℕ_discrete oid m) λ status. text_at status "status"

  abbrev pub text_or_empty : Option (List ℕ) → List ℕ
  text_or_empty none = []
  text_or_empty (some s) = s

  abbrev pub zero_or : Option ℕ → ℕ
  zero_or none = 0
  zero_or (some n) = n

  -- The arm of `new`, once the sizes and prices are read as texts and the status is there.
  unfoldable pub new_order : OrderId → List ℕ → List ℕ → List ℕ → Value → Scales → Result Order
  unfolding parse_side
  new_order oid sz_str px_str user_str status scales = do
    order_obj ← missing "order" (get status (codes "order"))
    side ← parse_side (text_or_empty (text_at order_obj "side"))
    wallet ← ok_or (bad_wallet user_str) (from_hex user_str)
    price ← ok_or (bad_price px_str) (parse_fixed px_str scales.price_digits)
    qty ← ok_or (bad_qty sz_str) (parse_fixed sz_str scales.qty_digits)
    ok (record {
      id = oid;
      wallet = wallet;
      side = side;
      price = price;
      qty = qty;
      ts = zero_or (u64_at order_obj "timestamp");
    })

  unfoldable pub push_new :
      OrderId → List ℕ → List ℕ → List ℕ → Scales → Decoding → Option Value → Result Decoding
  unfolding push new_order
  push_new oid sz_str px_str user_str scales s none =
      ok (record s { unresolved_new = s.unresolved_new + 1 })
  push_new oid sz_str px_str user_str scales s (some status) = do
    order ← new_order oid sz_str px_str user_str status scales
    ok (push (BookOp.add order) VenueDiffKind.new (text_at status "status") s)

  unfoldable pub decode_new :
      Statuses → Scales → Value → OrderId → Value → Decoding → Result Decoding
  unfolding push_new
  decode_new m scales d oid new_obj s = do
    sz_str ← missing "new.sz" (text_at new_obj "sz")
    px_str ← missing "book_diff.px" (text_at d "px")
    user_str ← missing "book_diff.user" (text_at d "user")
    push_new oid sz_str px_str user_str scales s (HashMap.get ℕ_discrete oid m)

  unfoldable pub decode_update : Statuses → Scales → OrderId → Value → Decoding → Result Decoding
  unfolding push_size
  decode_update m scales oid upd s = do
    new_sz ← missing "update.newSz" (text_at upd "newSz")
    new_qty ← ok_or (bad_qty new_sz) (parse_fixed new_sz scales.qty_digits)
    ok (
        push_size oid new_qty (BookOp.update_size oid new_qty) VenueDiffKind.update
          (status_text m oid) s)

  unfoldable pub decode_modified : Statuses → Scales → OrderId → Value → Decoding → Result Decoding
  unfolding push_size
  decode_modified m scales oid modified s = do
    sz ← missing "modified.sz" (text_at modified "sz")
    new_qty ← ok_or (bad_qty sz) (parse_fixed sz scales.qty_digits)
    ok (
        push_size oid new_qty (BookOp.amend_size oid new_qty) VenueDiffKind.modified
          (status_text m oid) s)

  -- The three `if let` on the members of the diff; another shape is skipped.
  unfoldable pub decode_shape :
      Statuses
      → Scales
      → Value
      → OrderId
      → Decoding
      → Option Value
      → Option Value
      → Option Value
      → Result Decoding
  unfolding decode_new decode_update decode_modified
  decode_shape m scales d oid s (some new_obj) upd modified = decode_new m scales d oid new_obj s
  decode_shape m scales d oid s none (some upd) modified = decode_update m scales oid upd s
  decode_shape m scales d oid s none none (some modified) = decode_modified m scales oid modified s
  decode_shape m scales d oid s none none none = ok s

  unfoldable pub is_remove : Option (List ℕ) → Bool
  unfolding same_text
  is_remove none = false
  is_remove (some s) = same_text s (codes "remove")

  -- The body of the loop over the diffs.
  unfoldable pub decode_diff : Statuses → Scales → Value → Decoding → Result Decoding
  unfolding decode_shape is_remove push_remove
  decode_diff m scales d s = do
    oid ← missing "book_diff.oid" (u64_at d "oid")
    raw ← missing "raw_book_diff" (get d (codes "raw_book_diff"))
    if is_remove (as_str raw)
        then ok (push_remove oid VenueDiffKind.remove (status_text m oid) s)
        else (do
          raw_obj ← missing "raw_book_diff{}" (as_object raw)
          decode_shape m scales d oid s (member raw_obj (codes "new"))
              (member raw_obj (codes "update")) (member raw_obj (codes "modified")))

  unfoldable pub decode_diffs : Statuses → Scales → List Value → Decoding → Result Decoding
  unfolding decode_diff
  decode_diffs m scales [] s = ok s
  decode_diffs m scales (d ∷ ds) s = do s ← decode_diff m scales d s; decode_diffs m scales ds s

  abbrev pub batch_of : Decoding → ReasonedUpdateBatch
  batch_of s = record {
    ops = s.ops;
    collapsed_complete_fills = s.collapsed_complete_fills;
    dropped_duplicate_removes = s.dropped_duplicate_removes;
    unresolved_new = s.unresolved_new;
  }

  abbrev pub values_or_none : Option (List Value) → List Value
  values_or_none none = []
  values_or_none (some vs) = vs

  unfoldable pub decode_updates_with_meta : Value → Scales → Result ReasonedUpdateBatch
  unfolding statuses_by_oid decode_diffs
  decode_updates_with_meta updates scales =
      let m = statuses_by_oid (values_or_none (array_at updates "order_statuses")) [] in
      elim (array_at updates "book_diffs") [
        | none ↦ ok (batch_of start)
        | some diffs ↦ decode_diffs m scales diffs start >>= λ s. ok (batch_of s)
      ]
