-- ===== src/Dwellir/Sample.antt =====
-- A small reader of JSON, two messages, and what they are decoded to.
pub mod Bids
use l4_book.Prelude.{
  ℕ, ◌≡◌, ◌<◌, refl, List, [], ◌∷◌, Option, none, some, Bool-cases, inl, inr, arith, ltb, u64_mod,
  add_u64, if◌then◌else◌, ℕ_discrete,
}
use Prim.Native.String.{String}
use l4_book.Text.{parse_digits, parse_unsigned, parse_u64, codes, same_text}
use l4_book.Types.{Order, bid, OperationCause, BookOp, VenueDiffKind}
use l4_book.Types.Wallets.{from_hex, strip_0x, bytes_of_hex, hex_nib}
use l4_book.Containers.HashMap
use l4_book.Dwellir.Types.{
  ReasonedUpdateBatch, DecodedWithMeta, ReasonedCapture, btc_default, ok, err, json,
}
use l4_book.Dwellir.Fixed.{parse_fixed, parse_parts, split_point, read_frac, scale_up}
use l4_book.Dwellir.Json.{Json}
use l4_book.Dwellir.Diffs.{
  statuses_by_oid, decode_diffs, decode_diff, decode_shape, decode_modified, decode_update, push,
  push_remove, push_size, is_remove, reasoned_venue_op, status_text, decode_updates_with_meta,
  parse_side,
}
use l4_book.Dwellir.Lines.{
  decode_line_with_meta, decode_message, decode_l4_with_meta, decode_payload, decode_snapshot,
  parse_sides, parse_orders, parse_order, side_or,
}
use l4_book.Dwellir.Capture.{
  count_op, count_ops, accumulate_stats, collect_with_meta, load_lines_with_meta,
  load_line_with_meta, Lines, load_capture_with_meta,
}

mutual
  pub data Tree : Type 0 where
    number : ℕ → Tree
    text : List ℕ → Tree
    array : Items → Tree
    object : Members → Tree

  pub data Items : Type 0 where
    end : Items
    item : Tree → Items → Items

  pub data Members : Type 0 where
    closed : Members
    member : List ℕ → Tree → Members → Members

pub items : Items → List Tree
items end = []
items (item t ts) = t ∷ items ts

pub find_member : Members → List ℕ → Option Tree
unfolding same_text
find_member closed key = none
find_member (member k t ms) key = if same_text k key then some t else find_member ms key

pub find : Tree → List ℕ → Option Tree
unfolding find_member
find (object ms) key = find_member ms key
find (number n) key = none
find (text s) key = none
find (array ts) key = none

pub text_of : Tree → Option (List ℕ)
text_of (text s) = some s
text_of (object ms) = none
text_of (number n) = none
text_of (array ts) = none

pub number_of : Tree → Option ℕ
number_of (number n) = if ltb n u64_mod then some n else none
number_of (text s) = none
number_of (object ms) = none
number_of (array ts) = none

pub items_of : Tree → Option (List Tree)
unfolding items
items_of (array ts) = some (items ts)
items_of (number n) = none
items_of (text s) = none
items_of (object ms) = none

pub members_of : Tree → Option Members
members_of (object ms) = some ms
members_of (array ts) = none
members_of (number n) = none
members_of (text s) = none

pub number_of-lt : (t : Tree) (n : ℕ) → number_of t ≡ some n → n < u64_mod
unfolding number_of
number_of-lt (number k) n h = elim (Bool-cases (ltb k u64_mod)) [
  | inl small ↦ grind (arith, rw small at h)
  | inr large ↦ cc (rw large at h)
]
number_of-lt (text s) n h = cc
number_of-lt (object ms) n h = cc
number_of-lt (array ts) n h = cc

order_tree : ℕ → String → String → Tree
order_tree oid px sz = object (
    member (codes "oid") (number oid) (
      member (codes "user") (text (codes "0x0102030405060708090a0b0c0d0e0f1011121314")) (
        member (codes "side") (text (codes "B")) (
          member (codes "limitPx") (text (codes px))
            (member (codes "sz") (text (codes sz)) closed)))))

pub one_member : String → Tree → Tree
one_member key t = object (member (codes key) t closed)

diff : ℕ → Tree → Tree
diff oid raw =
    object (member (codes "oid") (number oid) (member (codes "raw_book_diff") raw closed))

-- A removal, a complete fill of the order that is gone, and an amendment.
unfoldable pub updates_tree : Tree
unfolding diff one_member
updates_tree = one_member "book_diffs" (
    array (
      item (diff 1 (text (codes "remove"))) (
        item (diff 1 (one_member "update" (one_member "newSz" (text (codes "0")))))
          (item (diff 2 (one_member "modified" (one_member "sz" (text (codes "1.5"))))) end))))

-- Two bids, and no asks.
snapshot_tree : Tree
unfolding order_tree one_member
snapshot_tree = one_member "levels" (
    array (
      item (array (item (order_tree 1 "90057.0" "0.5") (item (order_tree 2 "90057" "2") end)))
        (item (array end) end)))

pub message_tree : String → Tree → Tree
unfolding one_member
message_tree kind payload = object (
    member (codes "channel") (text (codes "l4Book"))
      (member (codes "data") (one_member kind payload) closed))

-- Two texts are read as the two messages, and any text else is no JSON.
pub read_tree : List ℕ → Option Tree
unfolding same_text message_tree snapshot_tree updates_tree
read_tree line =
    if same_text line (codes "snapshot")
    then some (message_tree "Snapshot" snapshot_tree)
    else if same_text line (codes "updates")
    then some (message_tree "Updates" updates_tree)
    else none

abbrev pub test_json : Json
test_json = record {
  Value = Tree;
  Object = Members;
  from_str = read_tree;
  get = find;
  as_str = text_of;
  as_u64 = number_of;
  as_array = items_of;
  as_object = members_of;
  member = find_member;
  as_u64-lt = number_of-lt;
}

abbrev pub test_batch : ReasonedUpdateBatch
test_batch = record {
  ops =
      reasoned_venue_op (BookOp.remove 1) VenueDiffKind.remove none
      ∷ reasoned_venue_op (BookOp.amend_size 2 150000000) VenueDiffKind.modified none
      ∷ [];
  collapsed_complete_fills = 1;
  dropped_duplicate_removes = 1;
  unresolved_new = 0;
}

abbrev pub order : ℕ → ℕ → Order
order oid sz = record {
  id = oid;
  wallet =
      1 ∷ 2 ∷ 3 ∷ 4 ∷ 5 ∷ 6 ∷ 7 ∷ 8 ∷ 9 ∷ 10 ∷ 11 ∷ 12 ∷ 13 ∷ 14 ∷ 15 ∷ 16 ∷ 17 ∷ 18 ∷ 19 ∷ 20 ∷ [];
  side = bid;
  price = 90057000000;
  qty = sz;
  ts = 0;
}

abbrev pub test_orders : List Order
test_orders = order 1 50000000 ∷ order 2 200000000 ∷ []

abbrev pub test_lines : Lines
test_lines = ok (codes "snapshot") ∷ ok [] ∷ ok (codes "updates") ∷ []

abbrev pub test_capture : ReasonedCapture
test_capture = record {
  snapshot = test_orders;
  updates = test_batch.ops ∷ [];
  stats = record {
    lines = 2;
    updates_messages = 1;
    total_ops = 2;
    adds = 0;
    removes = 1;
    size_updates = 0;
    size_amends = 1;
    unresolved_new = 0;
    collapsed_complete_fills = 1;
    dropped_duplicate_removes = 1;
  };
}

pub updates_decode : decode_updates_with_meta test_json updates_tree btc_default ≡ ok test_batch
unfolding decode_updates_with_meta statuses_by_oid decode_diffs decode_diff decode_shape
    decode_modified decode_update push push_remove push_size parse_fixed parse_parts split_point
    read_frac scale_up parse_digits parse_unsigned parse_u64 same_text is_remove HashMap.get
    HashMap.has HashMap.set_insert ℕ_discrete status_text updates_tree find text_of number_of
    items_of items members_of find_member add_u64 diff one_member
updates_decode = refl

pub updates_line_decodes :
    decode_line_with_meta test_json (codes "updates") btc_default
    ≡ ok (DecodedWithMeta.updates test_batch)
unfolding decode_line_with_meta decode_message decode_l4_with_meta decode_payload read_tree
    message_tree one_member find text_of find_member same_text
updates_line_decodes = rw updates_decode refl

pub snapshot_line_decodes :
    decode_line_with_meta test_json (codes "snapshot") btc_default
    ≡ ok (DecodedWithMeta.snapshot test_orders OperationCause.snapshot)
unfolding decode_line_with_meta decode_message decode_l4_with_meta decode_payload decode_snapshot
    parse_sides parse_orders parse_order side_or parse_side read_tree message_tree snapshot_tree
    order_tree one_member find text_of find_member same_text number_of items_of items parse_fixed
    parse_parts split_point read_frac scale_up parse_digits parse_unsigned parse_u64 add_u64
    from_hex strip_0x bytes_of_hex hex_nib
snapshot_line_decodes = refl

pub blank_line_fails : decode_line_with_meta test_json [] btc_default ≡ err json
unfolding decode_line_with_meta read_tree same_text
blank_line_fails = refl

pub lines_load : load_capture_with_meta test_json test_lines btc_default ≡ ok test_capture
unfolding load_capture_with_meta load_lines_with_meta load_line_with_meta collect_with_meta
    accumulate_stats count_ops count_op
lines_load = rw (snapshot_line_decodes, updates_line_decodes) refl
