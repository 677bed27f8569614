-- ===== src/Dwellir/Sample/Bids.antt =====
-- A line with a snapshot of one bid, as it is printed.
use l4_book.Prelude.{
  ℕ, Bool, true, ◌&&◌, none, ◌≡◌, refl, List, [], ◌∷◌, Option, some, arith, inl, ltb, if◌then◌else◌,
}
use l4_book.Text.{codes, same_text, to_string}
use l4_book.Types.{Order, bid}
use l4_book.Types.Wallets.{fmt, AreBytes}
use l4_book.Dwellir.Types.{btc_default}
use l4_book.Dwellir.Json.{Json}
use l4_book.Dwellir.Printed.{IsPrintable, IsPrinted, IsSnapshotLine}
use l4_book.Dwellir.Sample.{
  Tree, number, text, array, object, end, item, closed, member, items, find_member, find, text_of,
  number_of, items_of, one_member, message_tree, test_json,
}
use l4_book.Examples.Scaled.{fmt_scaled, zeros, pad_left, pop_zeros, join_point}

abbrev pub bid_order : Order
bid_order = record {
  id = 1;
  wallet =
      1 ∷ 2 ∷ 3 ∷ 4 ∷ 5 ∷ 6 ∷ 7 ∷ 8 ∷ 9 ∷ 10 ∷ 11 ∷ 12 ∷ 13 ∷ 14 ∷ 15 ∷ 16 ∷ 17 ∷ 18 ∷ 19 ∷ 20 ∷ [];
  side = bid;
  price = 90057000000;
  qty = 50000000;
  ts = 7;
}

abbrev are_bytes : List ℕ → Bool
are_bytes [] = true
are_bytes (b ∷ bs) = ltb b 256 && are_bytes bs

checked-AreBytes : (bs : List ℕ) → are_bytes bs ≡ true → AreBytes bs
checked-AreBytes [] e = tt
checked-AreBytes (b ∷ bs) e = (ground arith, checked-AreBytes bs (ground arith))

bid_tree : Tree
bid_tree = object (
    member (codes "oid") (number 1) (
      member (codes "user") (text (fmt bid_order.wallet)) (
        member (codes "side") (text (codes "B")) (
          member (codes "limitPx") (text (codes "90057")) (
            member (codes "sz") (text (codes "0.5"))
              (member (codes "timestamp") (number 7) closed))))))

-- The message, in an envelope.
bids_tree : Tree
unfolding bid_tree message_tree one_member
bids_tree = one_member "msg" (
    message_tree "Snapshot"
      (one_member "levels" (array (item (array (item bid_tree end)) (item (array end) end)))))

pub read_bids : List ℕ → Option Tree
read_bids line = if same_text line (codes "bids") then some bids_tree else none

abbrev pub bids_json : Json
bids_json = record test_json { from_str = read_bids }

pub bid_order-IsPrintable : IsPrintable bid_order
bid_order-IsPrintable = record {
  twenty = refl;
  bytes = checked-AreBytes bid_order.wallet refl;
  price_small = omega arith;
  qty_small = omega arith;
}

bid_tree-IsPrinted : IsPrinted bids_json btc_default bid_tree bid_order
unfolding bid_tree find find_member same_text text_of number_of fmt_scaled pad_left pop_zeros
    join_point zeros to_string
bid_tree-IsPrinted = record {
  printable = bid_order-IsPrintable;
  oid = refl;
  user = refl;
  side = refl;
  limit_px = refl;
  sz = refl;
  timestamp = refl;
}

pub bids_line :
    IsSnapshotLine bids_json btc_default
      (codes "bids")
      (codes "l4Book")
      ((bid_order ∷ []) ∷ [] ∷ [])
unfolding read_bids bids_tree message_tree one_member find find_member same_text text_of items_of
    items
bids_line = record {
  whole = bids_tree;
  message =
      message_tree "Snapshot"
        (one_member "levels" (array (item (array (item bid_tree end)) (item (array end) end))));
  content = _;
  snap = _;
  levels = _;
  arrays = _;
  is_json = refl;
  no_header = refl;
  envelope = inl refl;
  on_channel = refl;
  has_data = refl;
  has_snapshot = refl;
  has_levels = refl;
  is_array = refl;
  printed = ((bid_tree ∷ [], refl, (bid_tree-IsPrinted, tt)), (([], refl, tt), tt));
}
