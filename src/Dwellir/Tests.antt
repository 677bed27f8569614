-- ===== src/Dwellir/Tests.antt =====
-- Runs of the decoder on a sample.
use l4_book.Prelude.{◌≡◌, refl, [], ◌∷◌, arith, some, length, add_u64}
use l4_book.Text.{parse_digits, parse_unsigned, parse_u64, codes, same_text}
use l4_book.Dwellir.Types.{DecodedWithMeta, ok, btc_default, map_ok}
use l4_book.Dwellir.Fixed.{parse_fixed, parse_parts, split_point, read_frac, scale_up}
use l4_book.Dwellir.Fixed.Digits.{parse_fixed-truncates}
use l4_book.Dwellir.Diffs.{array_at, values_or_none}
use l4_book.Dwellir.Diffs.Sound.{IsFine, decode_updates-IsFine}
use l4_book.Dwellir.Lines.{decode_line_with_meta}
use l4_book.Dwellir.Printed.{decode_line-printed}
use l4_book.Dwellir.Sample.Bids.{bid_order, bids_json, bids_line}
use l4_book.Types.{OperationCause}
use l4_book.Dwellir.Capture.{load_capture, load_capture_with_meta}
use l4_book.Dwellir.Capture.Stats.{
  Agrees, load_capture-Agrees, strip_capture, load_capture-strip_capture,
}
use l4_book.Dwellir.Sample.{
  updates_tree, test_json, test_batch, test_lines, test_capture, updates_decode, lines_load,
}

decode_updates-IsFine_example :
    IsFine
      (length (values_or_none test_json (array_at test_json updates_tree "book_diffs")))
      test_batch
decode_updates-IsFine_example =
    decode_updates-IsFine test_json updates_tree btc_default updates_decode

decode_line-printed_example :
    decode_line_with_meta bids_json (codes "bids") btc_default
    ≡ ok (DecodedWithMeta.snapshot (bid_order ∷ []) OperationCause.snapshot)
unfolding same_text
decode_line-printed_example =
    decode_line-printed bids_json btc_default (omega arith) (omega arith) (codes "bids")
      (codes "l4Book") ((bid_order ∷ []) ∷ [] ∷ []) bids_line

load_capture-Agrees_example : Agrees test_capture.updates test_capture.stats
load_capture-Agrees_example = load_capture-Agrees test_json btc_default test_lines lines_load

load_capture-strip_capture_example :
    load_capture test_json test_lines btc_default
    ≡ map_ok strip_capture (load_capture_with_meta test_json test_lines btc_default)
load_capture-strip_capture_example = load_capture-strip_capture test_json btc_default test_lines

reads_fixed : parse_fixed (codes "1.5") 8 ≡ some 150000000
unfolding parse_fixed parse_parts split_point read_frac scale_up parse_digits parse_unsigned
    parse_u64 add_u64
reads_fixed = refl

parse_fixed-truncates_example : parse_fixed (codes "1.25kg") 2 ≡ parse_fixed (codes "1.25") 2
parse_fixed-truncates_example =
    parse_fixed-truncates (codes "1") (codes "25") (codes "kg") 2 (refl, tt) (refl, (refl, tt)) refl
