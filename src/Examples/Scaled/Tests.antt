-- ===== src/Examples/Scaled/Tests.antt =====
-- A number that is printed and read back.
use l4_book.Prelude.{◌≡◌, some, arith}
use l4_book.Dwellir.Fixed.{parse_fixed}
use l4_book.Examples.Scaled.{fmt_scaled}
use l4_book.Examples.Scaled.RoundTrip.{parse_fixed-fmt_scaled}

parse_fixed-fmt_scaled_example : parse_fixed (fmt_scaled 1050000 6) 6 ≡ some 1050000
parse_fixed-fmt_scaled_example = parse_fixed-fmt_scaled 1050000 6 (omega arith) (omega arith)
