-- ===== src/Lib.antt =====
-- The l4-book order book: a level-4 limit order book that keeps every resting order.
--
-- The program (src/book.rs, src/level.rs, src/types.rs, src/dwellir.rs, and programs of examples/):
--   * A slab of nodes (`Vec<Option<OrderNode>>`) holds the orders. The slots of one price level are
--     linked into a doubly linked list, whose ends and counters a `Level` keeps. Slab.antt has the
--     slab, `Level` and `link_tail`, `unlink`, `move_to_tail`; Slab/Chain, Slab/Cells, Slab/Links
--     compare these with lists of slots.
--   * `OrderBook` (Book.antt) has two maps from prices to levels, the slab, an index from
--     identifiers to slots, a list of free slots, and an index from wallets to identifiers. `add`,
--     `remove`, `update_size`, `amend_size_with_policy` and `clear` are functions of the same names,
--     from a book to a `Run`: success with a value and a book, an error with the book, or a panic.
--   * The reads (Book/Queries.antt): `queue_position`, `queue_position_for_new_order`, `get`,
--     `best_bid`, `best_ask`, `depth`, `level_summary`, `orders_at`, `orders_by_wallet` and the top
--     levels.
--   * Taker orders: `estimate_slippage` (Book/Slippage.antt), and `match_taker_order`,
--     `apply_taker_order`, `submit_limit_order` (Book/Taker.antt).
--   * Replay (Book/Replay.antt): `apply_op`, `apply_op_with_policy`, `apply_snapshot` and
--     `apply_snapshot_with_policy`.
--   * The shared types are in Types.antt, the bits of synthetic identifiers in Types/Ids.antt, the
--     hexadecimal form of wallets in Types/Wallets.antt.
--   * The decoder of the venue's messages, src/dwellir.rs: Dwellir/Fixed (`parse_fixed`),
--     Dwellir/Diffs (`decode_updates_with_meta` and the helpers of its loop), Dwellir/Lines
--     (`decode_line`, `decode_line_with_meta`, `decode_l4_with_meta`, `parse_order`) and
--     Dwellir/Capture (`load_capture`, `load_capture_with_meta`). serde_json is the interface `Json`
--     (Dwellir/Json.antt), a parameter of all of them but `parse_fixed`. A decoded snapshot is meant for
--     `apply_snapshot`, decoded operations for `apply_op`. Dwellir/Printed describes a line by the
--     orders that are printed in it.
--   * `fmt_scaled` of examples/dwellir_debug_log_sp500.rs and examples/dwellir_live_sp500.rs is in
--     Examples/Scaled.antt, `qty_for_notional` of the latter in Examples/Notional.antt.
--     examples/replay_capture.rs is Examples/Replay.antt: it loads a capture, applies the snapshot
--     to an empty book and replays the operations, so it composes the decoder with the book.
--     examples/dwellir_debug_log_sp500.rs is Examples/Debug.antt: `main` as a loop over the messages
--     that are read, with the objects of its log as data (Examples/Debug/Values, Examples/Debug/Log,
--     Examples/Debug/Updates). `String::from_utf8` is a parameter, and the texts of markers are left
--     out. Examples/Debug/Shown says what the values of a snapshot in the log tell of a book.
--     examples/dwellir_live_sp500.rs is Examples/Live.antt in the same way, with the times of the clock
--     in nanoseconds as part of what is read; Examples/Live/Reports has what it prints of the book.
--     The loop over the reports that are due has two more than the time as fuel.
--
-- How the state is related to an abstract one: `IsWellFormed b q` (Book/Invariant.antt) says that
-- the book `b` holds the queues `q`, one list of slots with their orders for each side and price.
-- The cached counts, the ends of the lists, both indexes and the free list agree with `q`. Book/Add,
-- Book/Remove, Book/Resize, Book/Rewrite, Book/Requeue and Book/Amend compare the operations with
-- those on queues, and Book/Ops puts them together. Book/Walks, Book/Best and Book/Depths compare the
-- reads with the queues. Book/Matched, Book/Estimated, Book/Priority, Book/Drained, Book/Taking,
-- Book/Taken, Book/Submitted and Book/Resting are about taker orders, Book/Checks is about
-- `assert_invariants`, Book/Reported about replay, Book/Snapshots, Book/Rebuild, Book/Settled,
-- Book/Preserved and Book/Kept about snapshots, and
-- Book/Growth about the slots that the operations take. Book/Sample, Dwellir/Sample and
-- Examples/Debug/Sample are the books and messages of the tests.
--
-- Conventions and bounds:
--   * Numbers are naturals. Sums and differences of `u64` and `u128` wrap round, as in a release
--     build. `IsWellFormed` bounds sizes by 2^64; a total of a level is taken modulo 2^64.
--   * A `Vec` has at most 2^63 - 1 slots (`max_slots`); to push beyond it is a panic. `HasRoom` says
--     that there is a free slot or that the slab is shorter than that.
--   * A walk along a linked list has the length of the slab as fuel: a list visits no slot twice.
--   * The free list is written with its last element first, as `push` and `pop` see it.
--   * A `HashMap` or `HashSet` is an association list (Containers/HashMap), a `BTreeMap` one sorted
--     by its keys (Containers/TreeMap). The order in which a wallet's orders are listed is the
--     order of insertion; in the program it is unspecified.
--   * The results of `f64` arithmetic are symbolic expressions (`F64`), which no test reads.
--   * A text is a list of bytes (Text.antt). `to_string` has 39 digits as fuel, as many as a `u128`
--     has. The counters of `usize` and `u64` that count operations and lines are not bounded, and
--     `fmt_scaled` has no overflow for fewer than 39 digits.
--   * `AdapterError` does not carry the errors of `std::io` and `serde_json`. A file is the list of
--     what its reader yields, lines or errors.
--
-- Not modelled, since they are input and output: the texts of errors and of the markers in the log,
-- the environment, files and connections of the examples, a write to the log that fails, what
-- examples/replay_capture.rs prints, benches and scripts. src/lib.rs only declares modules.
pub mod Prelude
pub mod Types
pub mod Containers
pub mod Slab
pub mod Book
pub mod Text
pub mod Dwellir
pub mod Examples
