-- ===== src/Examples/Debug.antt =====
-- examples/dwellir_debug_log_sp500.rs: a program that applies a feed to a book and logs what it does.
pub mod Values
pub mod Log
pub mod Updates
pub mod Full
pub mod Shown
pub mod ReadBack
pub mod Sample
pub mod Tallies
pub mod Safe
mod Tests
pub mod Stops
pub mod Whole
use l4_book.Prelude.{
  ℕ, ◌+◌, List, [], ◌∷◌, ◌++◌, Option, none, some, Bool, true, false, leb, if◌then◌else◌, length,
}
use l4_book.Types.{Order, OrderId, BookError, OperationCause, ReasonedBookOp}
use l4_book.Book.{OrderBook, new_book, len, Run, ok, err, panic, and_then}
use l4_book.Book.Queries.{best_bid, best_ask}
use l4_book.Book.Replay.{apply_op, apply_snapshot}
use l4_book.Dwellir.Types
use l4_book.Dwellir.Types.{AdapterError, DecodedWithMeta, ReasonedUpdateBatch, Scales}
use l4_book.Dwellir.Json.{Json}
use l4_book.Dwellir.Lines.{decode_line_with_meta}
use l4_book.Examples.Debug.Values.{
  CauseValue, BookValue, ReasonedValue, op_order_id, op_kind, operation_cause_to_value,
  reasoned_book_op_to_value, ops_to_value, book_snapshot, price_to_value,
}
use l4_book.Examples.Debug.Log.{
  error_limit, OpResult, applied, failed, Event, started, websocket_read_error, binary_utf8_error,
  websocket_closed, decode_error, grep_marker, first_snapshot, snapshot_apply_error, raw_update,
  applied_book_diff, op_apply_error, parsed_update_summary, full_snapshot, finished, Session, write,
  count_error, at_limit,
}
use l4_book.Examples.Socket.{Message, text, binary, ping, pong, frame, close}
use l4_book.Examples.Debug.Updates.{handle}

-- Whether the loop over the messages is left.
pub data Turn : Type 0 where
  goes_on breaks : Session → Turn

abbrev pub check_limit : Session → Turn
check_limit s = if at_limit s then breaks s else goes_on s

-- `from_utf8` is `String::from_utf8`.
module _ (j : Json) (from_utf8 : List ℕ → Option (List ℕ)) (scales : Scales)
    (updates_to_log : ℕ) where
  unfoldable pub handle_text : List ℕ → Session → OrderBook → Run Turn
  unfolding handle
  handle_text raw s b = elim (decode_line_with_meta j raw scales) [
    | Types.err e ↦
        let s = count_error s in ok (check_limit (write (decode_error s.errors e raw) s)) b
    | Types.ok decoded ↦
        and_then (handle scales updates_to_log raw decoded s b) λ s' b'. ok (check_limit s') b'
  ]

  unfoldable pub handle_message : Message → Session → OrderBook → Run Turn
  unfolding handle_text
  handle_message (text raw) s b = handle_text raw s b
  handle_message (binary bytes) s b = elim (from_utf8 bytes) [
    | some raw ↦ handle_text raw s b
    | none ↦ let s = count_error s in ok (check_limit (write (binary_utf8_error s.errors) s)) b
  ]
  handle_message ping s b = ok (goes_on s) b
  handle_message pong s b = ok (goes_on s) b
  handle_message frame s b = ok (goes_on s) b
  handle_message close s b =
      ok (breaks (write (websocket_closed s.messages s.update_messages s.ops_applied s.errors) s)) b

  -- One read, which may fail.
  unfoldable pub handle_read : Option Message → Session → OrderBook → Run Turn
  unfolding handle_message
  handle_read none s b =
      let s = count_error s in ok (breaks (write (websocket_read_error s.errors) s)) b
  handle_read (some message) s b = handle_message message (record s { messages = s.messages + 1 }) b

  -- The loop on the reads so far. It goes on where they end.
  unfoldable pub read_loop : List (Option Message) → Session → OrderBook → Run Turn
  unfolding handle_read
  read_loop [] s b = ok (goes_on s) b
  read_loop (read ∷ reads) s b =
      and_then (handle_read read s b)
        λ turn b'. elim turn [ breaks s' ↦ ok (breaks s') b' | goes_on s' ↦ read_loop reads s' b' ]

  abbrev pub first_session : Session
  first_session = record {
    messages = 0;
    update_messages = 0;
    ops_applied = 0;
    errors = 0;
    collapsed_complete_fills = 0;
    dropped_duplicate_removes = 0;
    log = started updates_to_log error_limit ∷ [];
  }

  unfoldable pub finish : Session → OrderBook → Session
  finish s b =
      write
        (finished s.messages s.update_messages s.ops_applied s.errors s.collapsed_complete_fills
          s.dropped_duplicate_removes (len b) (price_to_value scales (best_bid b))
          (price_to_value scales (best_ask b)))
        s

  unfoldable pub log_feed : List (Option Message) → Run Turn
  unfolding read_loop finish
  log_feed reads =
      and_then (read_loop reads first_session new_book)
        λ turn b. elim turn [ breaks s ↦ ok (breaks (finish s b)) b | goes_on s ↦ ok (goes_on s) b ]
