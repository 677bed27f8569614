-- ===== src/Examples/Debug/Log.antt =====
-- examples/dwellir_debug_log_sp500.rs: the objects of the log and the counters. Texts of errors and
-- markers are left out. The writes to the log do not fail.
use l4_book.Prelude.{ℕ, ◌+◌, List, ◌∷◌, Option, Bool, leb}
use l4_book.Types.{OrderId, BookError}
use l4_book.Dwellir.Types.{AdapterError}
use l4_book.Examples.Debug.Values.{CauseValue, BookValue, ReasonedValue}

abbrev pub error_limit : ℕ
error_limit = 10

-- The elements of `op_results`.
pub data OpResult : Type 0 where
  applied : (op_index : ℕ) (kind : List ℕ) (order_id : OrderId) (op : ReasonedValue) → OpResult
  failed :
      (op_index : ℕ) (kind : List ℕ) (order_id : OrderId) (error : BookError) (op : ReasonedValue)
      → OpResult

-- The objects that are written to the log.
pub data Event : Type 0 where
  started : (updates_to_log limit : ℕ) → Event
  websocket_read_error : (error_index : ℕ) → Event
  binary_utf8_error : (error_index : ℕ) → Event
  websocket_closed : (messages update_messages ops_applied errors : ℕ) → Event
  decode_error : (error_index : ℕ) (error : AdapterError) (raw_message : List ℕ) → Event
  grep_marker : Event
  first_snapshot : (messages order_count : ℕ) (cause : CauseValue) (book : BookValue) → Event
  snapshot_apply_error : (error_index : ℕ) (error : BookError) (raw_message : List ℕ) → Event
  raw_update :
      (update_index messages : ℕ) (raw : List ℕ) (parsed_update : List ReasonedValue)
      (collapsed_complete_fills dropped_duplicate_removes : ℕ)
      → Event
  applied_book_diff :
      (update_index op_index : ℕ) (kind : List ℕ) (order_id : OrderId) (op : ReasonedValue) → Event
  op_apply_error :
      (error_index update_index op_index : ℕ) (kind : List ℕ) (order_id : OrderId)
      (error : BookError) (raw : List ℕ) (parsed_update : List ReasonedValue)
      (parsed_op : ReasonedValue) (book_after_failed_op : BookValue)
      → Event
  parsed_update_summary : (update_index messages : ℕ) (op_results : List OpResult) → Event
  full_snapshot : (update_index messages : ℕ) (book : BookValue) → Event
  finished :
      (messages update_messages ops_applied errors : ℕ)
      (collapsed_complete_fills dropped_duplicate_removes book_len : ℕ)
      (best_bid_value best_ask_value : Option (List ℕ))
      → Event

-- The counters of `main`, and the log with its last object first.
pub record Session : Type 0 where
  pub messages : ℕ
  pub update_messages : ℕ
  pub ops_applied : ℕ
  pub errors : ℕ
  pub collapsed_complete_fills : ℕ
  pub dropped_duplicate_removes : ℕ
  pub log : List Event

abbrev pub write : Event → Session → Session
write event s = record s { log = event ∷ s.log }

abbrev pub count_error : Session → Session
count_error s = record s { errors = s.errors + 1 }

-- `errors >= ERROR_LIMIT`
abbrev pub at_limit : Session → Bool
at_limit s = leb error_limit s.errors
