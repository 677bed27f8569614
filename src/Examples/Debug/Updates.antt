-- ===== src/Examples/Debug/Updates.antt =====
-- examples/dwellir_debug_log_sp500.rs: what the program does with a decoded message.
use l4_book.Prelude.{
  ℕ, ◌+◌, List, [], ◌∷◌, ◌++◌, none, some, Bool, true, false, leb, if◌then◌else◌, length,
}
use l4_book.Types.{Order, BookError, OperationCause, ReasonedBookOp}
use l4_book.Book.{OrderBook, Run, ok, err, panic, and_then}
use l4_book.Book.Replay.{apply_op, apply_snapshot}
use l4_book.Dwellir.Types.{DecodedWithMeta, ReasonedUpdateBatch, Scales}
use l4_book.Examples.Debug.Values.{
  BookValue, op_order_id, op_kind, operation_cause_to_value, reasoned_book_op_to_value,
  ops_to_value, book_snapshot,
}
use l4_book.Examples.Debug.Log.{
  OpResult, failed, grep_marker, first_snapshot, snapshot_apply_error, raw_update,
  applied_book_diff, op_apply_error, parsed_update_summary, full_snapshot, Session, write,
  count_error, at_limit,
}

-- What stays the same in the loop over the operations of an update.
pub record Update : Type 0 where
  pub raw : List ℕ
  pub ops : List ReasonedBookOp
  pub should_log_update : Bool

abbrev pub keep_result : Bool → OpResult → List OpResult → List OpResult
keep_result should_log_update result results =
    if should_log_update then results ++ result ∷ [] else results

-- After an operation that is applied.
unfoldable pub op_applied : ℕ → ReasonedBookOp → Session → Session
op_applied op_index op s =
    write
      (applied_book_diff s.update_messages op_index (op_kind op.op) (op_order_id op.op)
        (reasoned_book_op_to_value op))
      (record s { ops_applied = s.ops_applied + 1 })

-- After one that is refused: the error is counted, and two markers and the error are written.
unfoldable pub op_failed : Update → ℕ → ReasonedBookOp → BookError → BookValue → Session → Session
op_failed u op_index op e view s =
    let s = write grep_marker (write grep_marker (count_error s)) in
    write
      (op_apply_error s.errors s.update_messages op_index (op_kind op.op) (op_order_id op.op) e
        u.raw (ops_to_value u.ops) (reasoned_book_op_to_value op) view)
      s

module _ (scales : Scales) where
  unfoldable pub apply_ops :
      Update
      → ℕ
      → List ReasonedBookOp
      → List OpResult
      → Session
      → OrderBook
      → Run (List OpResult × Session)
  unfolding op_applied op_failed
  apply_ops u op_index [] results s b = ok (results, s) b
  apply_ops u op_index (op ∷ ops) results s b =
      let kind = op_kind op.op in
      let order_id = op_order_id op.op in
      let parsed_op = reasoned_book_op_to_value op in
      elim (apply_op op.op b) [
        | panic ↦ panic
        | ok _ b' ↦
            let result = OpResult.applied op_index kind order_id parsed_op in
            apply_ops u (op_index + 1) ops (keep_result u.should_log_update result results)
              (op_applied op_index op s) b'
        | err e b' ↦ elim (book_snapshot scales b') [
          | none ↦ panic
          | some view ↦
              let result = failed op_index kind order_id e parsed_op in
              let results = keep_result u.should_log_update result results in
              let s = op_failed u op_index op e view s in
              elim (at_limit s) [
                | true ↦ ok (results, s) b'
                | false ↦ apply_ops u (op_index + 1) ops results s b'
              ]
        ]
      ]

  -- What is written before and after the loop over the operations.
  unfoldable pub log_raw_update : Update → ReasonedUpdateBatch → Session → Session
  log_raw_update u batch s =
      if u.should_log_update
      then write
          (raw_update s.update_messages s.messages u.raw (ops_to_value u.ops)
            batch.collapsed_complete_fills batch.dropped_duplicate_removes)
          (write grep_marker s)
      else s

  unfoldable pub log_summary : Update → List OpResult → Session → OrderBook → Run Session
  log_summary u results s b =
      if u.should_log_update
      then elim (book_snapshot scales b) [
        | none ↦ panic
        | some view ↦
            ok
              (write (full_snapshot s.update_messages s.messages view) (
                write grep_marker
                  (write (parsed_update_summary s.update_messages s.messages results) s)))
              b
      ]
      else ok s b

  unfoldable pub count_batch : ReasonedUpdateBatch → Session → Session
  count_batch batch s = record s {
    update_messages = s.update_messages + 1;
    collapsed_complete_fills = s.collapsed_complete_fills + batch.collapsed_complete_fills;
    dropped_duplicate_removes = s.dropped_duplicate_removes + batch.dropped_duplicate_removes;
  }

  unfoldable pub apply_batch : ℕ → List ℕ → ReasonedUpdateBatch → Session → OrderBook → Run Session
  unfolding apply_ops log_raw_update log_summary count_batch
  apply_batch updates_to_log raw batch s b =
      let s = count_batch batch s in
      let u : Update = record {
        raw = raw;
        ops = batch.ops;
        should_log_update = leb s.update_messages updates_to_log;
      } in
      and_then (apply_ops u 0 batch.ops [] (log_raw_update u batch s) b)
        λ (results, s') b'. log_summary u results s' b'

  unfoldable pub load_orders :
      List ℕ → List Order → OperationCause → Session → OrderBook → Run Session
  load_orders raw orders cause s b = elim (apply_snapshot orders b) [
    | panic ↦ panic
    | ok _ b' ↦ elim (book_snapshot scales b') [
      | none ↦ panic
      | some view ↦
          ok
            (write (first_snapshot s.messages (length orders) (operation_cause_to_value cause) view)
              (write grep_marker s))
            b'
    ]
    | err e b' ↦
        let s = write grep_marker (count_error s) in
        ok (write (snapshot_apply_error s.errors e raw) s) b'
  ]

  unfoldable pub handle : ℕ → List ℕ → DecodedWithMeta → Session → OrderBook → Run Session
  unfolding apply_batch load_orders
  handle updates_to_log raw DecodedWithMeta.skip s b = ok s b
  handle updates_to_log raw (DecodedWithMeta.snapshot orders cause) s b =
      load_orders raw orders cause s b
  handle updates_to_log raw (DecodedWithMeta.updates batch) s b =
      apply_batch updates_to_log raw batch s b
