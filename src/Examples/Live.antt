-- ===== src/Examples/Live.antt =====
-- examples/dwellir_live_sp500.rs: a program that keeps a book of a feed and reports it every 15 seconds
-- for two minutes. Times are nanoseconds, and the clock's range is not bounded.
pub mod Reports
pub mod Due
pub mod Steps
pub mod Fair
mod Tests
use l4_book.Prelude.{
  ℕ, zero, suc, ◌+◌, ◌-◌, ◌*◌, List, [], ◌∷◌, Option, none, some, ◌>>=◌, Bool, true, false, ltb,
  leb, if◌then◌else◌,
}
use l4_book.Types.{Order, BookOp}
use l4_book.Book.{OrderBook, new_book, Run, ok, err, panic, and_then}
use l4_book.Book.Replay.{apply_op, apply_snapshot}
use l4_book.Dwellir.Types
use l4_book.Dwellir.Types.{Decoded, Scales}
use l4_book.Dwellir.Json.{Json}
use l4_book.Dwellir.Lines.{decode_line}
use l4_book.Examples.Live.Reports.{Header, Report, log_report}
use l4_book.Examples.Socket.{Message, text, binary, ping, pong, frame, close}

abbrev pub report_every : ℕ
report_every = 15 * 1000000000

abbrev pub run_for : ℕ
run_for = 120 * 1000000000

-- The variables of `main` but the book, and the reports, the last one first.
pub record Feed : Type 0 where
  pub snapshot_at : Option ℕ
  pub next_report : Option ℕ
  pub deadline : Option ℕ
  pub messages : ℕ
  pub updates : ℕ
  pub ops_applied : ℕ
  pub op_errors : ℕ
  pub reports : List Report

abbrev pub first_feed : Feed
first_feed = record {
  snapshot_at = none;
  next_report = none;
  deadline = none;
  messages = 0;
  updates = 0;
  ops_applied = 0;
  op_errors = 0;
  reports = [];
}

-- Whether the loop goes on, is left, or `main` returns an error.
pub data Flow : Type 0 where
  goes_on breaks fails : Feed → Flow

-- A read of the web socket, which may fail, with the two times that the clock gives while the message
-- is handled.
pub record Read : Type 0 where
  pub message : Option Message
  pub snapshot_now : ℕ
  pub now : ℕ

unfoldable pub apply_each : List BookOp → Feed → OrderBook → Run Feed
apply_each [] s b = ok s b
apply_each (op ∷ ops) s b = elim (apply_op op b) [
  | panic ↦ panic
  | ok _ b' ↦ apply_each ops (record s { ops_applied = s.ops_applied + 1 }) b'
  | err e b' ↦ apply_each ops (record s { op_errors = s.op_errors + 1 }) b'
]

-- The times after a snapshot.
abbrev pub schedule : ℕ → Feed → Feed
schedule now s = record s {
  snapshot_at = some now;
  next_report = some (now + report_every);
  deadline = some (now + run_for);
}

unfoldable pub load_snapshot : ℕ → List Order → Feed → OrderBook → Run Flow
load_snapshot now orders s b = elim (apply_snapshot orders b) [
  | panic ↦ panic
  | ok _ b' ↦ ok (goes_on (schedule now s)) b'
  | err e b' ↦ ok (fails s) b'
]

unfoldable pub apply_decoded : ℕ → Decoded → Feed → OrderBook → Run Flow
unfolding apply_each load_snapshot
apply_decoded now Decoded.skip s b = ok (goes_on s) b
apply_decoded now (Decoded.snapshot orders) s b = load_snapshot now orders s b
apply_decoded now (Decoded.updates batch) s b =
    and_then (apply_each batch.ops (record s { updates = s.updates + 1 }) b)
      λ s' b'. ok (goes_on s') b'

-- `snapshot_at.map_or(0.0, …)`; `duration_since` stops at zero.
abbrev pub elapsed_of : ℕ → Option ℕ → ℕ
elapsed_of now none = 0
elapsed_of now (some t) = now - t

abbrev pub header_of : ℕ → Feed → Header
header_of now s = record {
  elapsed = elapsed_of now s.snapshot_at;
  messages = s.messages;
  updates = s.updates;
  ops_applied = s.ops_applied;
  op_errors = s.op_errors;
}

-- The loop over the reports that are due.
unfoldable pub report_due : ℕ → Scales → ℕ → Feed → OrderBook → Option Feed
report_due zero scales now s b = none
report_due (suc fuel) scales now s b = elim s.next_report [
  | none ↦ some s
  | some report_at ↦ elim (ltb now report_at) [
    | true ↦ some s
    | false ↦ do
      report ← log_report b scales (header_of now s)
      report_due fuel scales now
          (record s { next_report = some (report_at + report_every); reports = report ∷ s.reports })
          b
  ]
]

-- The end of the body of the loop. At most one report is due in each
-- nanosecond until now, and one more test ends the loop.
unfoldable pub look_at_clock : Scales → ℕ → Feed → OrderBook → Run Flow
unfolding report_due
look_at_clock scales now s b = elim s.deadline [
  | none ↦ ok (goes_on s) b
  | some end_at ↦ elim (report_due (now + 2) scales now s b) [
    | none ↦ panic
    | some s' ↦ ok (if leb end_at now then breaks s' else goes_on s') b
  ]
]

-- The end of the body, where it is reached.
abbrev pub after_message : Scales → ℕ → Flow → OrderBook → Run Flow
after_message scales now (goes_on s) b = look_at_clock scales now s b
after_message scales now (breaks s) b = ok (breaks s) b
after_message scales now (fails s) b = ok (fails s) b

-- `from_utf8` is `String::from_utf8`.
module _ (j : Json) (from_utf8 : List ℕ → Option (List ℕ)) (scales : Scales) where
  unfoldable pub receive_text : ℕ → ℕ → List ℕ → Feed → OrderBook → Run Flow
  unfolding apply_decoded look_at_clock
  receive_text snapshot_now now raw s b = elim (decode_line j raw scales) [
    | Types.err e ↦ ok (fails s) b
    | Types.ok decoded ↦
        and_then (apply_decoded snapshot_now decoded s b) (after_message scales now)
  ]

  unfoldable pub receive : ℕ → ℕ → Message → Feed → OrderBook → Run Flow
  unfolding receive_text
  receive snapshot_now now (text raw) s b = receive_text snapshot_now now raw s b
  receive snapshot_now now (binary bytes) s b = elim (from_utf8 bytes) [
    | none ↦ ok (fails s) b
    | some raw ↦ receive_text snapshot_now now raw s b
  ]
  receive snapshot_now now ping s b = ok (goes_on s) b
  receive snapshot_now now pong s b = ok (goes_on s) b
  receive snapshot_now now frame s b = ok (goes_on s) b
  receive snapshot_now now close s b = ok (breaks s) b

  unfoldable pub read_once : Read → Feed → OrderBook → Run Flow
  unfolding receive
  read_once read s b = elim read.message [
    | none ↦ ok (fails s) b
    | some message ↦
        receive read.snapshot_now read.now message (record s { messages = s.messages + 1 }) b
  ]

  -- The loop on the reads so far. It goes on where they end.
  unfoldable pub live_loop : List Read → Feed → OrderBook → Run Flow
  unfolding read_once
  live_loop [] s b = ok (goes_on s) b
  live_loop (read ∷ reads) s b = and_then (read_once read s b) λ flow b'. elim flow [
    | goes_on s' ↦ live_loop reads s' b'
    | breaks s' ↦ ok (breaks s') b'
    | fails s' ↦ ok (fails s') b'
  ]

  unfoldable pub live_feed : List Read → Run Flow
  unfolding live_loop
  live_feed reads = live_loop reads first_feed new_book
