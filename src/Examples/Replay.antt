-- ===== src/Examples/Replay.antt =====
-- examples/replay_capture.rs: a capture is loaded, its snapshot applied and its operations replayed.
pub mod Totals
pub mod Whole
mod Tests
use l4_book.Prelude.{
  ℕ, ◌+◌, List, [], ◌∷◌, ◌++◌, Bool, true, false, ◌&&◌, not, ltb, if◌then◌else◌, length,
}
use l4_book.Types.{
  Order, BookOp, ReplayPolicy, ReplayApplyOutcome, applied, skipped, coerced, strict,
  dwellir_tolerant,
}
use l4_book.Book.{OrderBook, new_book, Run, ok, err, panic, and_then}
use l4_book.Book.Replay.{apply_op_with_policy, apply_snapshot}
use l4_book.Dwellir.Types
use l4_book.Dwellir.Types.{Capture, btc_default}
use l4_book.Dwellir.Json.{Json}
use l4_book.Dwellir.Capture.{Lines, load_capture}

-- The counters of the loop, and the outcomes that are kept to be printed.
pub record Replayed : Type 0 where
  pub applied_ops : ℕ
  pub skipped_ops : ℕ
  pub coerced_ops : ℕ
  pub errors : ℕ
  pub anomaly_samples : List ReplayApplyOutcome

abbrev pub nothing_replayed : Replayed
nothing_replayed = record {
  applied_ops = 0;
  skipped_ops = 0;
  coerced_ops = 0;
  errors = 0;
  anomaly_samples = [];
}

unfoldable pub count_outcome : ReplayApplyOutcome → Replayed → Replayed
count_outcome (applied op) s = record s { applied_ops = s.applied_ops + 1 }
count_outcome (skipped op reason) s = record s { skipped_ops = s.skipped_ops + 1 }
count_outcome (coerced original op reason) s = record s { coerced_ops = s.coerced_ops + 1 }
count_outcome (ReplayApplyOutcome.error op e) s = record s { errors = s.errors + 1 }

abbrev pub is_applied : ReplayApplyOutcome → Bool
is_applied (applied op) = true
is_applied (skipped op reason) = false
is_applied (coerced original op reason) = false
is_applied (ReplayApplyOutcome.error op e) = false

unfoldable pub keep_sample : ReplayApplyOutcome → Replayed → Replayed
keep_sample outcome s =
    if ltb (length s.anomaly_samples) 5 && not (is_applied outcome)
    then record s { anomaly_samples = s.anomaly_samples ++ outcome ∷ [] }
    else s

-- The loop over the operations of a message, and the one over the messages.
unfoldable pub replay_ops : ReplayPolicy → List BookOp → Replayed → OrderBook → Run Replayed
unfolding count_outcome keep_sample
replay_ops policy [] s b = ok s b
replay_ops policy (op ∷ ops) s b =
    and_then (apply_op_with_policy op policy b)
      λ outcome b'. replay_ops policy ops (keep_sample outcome (count_outcome outcome s)) b'

unfoldable pub replay_updates :
    ReplayPolicy → List (List BookOp) → Replayed → OrderBook → Run Replayed
unfolding replay_ops
replay_updates policy [] s b = ok s b
replay_updates policy (ops ∷ updates) s b =
    and_then (replay_ops policy ops s b) λ s' b'. replay_updates policy updates s' b'

-- `expect` on a result of the book.
abbrev pub expect : {A : Type 0} → Run A → Run A
expect (ok a b) = ok a b
expect (err e b) = panic
expect panic = panic

abbrev pub policy_of : Bool → ReplayPolicy
policy_of is_strict = if is_strict then strict else dwellir_tolerant

unfoldable pub replay_capture : Bool → Capture → Run Replayed
unfolding replay_updates
replay_capture is_strict cap =
    and_then (expect (apply_snapshot cap.snapshot new_book))
      λ _ b. replay_updates (policy_of is_strict) cap.updates nothing_replayed b

-- `main`, with `expect` on the capture.
unfoldable pub main : Json → Lines → Bool → Run Replayed
unfolding replay_capture
main j reads is_strict = elim (load_capture j reads btc_default) [
  | Types.ok cap ↦ replay_capture is_strict cap
  | Types.err e ↦ panic
]
