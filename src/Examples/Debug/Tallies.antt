-- ===== src/Examples/Debug/Tallies.antt =====
-- The log and the counters agree.
use l4_book.Prelude.{ℕ, zero, suc, ◌+◌, ◌≡◌, refl, ap, ◌∙◌, List, [], ◌∷◌, arith}
use l4_book.Types.{ReasonedBookOp, BookError}
use l4_book.Examples.Debug.Values.{BookValue}
use l4_book.Examples.Debug.Log.{
  Event, started, websocket_read_error, binary_utf8_error, websocket_closed, decode_error,
  grep_marker, first_snapshot, snapshot_apply_error, raw_update, applied_book_diff, op_apply_error,
  parsed_update_summary, full_snapshot, finished, Session, write, count_error,
}
use l4_book.Examples.Debug.Updates.{Update, op_applied, op_failed}

-- The numbers of the errors in a log, the last one first.
abbrev pub error_indices : List Event → List ℕ
error_indices [] = []
error_indices (websocket_read_error i ∷ log) = i ∷ error_indices log
error_indices (binary_utf8_error i ∷ log) = i ∷ error_indices log
error_indices (decode_error i _ _ ∷ log) = i ∷ error_indices log
error_indices (snapshot_apply_error i _ _ ∷ log) = i ∷ error_indices log
error_indices (op_apply_error i _ _ _ _ _ _ _ _ _ ∷ log) = i ∷ error_indices log
error_indices (started _ _ ∷ log) = error_indices log
error_indices (websocket_closed _ _ _ _ ∷ log) = error_indices log
error_indices (grep_marker ∷ log) = error_indices log
error_indices (first_snapshot _ _ _ _ ∷ log) = error_indices log
error_indices (raw_update _ _ _ _ _ _ ∷ log) = error_indices log
error_indices (applied_book_diff _ _ _ _ _ ∷ log) = error_indices log
error_indices (parsed_update_summary _ _ _ ∷ log) = error_indices log
error_indices (full_snapshot _ _ _ ∷ log) = error_indices log
error_indices (finished _ _ _ _ _ _ _ _ _ ∷ log) = error_indices log

-- The operations that a log reports as applied.
abbrev pub is_diff : Event → ℕ
is_diff (applied_book_diff _ _ _ _ _) = 1
is_diff (websocket_read_error _) = 0
is_diff (binary_utf8_error _) = 0
is_diff (decode_error _ _ _) = 0
is_diff (snapshot_apply_error _ _ _) = 0
is_diff (op_apply_error _ _ _ _ _ _ _ _ _ _) = 0
is_diff (started _ _) = 0
is_diff (websocket_closed _ _ _ _) = 0
is_diff grep_marker = 0
is_diff (first_snapshot _ _ _ _) = 0
is_diff (raw_update _ _ _ _ _ _) = 0
is_diff (parsed_update_summary _ _ _) = 0
is_diff (full_snapshot _ _ _) = 0
is_diff (finished _ _ _ _ _ _ _ _ _) = 0

abbrev pub count_diffs : List Event → ℕ
count_diffs [] = 0
count_diffs (event ∷ log) = is_diff event + count_diffs log

-- The numbers from `n` down to 1.
abbrev pub down_from : ℕ → List ℕ
down_from zero = []
down_from (suc n) = suc n ∷ down_from n

-- The errors of the log are numbered without a gap up to the counter, and the counter of applied
-- operations is the number of those that the log reports.
pub record IsTallied (s : Session) : Type 0 where
  pub numbered : error_indices s.log ≡ down_from s.errors
  pub reported : count_diffs s.log ≡ s.ops_applied

-- An object that is neither.
pub write-IsTallied :
    (event : Event) (s : Session)
    → error_indices (event ∷ s.log) ≡ error_indices s.log
    → is_diff event ≡ 0
    → IsTallied s
    → IsTallied (write event s)
write-IsTallied event s silent other t = record {
  numbered = silent ∙ t.numbered;
  reported = omega (arith, other, t.reported);
}

down_from_next : (n : ℕ) → (n + 1) ∷ down_from n ≡ down_from (n + 1)
down_from_next n = rw (the_next n) refl
  where
    the_next : (n : ℕ) → n + 1 ≡ suc n
    the_next n = omega arith

-- An error that is counted and written.
pub error-IsTallied :
    (event : Event) (s : Session)
    → error_indices (event ∷ s.log) ≡ (s.errors + 1) ∷ error_indices s.log
    → is_diff event ≡ 0
    → IsTallied s
    → IsTallied (write event (count_error s))
error-IsTallied event s loud other t = record {
  numbered = loud ∙ ap (λ l. (s.errors + 1) ∷ l) t.numbered ∙ down_from_next s.errors;
  reported = omega (arith, other, t.reported);
}

pub op_applied-IsTallied :
    (i : ℕ) (op : ReasonedBookOp) (s : Session) → IsTallied s → IsTallied (op_applied i op s)
unfolding op_applied
op_applied-IsTallied i op s t = record {
  numbered = t.numbered;
  reported = omega (arith, t.reported);
}

pub op_failed-IsTallied :
    (u : Update) (i : ℕ) (op : ReasonedBookOp) (e : BookError) (view : BookValue) (s : Session)
    → IsTallied s
    → IsTallied (op_failed u i op e view s)
unfolding op_failed
op_failed-IsTallied u i op e view s t = record {
  numbered = ap (λ l. (s.errors + 1) ∷ l) t.numbered ∙ down_from_next s.errors;
  reported = omega (arith, t.reported);
}
