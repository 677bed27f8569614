-- ===== src/Examples/Debug/Safe.antt =====
-- The program does not panic, and its book, its counters and its log stay right.
use l4_book.Prelude.{
  ℕ, suc, ◌+◌, ◌≤◌, ◌<◌, ◌≡◌, refl, subst, List, [], ◌∷◌, arith, length, false, leb, Bool-cases,
  inl, inr,
}
use l4_book.Types.{Order, ReasonedBookOp, OperationCause}
use l4_book.Book.{OrderBook, max_slots}
use l4_book.Book.Invariant.{IsWellFormed, Queues}
use l4_book.Book.Growth.{Within, apply_op-Within}
use l4_book.Book.Growth.Snapshot.{apply_snapshot-Within}
use l4_book.Book.Ops.{apply_op-Sound}
use l4_book.Book.Settled.{Settled-cases, Sound-Settled, FitQty, apply_snapshot-Settled}
use l4_book.Dwellir.Capture.Loaded.{IsSized-IsInRange}
use l4_book.Dwellir.Diffs.Removes.{AreSized}
use l4_book.Dwellir.Types.{Scales, ReasonedUpdateBatch}
use l4_book.Examples.Running.{Ends, then-Ends, ok-Ends}
use l4_book.Examples.Debug.Full.{book_snapshot-queues}
use l4_book.Examples.Debug.Log.{
  OpResult, Session, error_limit, grep_marker, snapshot_apply_error, write,
}
use l4_book.Examples.Debug.Tallies.{
  IsTallied, write-IsTallied, error-IsTallied, op_applied-IsTallied, op_failed-IsTallied,
}
use l4_book.Examples.Debug.Updates.{
  Update, apply_ops, op_applied, op_failed, log_raw_update, log_summary, count_batch, apply_batch,
  load_orders,
}

-- The log and the counters agree, the errors are within their limit, and the slab has at most `k`
-- slots.
pub record IsFair (k : ℕ) (s : Session) (b : OrderBook) : Type 0 where
  pub tallied : IsTallied s
  pub limited : s.errors ≤ error_limit
  pub small : length b.slab ≤ k

pub at_most : (n : ℕ) → n < error_limit → n + 1 ≤ error_limit
at_most n h = omega arith

below_limit : (n : ℕ) → leb error_limit (n + 1) ≡ false → n + 1 < error_limit
below_limit n h = ground arith

module _ (scales : Scales) where
  apply_ops-Ends :
      (u : Update) (k i : ℕ) (ops : List ReasonedBookOp) (results : List OpResult) (s : Session)
      (b : OrderBook) (q : Queues)
      → k ≤ max_slots
      → IsWellFormed b q
      → AreSized ops
      → length b.slab + length ops ≤ k
      → IsTallied s
      → s.errors < error_limit
      → Ends (λ r. IsFair k r.1) (apply_ops scales u i ops results s b)
  unfolding apply_ops op_applied op_failed
  apply_ops-Ends u k i [] results s b q fits wf sized room t few =
      ok-Ends (λ r. IsFair k r.1) (results, s) b q wf
        (record { tallied = t; limited = omega arith; small = omega arith })
  apply_ops-Ends u k i (op ∷ ops) results s b q fits wf sized room t few =
      elim (Settled-cases (
        Sound-Settled b q wf
          (apply_op-Sound b q op.op wf (inr (omega arith)) (IsSized-IsInRange op.op sized.0)))) [
            | inl (_, b', q', e, wf') ↦
                let small = subst (Within (suc (length b.slab))) e (apply_op-Within op.op b) in
                rw (apply_ops, e)
                  (apply_ops-Ends u k (i + 1) ops _ (op_applied i op s) b' q' fits wf' sized.1
                    (omega (arith, small)) (op_applied-IsTallied i op s t) few)
            | inr (x, b', q', e, wf') ↦
                let small = subst (Within (suc (length b.slab))) e (apply_op-Within op.op b) in
                rw (apply_ops, e, book_snapshot-queues scales b' q' wf')
                  (elim (Bool-cases (leb error_limit (s.errors + 1))) [
                    | inl full ↦ rw full (
                        ok-Ends (λ r. IsFair k r.1) (_, op_failed u i op x _ s) b' q' wf'
                          (record {
                            tallied = op_failed-IsTallied u i op x _ s t;
                            limited = at_most s.errors few;
                            small = omega (arith, small);
                          }))
                    | inr more ↦ rw more (
                        apply_ops-Ends u k (i + 1) ops _ (op_failed u i op x _ s) b' q' fits wf'
                          sized.1 (omega (arith, small)) (op_failed-IsTallied u i op x _ s t)
                          (below_limit s.errors more))
                  ])
          ]

  log_raw_update-IsTallied :
      (u : Update) (batch : ReasonedUpdateBatch) (s : Session)
      → IsTallied s
      → IsTallied (log_raw_update scales u batch s)
        × ((log_raw_update scales u batch s).errors ≡ s.errors)
  unfolding log_raw_update
  log_raw_update-IsTallied u batch s t = elim (Bool-cases u.should_log_update) [
    | inl on ↦
        rw on (write-IsTallied _ _ refl refl (write-IsTallied grep_marker s refl refl t), refl)
    | inr off ↦ rw off (t, refl)
  ]

  log_summary-Ends :
      (u : Update) (results : List OpResult) (k : ℕ) (s : Session) (b : OrderBook) (q : Queues)
      → IsWellFormed b q
      → IsFair k s b
      → Ends (IsFair k) (log_summary scales u results s b)
  unfolding log_summary
  log_summary-Ends u results k s b q wf fair = elim (Bool-cases u.should_log_update) [
    | inr off ↦ rw off (ok-Ends (IsFair k) s b q wf fair)
    | inl on ↦
        rw (on, book_snapshot-queues scales b q wf)
          (ok-Ends (IsFair k) _ b q wf (record {
            tallied = write-IsTallied _ _ refl refl (
                write-IsTallied grep_marker _ refl refl
                  (write-IsTallied _ s refl refl fair.tallied));
            limited = fair.limited;
            small = fair.small;
          }))
  ]

  pub apply_batch-Ends :
      (n k : ℕ) (raw : List ℕ) (batch : ReasonedUpdateBatch) (s : Session) (b : OrderBook)
      (q : Queues)
      → k ≤ max_slots
      → IsWellFormed b q
      → AreSized batch.ops
      → length b.slab + length batch.ops ≤ k
      → IsTallied s
      → s.errors < error_limit
      → Ends (IsFair k) (apply_batch scales n raw batch s b)
  unfolding apply_batch count_batch
  apply_batch-Ends n k raw batch s b q fits wf sized room t few =
      let counted = count_batch scales batch s in
      let u : Update = record {
        raw = raw;
        ops = batch.ops;
        should_log_update = leb counted.update_messages n;
      } in
      let (t', same) =
        log_raw_update-IsTallied u batch counted
          (record { numbered = t.numbered; reported = t.reported }) in
      then-Ends _
        (apply_ops-Ends u k 0 batch.ops [] (log_raw_update scales u batch counted) b q fits wf sized
          room t' (omega (arith, same)))
        (λ r b' q' wf' fair. log_summary-Ends u r.0 k r.1 b' q' wf' fair)

  pub load_orders-Ends :
      (k : ℕ) (raw : List ℕ) (orders : List Order) (cause : OperationCause) (s : Session)
      (b : OrderBook)
      → k ≤ max_slots
      → FitQty orders
      → length orders ≤ k
      → IsTallied s
      → s.errors < error_limit
      → Ends (IsFair k) (load_orders scales raw orders cause s b)
  unfolding load_orders
  load_orders-Ends k raw orders cause s b fits sizes room t few =
      elim (Settled-cases (apply_snapshot-Settled orders b sizes (omega arith))) [
        | inl (_, b', q', e, wf') ↦
            let small = subst (Within (length orders)) e (apply_snapshot-Within orders b) in
            rw (load_orders, e, book_snapshot-queues scales b' q' wf')
              (ok-Ends (IsFair k) _ b' q' wf' (record {
                tallied = write-IsTallied _ _ refl refl (write-IsTallied grep_marker s refl refl t);
                limited = omega arith;
                small = omega (arith, small);
              }))
        | inr (x, b', q', e, wf') ↦
            let small = subst (Within (length orders)) e (apply_snapshot-Within orders b) in
            rw (load_orders, e)
              (ok-Ends (IsFair k) _ b' q' wf' (record {
                tallied =
                    error-IsTallied (snapshot_apply_error (s.errors + 1) x raw)
                      (write grep_marker s) refl refl (write-IsTallied grep_marker s refl refl t);
                limited = at_most s.errors few;
                small = omega (arith, small);
              }))
      ]
