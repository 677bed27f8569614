-- ===== src/Examples/Live/Steps.antt =====
-- What one message does, with the counters of the operations.
use l4_book.Prelude.{
  ℕ, suc, ◌+◌, ◌≤◌, ◌≡◌, refl, ◌∙◌, subst, List, [], ◌∷◌, arith, length, leb, Bool-cases,
  Option-cases, inl, inr,
}
use l4_book.Types.{Order, BookOp}
use l4_book.Book.{OrderBook, Run, ok, max_slots}
use l4_book.Book.Growth.{Within, apply_op-Within}
use l4_book.Book.Growth.Snapshot.{apply_snapshot-Within}
use l4_book.Book.Invariant.{IsWellFormed, Queues}
use l4_book.Book.Ops.{apply_op-Sound}
use l4_book.Book.Settled.{FitQty, Settled-cases, Sound-Settled, apply_snapshot-Settled}
use l4_book.Dwellir.Capture.Loaded.{AllInRange, AreSized-AllInRange}
use l4_book.Dwellir.Lines.{strip_decoded, strip_update_batch}
use l4_book.Dwellir.Lines.Ranges.{FitsBook}
use l4_book.Dwellir.Types
use l4_book.Dwellir.Types.{Scales, Result, AdapterError, Decoded, DecodedWithMeta, map_ok}
use l4_book.Examples.Live.Due.{report_due-counts}
use l4_book.Examples.Live.{
  Feed, Flow, goes_on, breaks, fails, apply_each, load_snapshot, apply_decoded, look_at_clock,
  after_message, schedule,
}
use l4_book.Examples.Running.{Ends, then-Ends, ok-Ends, AreInRange-FitQty}

abbrev pub handled : Feed → ℕ
handled s = s.ops_applied + s.op_errors

-- The operations in a message, and the slots that it may take.
abbrev pub ops_in : Result Decoded → ℕ
ops_in (Types.err e) = 0
ops_in (Types.ok Decoded.skip) = 0
ops_in (Types.ok (Decoded.snapshot orders)) = 0
ops_in (Types.ok (Decoded.updates batch)) = length batch.ops

abbrev pub slots_in : Result Decoded → ℕ
slots_in (Types.err e) = 0
slots_in (Types.ok Decoded.skip) = 0
slots_in (Types.ok (Decoded.snapshot orders)) = length orders
slots_in (Types.ok (Decoded.updates batch)) = length batch.ops

-- Of `n` operations all are counted, if the loop goes on; the slab has at most `k` slots.
abbrev pub FlowIsFair : ℕ → ℕ → Flow → OrderBook → Type 0
FlowIsFair k n (goes_on s) b = (length b.slab ≤ k) × (handled s ≡ n)
FlowIsFair k n (breaks s) b = (length b.slab ≤ k) × (handled s ≤ n)
FlowIsFair k n (fails s) b = (length b.slab ≤ k) × (handled s ≤ n)

-- The same where the loop may be left for the last message only.
abbrev Counts : ℕ → ℕ → Feed → OrderBook → Type 0
Counts k n s b = (length b.slab ≤ k) × (handled s ≡ n)

apply_each-Ends :
    (k : ℕ) (ops : List BookOp) (s : Feed) (b : OrderBook) (q : Queues)
    → k ≤ max_slots
    → IsWellFormed b q
    → AllInRange ops
    → length b.slab + length ops ≤ k
    → Ends (Counts k (handled s + length ops)) (apply_each ops s b)
unfolding apply_each
apply_each-Ends k [] s b q fits wf ranges room =
    ok-Ends (Counts k (handled s + 0)) s b q wf (omega arith, omega arith)
apply_each-Ends k (op ∷ ops) s b q fits wf ranges room =
    elim (Settled-cases
      (Sound-Settled b q wf (apply_op-Sound b q op wf (inr (omega arith)) ranges.0))) [
        | inl (_, b', q', e, wf') ↦
            let small = subst (Within (suc (length b.slab))) e (apply_op-Within op b) in
            rw (apply_each, e)
              (more
                (apply_each-Ends k ops (record s { ops_applied = s.ops_applied + 1 }) b' q' fits wf'
                  ranges.1 (omega (arith, small)))
                (omega arith))
        | inr (x, b', q', e, wf') ↦
            let small = subst (Within (suc (length b.slab))) e (apply_op-Within op b) in
            rw (apply_each, e)
              (more
                (apply_each-Ends k ops (record s { op_errors = s.op_errors + 1 }) b' q' fits wf'
                  ranges.1 (omega (arith, small)))
                (omega arith))
      ]
  where
    more :
        {r : Run Feed} {m : ℕ}
        → Ends (Counts k m) r
        → m ≡ handled s + suc (length ops)
        → Ends (Counts k (handled s + suc (length ops))) r
    more {r} {m} h e = subst (λ m. Ends (Counts k m) r) e h

look_at_clock-Ends :
    (scales : Scales) (now k n : ℕ) (s : Feed) (b : OrderBook) (q : Queues)
    → IsWellFormed b q
    → Counts k n s b
    → Ends (FlowIsFair k n) (look_at_clock scales now s b)
unfolding look_at_clock
look_at_clock-Ends scales now k n s b q wf (small, total) = elim (Option-cases s.deadline) [
  | inl e ↦ rw (look_at_clock, e) (ok-Ends (FlowIsFair k n) (goes_on s) b q wf (small, total))
  | inr (end_at, e) ↦
      let (s', run, same) = report_due-counts b q wf scales now s in
      rw (look_at_clock, e, run)
        (elim (Bool-cases (leb end_at now)) [
          | inl late ↦
              rw late
                (ok-Ends (FlowIsFair k n) (breaks s') b q wf (small, omega (arith, total, same)))
          | inr early ↦
              rw early (ok-Ends (FlowIsFair k n) (goes_on s') b q wf (small, same ∙ total))
        ])
]

pub after_message-Ends :
    (scales : Scales) (now k n : ℕ) (flow : Flow) (b : OrderBook) (q : Queues)
    → IsWellFormed b q
    → FlowIsFair k n flow b
    → Ends (FlowIsFair k n) (after_message scales now flow b)
after_message-Ends scales now k n (goes_on s) b q wf fair =
    look_at_clock-Ends scales now k n s b q wf fair
after_message-Ends scales now k n (breaks s) b q wf fair =
    ok-Ends (FlowIsFair k n) (breaks s) b q wf fair
after_message-Ends scales now k n (fails s) b q wf fair =
    ok-Ends (FlowIsFair k n) (fails s) b q wf fair

load_snapshot-Ends :
    (now k : ℕ) (orders : List Order) (s : Feed) (b : OrderBook)
    → k ≤ max_slots
    → FitQty orders
    → length orders ≤ k
    → Ends (FlowIsFair k (handled s)) (load_snapshot now orders s b)
unfolding load_snapshot
load_snapshot-Ends now k orders s b fits sizes room =
    elim (Settled-cases (apply_snapshot-Settled orders b sizes (omega arith))) [
      | inl (_, b', q', e, wf') ↦
          let small = subst (Within (length orders)) e (apply_snapshot-Within orders b) in
          rw (load_snapshot, e)
            (ok-Ends (FlowIsFair k (handled s)) (goes_on (schedule now s)) b' q' wf'
              (omega (arith, small), refl))
      | inr (x, b', q', e, wf') ↦
          let small = subst (Within (length orders)) e (apply_snapshot-Within orders b) in
          rw (load_snapshot, e)
            (ok-Ends (FlowIsFair k (handled s)) (fails s) b' q' wf'
              (omega (arith, small), omega arith))
    ]

pub apply_decoded-Ends :
    (now k : ℕ) (d : DecodedWithMeta) (s : Feed) (b : OrderBook) (q : Queues)
    → k ≤ max_slots
    → IsWellFormed b q
    → FitsBook d
    → length b.slab + slots_in (Types.ok (strip_decoded d)) ≤ k
    → Ends
        (FlowIsFair k (handled s + ops_in (Types.ok (strip_decoded d))))
        (apply_decoded now (strip_decoded d) s b)
unfolding apply_decoded strip_decoded strip_update_batch
apply_decoded-Ends now k DecodedWithMeta.skip s b q fits wf f room =
    ok-Ends (FlowIsFair k (handled s + 0)) (goes_on s) b q wf (omega arith, omega arith)
apply_decoded-Ends now k (DecodedWithMeta.snapshot orders cause) s b q fits wf f room =
    subst (λ n. Ends (FlowIsFair k n) (load_snapshot now orders s b)) (omega arith)
      (load_snapshot-Ends now k orders s b fits (AreInRange-FitQty orders f) (omega arith))
apply_decoded-Ends now k (DecodedWithMeta.updates batch) s b q fits wf f room =
    then-Ends _
      (apply_each-Ends k _ (record s { updates = s.updates + 1 }) b q fits wf
        (AreSized-AllInRange batch.ops f.1) room)
      (λ s' b' q' wf' counts. ok-Ends (FlowIsFair k _) (goes_on s') b' q' wf' counts)

-- What follows a message.
pub flow-Ends :
    (k m n n' : ℕ) (rest : Feed → OrderBook → Run Flow)
    → m ≤ k
    → n ≤ n'
    → ((s : Feed) (b : OrderBook) (q : Queues)
        → IsWellFormed b q
        → length b.slab ≤ m
        → handled s ≡ n
        → Ends (FlowIsFair k n') (rest s b))
    → (flow : Flow) (b : OrderBook) (q : Queues) → IsWellFormed b q
    → FlowIsFair m n flow b
    → Ends
        (FlowIsFair k n')
        (elim flow [ goes_on s ↦ rest s b | breaks s ↦ ok (breaks s) b | fails s ↦ ok (fails s) b ])
flow-Ends k m n n' rest le le' next (goes_on s) b q wf (small, total) = next s b q wf small total
flow-Ends k m n n' rest le le' next (breaks s) b q wf (small, total) =
    ok-Ends (FlowIsFair k n') (breaks s) b q wf (omega arith, omega arith)
flow-Ends k m n n' rest le le' next (fails s) b q wf (small, total) =
    ok-Ends (FlowIsFair k n') (fails s) b q wf (omega arith, omega arith)
