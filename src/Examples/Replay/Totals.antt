-- ===== src/Examples/Replay/Totals.antt =====
-- Replay of a list of operations: it ends, and every operation is counted.
use l4_book.Prelude.{
  ℕ, suc, ◌+◌, ◌≤◌, ◌≡◌, refl, ap, ◌∙◌, sym, subst, List, [], ◌∷◌, arith, length, length-append,
  ltb, not, ◌&&◌, Bool-cases, inl, inr,
}
use l4_book.Types.{BookOp, ReplayPolicy, ReplayApplyOutcome, applied, skipped, coerced}
use l4_book.Book.{OrderBook, Run, ok, and_then, max_slots}
use l4_book.Book.Invariant.{IsWellFormed, Queues}
use l4_book.Book.Growth.{Within}
use l4_book.Book.Growth.Policy.{apply_op_with_policy-Within}
use l4_book.Book.Reported.{Reported, done, amended, passed, failed, apply_op_with_policy-Reported}
use l4_book.Dwellir.Capture.Stats.{count_all}
use l4_book.Dwellir.Capture.Loaded.{AllInRange, UpdatesInRange}
use l4_book.Examples.Replay.{
  Replayed, count_outcome, is_applied, keep_sample, replay_ops, replay_updates,
}

abbrev pub counted : Replayed → ℕ
counted s = s.applied_ops + s.skipped_ops + s.coerced_ops + s.errors

abbrev observe : ReplayApplyOutcome → Replayed → Replayed
observe outcome s = keep_sample outcome (count_outcome outcome s)

counted-keep_sample :
    (outcome : ReplayApplyOutcome) (s : Replayed) → counted (keep_sample outcome s) ≡ counted s
unfolding keep_sample
counted-keep_sample outcome s =
    elim (Bool-cases (ltb (length s.anomaly_samples) 5 && not (is_applied outcome))) [
      | inl e ↦ rw e refl
      | inr e ↦ rw e refl
    ]

counted-count_outcome :
    (outcome : ReplayApplyOutcome) (s : Replayed)
    → counted (count_outcome outcome s) ≡ counted s + 1
unfolding count_outcome
counted-count_outcome (applied op) s = omega arith
counted-count_outcome (skipped op reason) s = omega arith
counted-count_outcome (coerced original op reason) s = omega arith
counted-count_outcome (ReplayApplyOutcome.error op e) s = omega arith

same_samples :
    (outcome : ReplayApplyOutcome) (s : Replayed)
    → (count_outcome outcome s).anomaly_samples ≡ s.anomaly_samples
unfolding count_outcome
same_samples (applied op) s = refl
same_samples (skipped op reason) s = refl
same_samples (coerced original op reason) s = refl
same_samples (ReplayApplyOutcome.error op e) s = refl

keep_sample-few :
    (outcome : ReplayApplyOutcome) (s : Replayed)
    → length s.anomaly_samples ≤ 5
    → length (keep_sample outcome s).anomaly_samples ≤ 5
unfolding keep_sample
keep_sample-few outcome s few = elim (Bool-cases (ltb (length s.anomaly_samples) 5)) [
  | inl less ↦ elim (Bool-cases (is_applied outcome)) [
    | inl e ↦ rw (less, e) few
    | inr e ↦ rw (less, e) (grind (arith, less, length-append s.anomaly_samples (outcome ∷ [])))
  ]
  | inr full ↦ rw full few
]

-- What replay of `n` operations on a book of at most `k` slots gives.
pub record Replays (n k : ℕ) (s : Replayed) (r : Run Replayed) : Type 0 where
  pub result : Replayed
  pub book : OrderBook
  pub queues : Queues
  pub ends : r ≡ ok result book
  pub well_formed : IsWellFormed book queues
  pub slots : length book.slab ≤ k + n
  pub all_counted : counted result ≡ counted s + n
  pub few : length result.anomaly_samples ≤ 5

-- The same for one operation.
record Stepped (k : ℕ) (r : Run ReplayApplyOutcome) : Type 0 where
  outcome : ReplayApplyOutcome
  book : OrderBook
  queues : Queues
  ends : r ≡ ok outcome book
  well_formed : IsWellFormed book queues
  slots : length book.slab ≤ k

Reported-Stepped :
    (b : OrderBook) (op : BookOp) (q : Queues) (k : ℕ) {r : Run ReplayApplyOutcome}
    → IsWellFormed b q
    → Reported b op r
    → Within k r
    → Stepped k r
Reported-Stepped b op q k wf (done q' wf') w = record {
  outcome = _;
  book = _;
  queues = q';
  ends = refl;
  well_formed = wf';
  slots = w;
}
Reported-Stepped b op q k wf (amended q' wf') w = record {
  outcome = _;
  book = _;
  queues = q';
  ends = refl;
  well_formed = wf';
  slots = w;
}
Reported-Stepped b op q k wf passed w = record {
  outcome = _;
  book = b;
  queues = q;
  ends = refl;
  well_formed = wf;
  slots = w;
}
Reported-Stepped b op q k wf failed w = record {
  outcome = _;
  book = b;
  queues = q;
  ends = refl;
  well_formed = wf;
  slots = w;
}

module _ (policy : ReplayPolicy) where
  replay_ops-Replays :
      (ops : List BookOp) (s : Replayed) (b : OrderBook) (q : Queues)
      → IsWellFormed b q
      → AllInRange ops
      → length b.slab + length ops ≤ max_slots
      → length s.anomaly_samples ≤ 5
      → Replays (length ops) (length b.slab) s (replay_ops policy ops s b)
  unfolding replay_ops
  replay_ops-Replays [] s b q wf ranges room few = record {
    result = s;
    book = b;
    queues = q;
    ends = refl;
    well_formed = wf;
    slots = omega arith;
    all_counted = omega arith;
    few = few;
  }
  replay_ops-Replays (op ∷ ops) s b q wf ranges room few =
      let step =
        Reported-Stepped b op q (suc (length b.slab)) wf
          (apply_op_with_policy-Reported b q wf (inr (omega arith)) op policy ranges.0)
          (apply_op_with_policy-Within op policy b) in
      let rest =
        replay_ops-Replays ops (observe step.outcome s) step.book step.queues step.well_formed
          ranges.1 (omega (arith, step.slots))
          (keep_sample-few step.outcome (count_outcome step.outcome s)
            (subst (λ l. length l ≤ 5) (sym (same_samples step.outcome s)) few)) in
      record {
        result = rest.result;
        book = rest.book;
        queues = rest.queues;
        ends =
            ap (λ r. and_then r λ outcome b'. replay_ops policy ops (observe outcome s) b')
              step.ends
            ∙ rest.ends;
        well_formed = rest.well_formed;
        slots = omega (arith, step.slots, rest.slots);
        all_counted = omega (
          arith,
          rest.all_counted,
          counted-keep_sample step.outcome (count_outcome step.outcome s),
          counted-count_outcome step.outcome s,
        );
        few = rest.few;
      }

  -- On a well-formed book whose slab has room for all of them, messages whose sizes are `u64` values
  -- are replayed without a panic: the book stays well formed and takes one slot at most for each
  -- operation, every operation adds one to one of the four counters, and no more than five outcomes
  -- are kept.
  pub replay_updates-Replays :
      (updates : List (List BookOp)) (s : Replayed) (b : OrderBook) (q : Queues)
      → IsWellFormed b q
      → UpdatesInRange updates
      → length b.slab + count_all updates ≤ max_slots
      → length s.anomaly_samples ≤ 5
      → Replays (count_all updates) (length b.slab) s (replay_updates policy updates s b)
  unfolding replay_updates
  replay_updates-Replays [] s b q wf ranges room few = record {
    result = s;
    book = b;
    queues = q;
    ends = refl;
    well_formed = wf;
    slots = omega arith;
    all_counted = omega arith;
    few = few;
  }
  replay_updates-Replays (ops ∷ updates) s b q wf ranges room few =
      let first = replay_ops-Replays ops s b q wf ranges.0 (omega arith) few in
      let rest =
        replay_updates-Replays updates first.result first.book first.queues first.well_formed
          ranges.1 (omega (arith, first.slots)) first.few in
      record {
        result = rest.result;
        book = rest.book;
        queues = rest.queues;
        ends =
            ap (λ r. and_then r λ s' b'. replay_updates policy updates s' b') first.ends
            ∙ rest.ends;
        well_formed = rest.well_formed;
        slots = omega (arith, first.slots, rest.slots);
        all_counted = omega (arith, first.all_counted, rest.all_counted);
        few = rest.few;
      }
