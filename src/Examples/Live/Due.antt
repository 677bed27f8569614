-- ===== src/Examples/Live/Due.antt =====
-- The reports that are due at a time.
use l4_book.Prelude.{
  ℕ, zero, suc, ◌+◌, ◌*◌, ◌≤◌, ◌<◌, ◌≡◌, refl, ap, ◌∙◌, List, [], ◌∷◌, Option, none, some, ◌>>=◌,
  take, arith, length, false, ltb, Bool-cases, Option-cases, inl, inr, ◌⊎◌,
}
use l4_book.Types.{Side, bid, ask}
use l4_book.Book.{OrderBook}
use l4_book.Book.Invariant.{IsWellFormed, Queues}
use l4_book.Book.Queries.{
  DepthItem, unaggregated, depth, orders_at, top_n_levels_for_side, top_n_levels,
}
use l4_book.Book.Walks.{orders_at-queue}
use l4_book.Dwellir.Types.{Scales}
use l4_book.Examples.Live.Reports.{Header, Report, log_report}
use l4_book.Examples.Live.{Feed, report_every, report_due, header_of}

abbrev IsFound : {A : Type 0} → Option A → Type 0
IsFound {A} m = (a : A) × (m ≡ some a)

-- A chain of two steps that give something.
chain-IsFound :
    {A B : Type 0} (m : Option A) (f : A → Option B)
    → IsFound m
    → ((a : A) → IsFound (f a))
    → IsFound (m >>= f)
chain-IsFound none f (a, e) next = cc e
chain-IsFound (some v) f found next = next v

on_time_next :
    (n t now : ℕ)
    → t ≤ now
    → (n ≡ 0) ⊎ (t + report_every + n * report_every ≤ now + report_every)
    → t + (n + 1) * report_every ≤ now + report_every
on_time_next n t now due (inl z) = omega arith
on_time_next n t now due (inr h) = omega arith

not_early : (t now : ℕ) → ltb now t ≡ false → t ≤ now
not_early t now late = ground arith

-- The session after `n` reports, the first of which was due at `t`.
abbrev pub with_reports : ℕ → ℕ → List Report → Feed → Feed
with_reports n t reports s = record s {
  next_report = some (t + n * report_every);
  reports = reports;
}

module _ (b : OrderBook) (q : Queues) (wf : IsWellFormed b q) where
  unaggregated-IsFound : (s : Side) (items : List DepthItem) → IsFound (unaggregated s b items)
  unfolding unaggregated
  unaggregated-IsFound s [] = ([], refl)
  unaggregated-IsFound s ((price, qty, count) ∷ items) =
      chain-IsFound (orders_at s price b) _ (_, orders_at-queue b q wf s price)
        (λ orders.
          chain-IsFound (unaggregated s b items) _ (unaggregated-IsFound s items)
            (λ rest. (_, refl)))

  top_n_levels-IsFound : (n : ℕ) → IsFound (top_n_levels n b)
  unfolding top_n_levels top_n_levels_for_side
  top_n_levels-IsFound n =
      chain-IsFound _ _ (unaggregated-IsFound bid (take n (depth bid b))) (λ bids.
        chain-IsFound _ _ (unaggregated-IsFound ask (take n (depth ask b))) (λ asks. (_, refl)))

  log_report-IsFound : (scales : Scales) (header : Header) → IsFound (log_report b scales header)
  unfolding log_report
  log_report-IsFound scales header = chain-IsFound _ _ (top_n_levels-IsFound 5) (λ l. (_, refl))

  -- On a well-formed book, with enough fuel for a report in each nanosecond, the loop ends after some
  -- number of reports, one every 15 seconds from `t` on: the next time is later than now, and, if
  -- there was a report, by 15 seconds at most.
  pub report_due_lem :
      (fuel : ℕ) (scales : Scales) (now t : ℕ) (s : Feed)
      → s.next_report ≡ some t
      → 0 < fuel
      → now + 2 ≤ fuel + t
      → (n : ℕ) × (reports : List Report) × (report_due fuel scales now s b
          ≡ some (with_reports n t reports s))
        × (length reports ≡ n + length s.reports)
        × (now < t + n * report_every)
        × ((n ≡ 0) ⊎ (t + n * report_every ≤ now + report_every))
  unfolding report_due
  report_due_lem zero scales now t s e some_fuel enough = absurd (omega arith)
  report_due_lem (suc fuel) scales now t s e some_fuel enough = elim (Bool-cases (ltb now t)) [
    | inl early ↦ (
      0,
      s.reports,
      rw (report_due, e, early)
          (ap (λ v. some (record s { next_report = v })) (e ∙ ap some (omega arith))),
      omega arith,
      ground arith,
      inl refl,
    )
    | inr late ↦
        let (report, made) = log_report-IsFound scales (header_of now s) in
        let (n, reports, run, total, later, on_time) =
          report_due_lem fuel scales now (t + report_every)
            (record s { next_report = some (t + report_every); reports = report ∷ s.reports }) refl
            (ground arith) (ground arith) in
        (
          n + 1,
          reports,
          rw (report_due, e, late, made)
              (run
                ∙ ap (λ k. some (record s { next_report = some k; reports = reports }))
                    (omega arith)),
          omega (arith, total),
          omega (arith, later),
          inr (on_time_next n t now (not_early t now late) on_time),
        )
  ]

  no_report :
      (fuel : ℕ) (scales : Scales) (now : ℕ) (s : Feed)
      → s.next_report ≡ none
      → 0 < fuel
      → report_due fuel scales now s b ≡ some s
  unfolding report_due
  no_report zero scales now s e some_fuel = absurd (omega arith)
  no_report (suc fuel) scales now s e some_fuel =
      rw (report_due, e) (ap (λ v. some (record s { next_report = v })) e)

  -- The reports leave the counters as they are.
  pub report_due-counts :
      (scales : Scales) (now : ℕ) (s : Feed)
      → (s' : Feed) × (report_due (now + 2) scales now s b ≡ some s')
        × (s'.ops_applied + s'.op_errors ≡ s.ops_applied + s.op_errors)
  report_due-counts scales now s = elim (Option-cases s.next_report) [
    | inl e ↦ (s, no_report (now + 2) scales now s e (omega arith), refl)
    | inr (t, e) ↦
        let (n, reports, run, _, _, _) =
          report_due_lem (now + 2) scales now t s e (omega arith) (omega arith) in
        (with_reports n t reports s, run, refl)
  ]
