-- ===== src/Dwellir/Capture/Stats.antt =====
-- The statistics of a capture agree with its operations, and the capture without causes is the
-- capture with causes, stripped.
use l4_book.Prelude.{
  ℕ, ◌+◌, ◌≤◌, ◌≡◌, refl, ap, sym, subst, List, [], ◌∷◌, ◌++◌, arith, length, length-append, map,
}
use mathlib.Core.List.{map-append}
use l4_book.Types.{BookOp, ReasonedBookOp}
use l4_book.Dwellir.Types.{
  ReasonedUpdateBatch, DecodedWithMeta, CaptureStats, Capture, ReasonedCapture, Scales, Result, ok,
  err, ◌>>=◌, map_ok, >>=-eq-ok, ok-inj,
}
use l4_book.Dwellir.Json.{Json}
use l4_book.Dwellir.Lines.{ops_of, decode_line_with_meta}
use l4_book.Dwellir.Capture.{
  count_op, count_ops, accumulate_stats, count_line, collect, collect_with_meta,
  no_reasoned_capture, Lines, load_line, load_lines, load_capture, load_line_with_meta,
  load_lines_with_meta, load_capture_with_meta,
}

abbrev pub count_all {ℓ} : {A : Type ℓ} → List (List A) → ℕ
count_all [] = 0
count_all (x ∷ xs) = length x + count_all xs

count_all-append {ℓ} :
    {A : Type ℓ} (xs ys : List (List A)) → count_all (xs ++ ys) ≡ count_all xs + count_all ys
count_all-append [] ys = omega arith
count_all-append (x ∷ xs) ys = omega (arith, count_all-append xs ys)

-- The kinds of operations make up the total, and messages and operations are those collected.
pub record Agrees {ℓ} {A : Type ℓ} (updates : List (List A)) (stats : CaptureStats) : Type 0 where
  pub kinds : stats.total_ops ≡ stats.adds + stats.removes + stats.size_updates + stats.size_amends
  pub total : stats.total_ops ≡ count_all updates
  pub messages : stats.updates_messages ≡ length updates
  pub within : stats.updates_messages ≤ stats.lines

abbrev kinds : CaptureStats → ℕ
kinds s = s.adds + s.removes + s.size_updates + s.size_amends

-- The loop over the operations counts each kind, and leaves the other counters alone.
record Counted (n : ℕ) (s s' : CaptureStats) : Type 0 where
  kinds_grow : kinds s' ≡ kinds s + n
  same_total : s'.total_ops ≡ s.total_ops
  same_messages : s'.updates_messages ≡ s.updates_messages
  same_lines : s'.lines ≡ s.lines

count_op-Counted : (op : BookOp) (s : CaptureStats) → Counted 1 s (count_op op s)
unfolding count_op
count_op-Counted (BookOp.add o) s = omega arith
count_op-Counted (BookOp.remove id) s = omega arith
count_op-Counted (BookOp.update_size id n) s = omega arith
count_op-Counted (BookOp.amend_size id n) s = omega arith

count_ops-Counted :
    (ops : List ReasonedBookOp) (s : CaptureStats) → Counted (length ops) s (count_ops ops s)
unfolding count_ops
count_ops-Counted [] s = omega arith
count_ops-Counted (o ∷ ops) s =
    omega (arith, count_op-Counted o.op s, count_ops-Counted ops (count_op o.op s))

accumulate_stats-Agrees :
    (updates : List (List ReasonedBookOp)) (s : CaptureStats) (batch : ReasonedUpdateBatch)
    → Agrees updates s
    → Agrees (updates ++ batch.ops ∷ []) (accumulate_stats (count_line s) batch)
unfolding accumulate_stats
accumulate_stats-Agrees updates s batch a =
    let c = count_ops-Counted batch.ops (count_line s) in
    omega
      (arith, c, count_all-append updates (batch.ops ∷ []), length-append updates (batch.ops ∷ []))

collect-Agrees :
    (decoded : DecodedWithMeta) (c : ReasonedCapture)
    → Agrees c.updates c.stats
    → Agrees
        (collect_with_meta decoded (record c { stats = count_line c.stats })).updates
        (collect_with_meta decoded (record c { stats = count_line c.stats })).stats
unfolding collect_with_meta
collect-Agrees DecodedWithMeta.skip c a = omega arith
collect-Agrees (DecodedWithMeta.snapshot orders cause) c a = omega arith
collect-Agrees (DecodedWithMeta.updates batch) c a =
    accumulate_stats-Agrees c.updates c.stats batch a

module _ (j : Json) (scales : Scales) where
  load_line-Agrees :
      (line : List ℕ) (c : ReasonedCapture) {c' : ReasonedCapture}
      → Agrees c.updates c.stats
      → load_line_with_meta j line scales c ≡ ok c'
      → Agrees c'.updates c'.stats
  unfolding load_line_with_meta
  load_line-Agrees [] c a h = subst (λ r. Agrees r.updates r.stats) (ok-inj h) a
  load_line-Agrees (b ∷ line) c a h =
      let (decoded, _, e) = >>=-eq-ok (decode_line_with_meta j (b ∷ line) scales) _ h in
      subst (λ r. Agrees r.updates r.stats) (ok-inj e) (collect-Agrees decoded c a)

  load_lines-Agrees :
      (reads : Lines) (c : ReasonedCapture) {c' : ReasonedCapture}
      → Agrees c.updates c.stats
      → load_lines_with_meta j reads scales c ≡ ok c'
      → Agrees c'.updates c'.stats
  unfolding load_lines_with_meta
  load_lines-Agrees [] c a h = subst (λ r. Agrees r.updates r.stats) (ok-inj h) a
  load_lines-Agrees (read ∷ reads) c a h =
      let (line, _, h₁) = >>=-eq-ok read _ h in
      let (next, e, h₂) = >>=-eq-ok (load_line_with_meta j line scales c) _ h₁ in
      load_lines-Agrees reads next (load_line-Agrees line c a e) h₂

  -- In a capture that is loaded, the numbers of additions, removals, size updates and amendments
  -- make up the total, which is the number of operations collected; the messages counted are those
  -- collected, and no more than the lines.
  pub load_capture-Agrees :
      (reads : Lines) {c : ReasonedCapture}
      → load_capture_with_meta j reads scales ≡ ok c
      → Agrees c.updates c.stats
  unfolding load_capture_with_meta
  load_capture-Agrees reads h = load_lines-Agrees reads no_reasoned_capture (omega arith) h

-- A capture without its causes.
abbrev pub strip_capture : ReasonedCapture → Capture
strip_capture c = record { snapshot = c.snapshot; updates = map ops_of c.updates; stats = c.stats }

collect-strip_capture :
    (decoded : DecodedWithMeta) (c : ReasonedCapture)
    → collect decoded (strip_capture c) ≡ strip_capture (collect_with_meta decoded c)
unfolding collect collect_with_meta
collect-strip_capture DecodedWithMeta.skip c = refl
collect-strip_capture (DecodedWithMeta.snapshot orders cause) c = refl
collect-strip_capture (DecodedWithMeta.updates batch) c =
    ap (λ u. record (strip_capture c) { updates = u; stats = accumulate_stats c.stats batch })
      (sym (map-append ops_of c.updates (batch.ops ∷ [])))

module _ (j : Json) (scales : Scales) where
  load_line-strip :
      (line : List ℕ) (c : ReasonedCapture)
      → load_line j line scales (strip_capture c)
        ≡ map_ok strip_capture (load_line_with_meta j line scales c)
  unfolding load_line load_line_with_meta
  load_line-strip [] c = refl
  load_line-strip (b ∷ line) c = after (decode_line_with_meta j (b ∷ line) scales)
    where
      after :
          (r : Result DecodedWithMeta)
          → (r >>= λ d. ok (collect d (strip_capture (record c { stats = count_line c.stats }))))
            ≡ map_ok strip_capture
                (r >>= λ d. ok (collect_with_meta d (record c { stats = count_line c.stats })))
      after (ok d) = ap ok (collect-strip_capture d (record c { stats = count_line c.stats }))
      after (err e) = refl

  load_lines-strip :
      (reads : Lines) (c : ReasonedCapture)
      → load_lines j reads scales (strip_capture c)
        ≡ map_ok strip_capture (load_lines_with_meta j reads scales c)
  unfolding load_lines load_lines_with_meta
  load_lines-strip [] c = refl
  load_lines-strip (err e ∷ reads) c = refl
  load_lines-strip (ok line ∷ reads) c =
      rw (load_line-strip line c)
        (after (load_lines-strip reads) (load_line_with_meta j line scales c))
    where
      after :
          ((c : ReasonedCapture)
            → load_lines j reads scales (strip_capture c)
              ≡ map_ok strip_capture (load_lines_with_meta j reads scales c))
          → (r : Result ReasonedCapture)
          → (map_ok strip_capture r >>= λ c'. load_lines j reads scales c')
            ≡ map_ok strip_capture (r >>= λ c'. load_lines_with_meta j reads scales c')
      after ih (ok c') = ih c'
      after ih (err e) = refl

  -- `load_capture` gives what `load_capture_with_meta` gives without the causes, errors included.
  pub load_capture-strip_capture :
      (reads : Lines)
      → load_capture j reads scales ≡ map_ok strip_capture (load_capture_with_meta j reads scales)
  unfolding load_capture load_capture_with_meta
  load_capture-strip_capture reads = load_lines-strip reads no_reasoned_capture
