-- ===== src/Dwellir/Capture.antt =====
-- src/dwellir.rs: a whole capture, line by line, with its statistics.
pub mod Loaded
pub mod Stats
use l4_book.Prelude.{
  ℕ, zero, suc, ◌+◌, List, [], ◌∷◌, ◌++◌, Bool, true, false, if◌then◌else◌, length, map,
}
use l4_book.Types.{Order, BookOp, ReasonedBookOp}
use l4_book.Dwellir.Types.{
  ReasonedUpdateBatch, DecodedWithMeta, CaptureStats, Capture, ReasonedCapture, Scales, Result, ok,
  err, ◌>>=◌,
}
use l4_book.Dwellir.Json.{Json}
use l4_book.Dwellir.Lines.{ops_of, decode_line_with_meta}

abbrev pub no_stats : CaptureStats
no_stats = record {
  lines = 0;
  updates_messages = 0;
  total_ops = 0;
  adds = 0;
  removes = 0;
  size_updates = 0;
  size_amends = 0;
  unresolved_new = 0;
  collapsed_complete_fills = 0;
  dropped_duplicate_removes = 0;
}

unfoldable pub count_op : BookOp → CaptureStats → CaptureStats
count_op (BookOp.add order) stats = record stats { adds = stats.adds + 1 }
count_op (BookOp.remove id) stats = record stats { removes = stats.removes + 1 }
count_op (BookOp.update_size id n) stats = record stats { size_updates = stats.size_updates + 1 }
count_op (BookOp.amend_size id n) stats = record stats { size_amends = stats.size_amends + 1 }

unfoldable pub count_ops : List ReasonedBookOp → CaptureStats → CaptureStats
unfolding count_op
count_ops [] stats = stats
count_ops (reasoned ∷ ops) stats = count_ops ops (count_op reasoned.op stats)

unfoldable pub accumulate_stats : CaptureStats → ReasonedUpdateBatch → CaptureStats
unfolding count_ops
accumulate_stats stats batch =
    let counted = count_ops batch.ops stats in
    record counted {
      total_ops = counted.total_ops + length batch.ops;
      unresolved_new = counted.unresolved_new + batch.unresolved_new;
      collapsed_complete_fills = counted.collapsed_complete_fills + batch.collapsed_complete_fills;
      dropped_duplicate_removes =
          counted.dropped_duplicate_removes + batch.dropped_duplicate_removes;
      updates_messages = counted.updates_messages + 1;
    }

abbrev pub count_line : CaptureStats → CaptureStats
count_line stats = record stats { lines = stats.lines + 1 }

-- The body of the loop, on a line that is decoded.
unfoldable pub collect : DecodedWithMeta → Capture → Capture
unfolding accumulate_stats
collect DecodedWithMeta.skip c = c
collect (DecodedWithMeta.snapshot orders cause) c = record c { snapshot = c.snapshot ++ orders }
collect (DecodedWithMeta.updates batch) c = record c {
  updates = c.updates ++ ops_of batch.ops ∷ [];
  stats = accumulate_stats c.stats batch;
}

unfoldable pub collect_with_meta : DecodedWithMeta → ReasonedCapture → ReasonedCapture
unfolding accumulate_stats
collect_with_meta DecodedWithMeta.skip c = c
collect_with_meta (DecodedWithMeta.snapshot orders cause) c = record c {
  snapshot = c.snapshot ++ orders;
}
collect_with_meta (DecodedWithMeta.updates batch) c = record c {
  updates = c.updates ++ batch.ops ∷ [];
  stats = accumulate_stats c.stats batch;
}

abbrev pub no_capture : Capture
no_capture = record { snapshot = []; updates = []; stats = no_stats }

abbrev pub no_reasoned_capture : ReasonedCapture
no_reasoned_capture = record { snapshot = []; updates = []; stats = no_stats }

-- What `reader.lines()` yields: a line or an error of the file.
abbrev pub Lines : Type 0
Lines = List (Result (List ℕ))

module _ (j : Json) where
  -- One round of the loop: an empty line is passed over.
  unfoldable pub load_line : List ℕ → Scales → Capture → Result Capture
  unfolding collect
  load_line [] scales c = ok c
  load_line (b ∷ line) scales c = do
    decoded ← decode_line_with_meta j (b ∷ line) scales
    ok (collect decoded (record c { stats = count_line c.stats }))

  unfoldable pub load_lines : Lines → Scales → Capture → Result Capture
  unfolding load_line
  load_lines [] scales c = ok c
  load_lines (read ∷ reads) scales c = do
    line ← read
    c ← load_line line scales c
    load_lines reads scales c

  unfoldable pub load_capture : Lines → Scales → Result Capture
  unfolding load_lines
  load_capture reads scales = load_lines reads scales no_capture

  unfoldable pub load_line_with_meta : List ℕ → Scales → ReasonedCapture → Result ReasonedCapture
  unfolding collect_with_meta
  load_line_with_meta [] scales c = ok c
  load_line_with_meta (b ∷ line) scales c = do
    decoded ← decode_line_with_meta j (b ∷ line) scales
    ok (collect_with_meta decoded (record c { stats = count_line c.stats }))

  unfoldable pub load_lines_with_meta : Lines → Scales → ReasonedCapture → Result ReasonedCapture
  unfolding load_line_with_meta
  load_lines_with_meta [] scales c = ok c
  load_lines_with_meta (read ∷ reads) scales c = do
    line ← read
    c ← load_line_with_meta line scales c
    load_lines_with_meta reads scales c

  unfoldable pub load_capture_with_meta : Lines → Scales → Result ReasonedCapture
  unfolding load_lines_with_meta
  load_capture_with_meta reads scales = load_lines_with_meta reads scales no_reasoned_capture
