-- ===== src/Examples/Replay/Whole.antt =====
-- The whole program: from the lines of a capture to the counters.
use l4_book.Prelude.{◌+◌, ◌≤◌, ◌<◌, ◌≡◌, ap, ◌∙◌, subst, List, [], ◌∷◌, Bool, arith, length}
use l4_book.Types.{Order}
use l4_book.Book.{new_book, and_then, max_slots}
use l4_book.Book.Invariant.{NoRepeat}
use l4_book.Book.Growth.{Within}
use l4_book.Book.Growth.Snapshot.{apply_snapshot-Within}
use l4_book.Book.Rebuild.{ArePositive, apply_snapshot-resting_at}
use l4_book.Book.Replay.{ids_of}
use l4_book.Dwellir.Types
use l4_book.Dwellir.Types.{Capture, btc_default}
use l4_book.Dwellir.Json.{Json}
use l4_book.Dwellir.Lines.Ranges.{AreInRange}
use l4_book.Dwellir.Capture.{Lines, load_capture}
use l4_book.Dwellir.Capture.Loaded.{IsLoaded, load_capture-IsLoaded}
use l4_book.Examples.Replay.{
  nothing_replayed, expect, policy_of, replay_updates, replay_capture, main,
}
use l4_book.Examples.Replay.Totals.{Replays, replay_updates-Replays}

-- No order of the snapshot has size zero.
abbrev pub NoneEmpty : List Order → Type 0
NoneEmpty [] = Unit {0}
NoneEmpty (o ∷ os) = (0 < o.qty) × NoneEmpty os

NoneEmpty-ArePositive : (os : List Order) → NoneEmpty os → AreInRange os → ArePositive os
NoneEmpty-ArePositive [] h k = tt
NoneEmpty-ArePositive (o ∷ os) h k = ((h.0, k.0.0), NoneEmpty-ArePositive os h.1 k.1)

replay_capture-Replays :
    (is_strict : Bool) (cap : Capture)
    → IsLoaded cap
    → NoRepeat (ids_of cap.snapshot)
    → NoneEmpty cap.snapshot
    → length cap.snapshot + cap.stats.total_ops ≤ max_slots
    → Replays cap.stats.total_ops
        (length cap.snapshot)
        nothing_replayed
        (replay_capture is_strict cap)
unfolding replay_capture
replay_capture-Replays is_strict cap loaded once some_qty fits =
    let (b, q, applied, wf, _) =
      apply_snapshot-resting_at cap.snapshot new_book (omega arith) once
        (NoneEmpty-ArePositive cap.snapshot some_qty loaded.orders) in
    let small : length b.slab ≤ length cap.snapshot =
      subst (Within (length cap.snapshot)) applied (apply_snapshot-Within cap.snapshot new_book) in
    let policy = policy_of is_strict in
    let rest =
      replay_updates-Replays policy cap.updates nothing_replayed b q wf loaded.ranges
        (omega (arith, loaded.total)) (omega arith) in
    record {
      result = rest.result;
      book = rest.book;
      queues = rest.queues;
      ends =
          ap
            (λ r. and_then (expect r) λ _ b'. replay_updates policy cap.updates nothing_replayed b')
            applied
          ∙ rest.ends;
      well_formed = rest.well_formed;
      slots = omega (arith, loaded.total, rest.slots);
      all_counted = omega (arith, loaded.total, rest.all_counted);
      few = rest.few;
    }

-- The program does not panic on a capture that is loaded, if the orders of its snapshot have distinct
-- identifiers and no size zero, and if they and the operations fit into a slab. Under both policies the
-- replay ends in a well-formed book, the four counters add up to the operations that the statistics
-- report, and no more than five outcomes are kept.
pub main-Replays :
    (j : Json) (reads : Lines) (is_strict : Bool) {cap : Capture}
    → load_capture j reads btc_default ≡ Types.ok cap
    → NoRepeat (ids_of cap.snapshot)
    → NoneEmpty cap.snapshot
    → length cap.snapshot + cap.stats.total_ops ≤ max_slots
    → Replays cap.stats.total_ops (length cap.snapshot) nothing_replayed (main j reads is_strict)
unfolding main
main-Replays j reads is_strict {cap} loads once some_qty fits =
    rw (loads, main)
      (replay_capture-Replays is_strict cap (load_capture-IsLoaded j btc_default reads loads) once
        some_qty fits)
