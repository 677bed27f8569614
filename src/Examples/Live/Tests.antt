-- ===== src/Examples/Live/Tests.antt =====
-- A feed with a snapshot and an update, and a book with a report that is due.
use l4_book.Prelude.{ℕ, ◌+◌, ◌*◌, ◌≤◌, ◌<◌, ◌≡◌, refl, List, [], ◌∷◌, some, arith, length, ◌⊎◌}
use l4_book.Text.{codes}
use l4_book.Book.Sample.{both_sides, ask_queues, ask_wf}
use l4_book.Dwellir.Lines.{decode_line, strip_decoded, strip_update_batch}
use l4_book.Dwellir.Sample.{test_json, snapshot_line_decodes, updates_line_decodes}
use l4_book.Dwellir.Types.{btc_default}
use l4_book.Examples.Live.{Feed, Read, first_feed, report_due, report_every, live_feed}
use l4_book.Examples.Live.Due.{with_reports, report_due_lem}
use l4_book.Examples.Live.Fair.{all_ops, all_slots, live_feed-IsFair}
use l4_book.Examples.Live.Steps.{FlowIsFair}
use l4_book.Examples.Live.Reports.{Report}
use l4_book.Examples.Running.{Ends}
use l4_book.Examples.Socket.{text, ping}

abbrev test_reads : List Read
test_reads =
    record { message = some (text (codes "snapshot")); snapshot_now = 1; now = 2 }
    ∷ record { message = some ping; snapshot_now = 3; now = 4 }
    ∷ record { message = some (text (codes "updates")); snapshot_now = 5; now = 16000000000 }
    ∷ []

test_reads-slots : all_slots test_json some btc_default test_reads ≡ 4
unfolding decode_line strip_decoded strip_update_batch
test_reads-slots = rw (snapshot_line_decodes, updates_line_decodes) refl

live_feed-IsFair_example :
    Ends
      (FlowIsFair
        (all_slots test_json some btc_default test_reads)
        (all_ops test_json some btc_default test_reads))
      (live_feed test_json some btc_default test_reads)
live_feed-IsFair_example =
    live_feed-IsFair test_json some btc_default test_reads (omega (arith, test_reads-slots))

abbrev due_feed : Feed
due_feed = record first_feed { next_report = some 15 }

report_due_lem_example :
    (n : ℕ) × (reports : List Report) × (report_due 8 btc_default 20 due_feed both_sides
      ≡ some (with_reports n 15 reports due_feed))
    × (length reports ≡ n + 0)
    × (20 < 15 + n * report_every)
    × ((n ≡ 0) ⊎ (15 + n * report_every ≤ 20 + report_every))
report_due_lem_example =
    report_due_lem both_sides ask_queues ask_wf 8 btc_default 20 15 due_feed refl (omega arith)
      (omega arith)
