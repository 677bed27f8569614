-- ===== src/Examples/Replay/Tests.antt =====
-- The sample of the decoder, replayed.
use l4_book.Prelude.{◌+◌, ◌≤◌, ◌≡◌, refl, ◌∙◌, ap, List, [], ◌∷◌, arith, length, ℕ_discrete, true}
use l4_book.Types.{BookOp, bid, dwellir_tolerant}
use l4_book.Containers.HashMap
use l4_book.Book.{new_book, max_slots}
use l4_book.Book.Invariant.{NoRepeat}
use l4_book.Book.Ops.{new_book-IsWellFormed}
use l4_book.Book.Replay.{ids_of}
use l4_book.Dwellir.Types.{btc_default, ok, map_ok}
use l4_book.Dwellir.Capture.{load_capture}
use l4_book.Dwellir.Capture.Stats.{strip_capture, load_capture-strip_capture}
use l4_book.Dwellir.Sample.{test_json, test_orders, test_lines, test_capture, lines_load}
use l4_book.Examples.Replay.{nothing_replayed, replay_updates, main}
use l4_book.Examples.Replay.Totals.{Replays, replay_updates-Replays}
use l4_book.Examples.Replay.Whole.{main-Replays}

capture_loads : load_capture test_json test_lines btc_default ≡ ok (strip_capture test_capture)
capture_loads =
    load_capture-strip_capture test_json btc_default test_lines
    ∙ ap (map_ok strip_capture) lines_load

test_orders-NoRepeat : NoRepeat (ids_of test_orders)
unfolding HashMap.has ℕ_discrete
test_orders-NoRepeat = (refl, (refl, tt))

main-Replays_example : Replays 2 2 nothing_replayed (main test_json test_lines true)
main-Replays_example =
    main-Replays test_json test_lines true capture_loads test_orders-NoRepeat
      (omega arith, (omega arith, tt)) (omega arith)

abbrev test_updates : List (List BookOp)
test_updates =
    (BookOp.add (record { id = 4; wallet = []; side = bid; price = 3; qty = 9; ts = 0 })
      ∷ BookOp.update_size 4 11
      ∷ [])
    ∷ (BookOp.remove 4 ∷ BookOp.remove 5 ∷ [])
    ∷ []

new_book-slots : length new_book.slab + 4 ≤ max_slots
unfolding new_book
new_book-slots = omega arith

replay_updates-Replays_example :
    Replays 4
      (length new_book.slab)
      nothing_replayed
      (replay_updates dwellir_tolerant test_updates nothing_replayed new_book)
replay_updates-Replays_example =
    replay_updates-Replays dwellir_tolerant test_updates nothing_replayed new_book (λ s p. [])
      new_book-IsWellFormed ((omega arith, (omega arith, tt)), ((tt, (tt, tt)), tt)) new_book-slots
      (omega arith)
