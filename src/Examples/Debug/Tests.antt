-- ===== src/Examples/Debug/Tests.antt =====
-- A feed with a snapshot, an update that comes twice and bytes that are no JSON, and a feed of ten
-- such messages.
use l4_book.Prelude.{◌≡◌, List, [], ◌∷◌, Option, some, arith, refl}
use l4_book.Text.{codes}
use l4_book.Book.{new_book, ok}
use l4_book.Dwellir.Types
use l4_book.Dwellir.Types.{btc_default}
use l4_book.Dwellir.Sample.{
  test_json, snapshot_line_decodes, updates_line_decodes, blank_line_fails,
}
use l4_book.Examples.Socket.{Message, text, binary, ping, close}
use l4_book.Examples.Debug.{breaks, read_loop, first_session, log_feed}
use l4_book.Examples.Debug.ReadBack.{book_snapshot-Shows}
use l4_book.Examples.Debug.Shown.{ShowsBook}
use l4_book.Examples.Debug.Sample.{quoted_book, quoted_queues, quoted_wf, quoted_book-IsPrintable}
use l4_book.Examples.Debug.Log.{Session}
use l4_book.Examples.Running.{Ends}
use l4_book.Examples.Debug.Stops.{IsBad, read_loop-breaks}
use l4_book.Examples.Debug.Values.{BookValue, book_snapshot}
use l4_book.Examples.Debug.Whole.{TurnIsFair, demand, log_feed-IsFair}

abbrev feed : List (Option Message)
feed =
    some (text (codes "snapshot"))
    ∷ some (text (codes "updates"))
    ∷ some ping
    ∷ some (text (codes "updates"))
    ∷ some (binary [])
    ∷ some close
    ∷ []

feed-demand : demand test_json some btc_default 5 feed ≡ 6
feed-demand = rw (snapshot_line_decodes, updates_line_decodes, blank_line_fails) refl

log_feed-IsFair_example :
    Ends
      (TurnIsFair (demand test_json some btc_default 5 feed))
      (log_feed test_json some btc_default 5 feed)
log_feed-IsFair_example =
    log_feed-IsFair test_json some btc_default 5 feed (omega (arith, feed-demand))

abbrev blanks : List (Option Message)
blanks =
    some (text [])
    ∷ some (text [])
    ∷ some (text [])
    ∷ some (text [])
    ∷ some (text [])
    ∷ some (text [])
    ∷ some (text [])
    ∷ some (text [])
    ∷ some (text [])
    ∷ some (text [])
    ∷ []

blank : IsBad test_json some btc_default 5 (some (text []))
blank = (Types.json, blank_line_fails)

read_loop-breaks_example :
    (s : Session) × (read_loop test_json some btc_default 5 blanks
        (first_session test_json some btc_default 5)
        new_book
      ≡ ok (breaks s) new_book)
    × (s.errors ≡ 10)
read_loop-breaks_example =
    read_loop-breaks test_json some btc_default 5 blanks
      (first_session test_json some btc_default 5) new_book
      (blank, (blank, (blank, (blank, (blank, (blank, (blank, (blank, (blank, (blank, tt))))))))))
      (omega arith) (omega arith)

book_snapshot-Shows_example :
    (view : BookValue) × (book_snapshot btc_default quoted_book ≡ some view)
    × ShowsBook btc_default quoted_book quoted_queues view
book_snapshot-Shows_example =
    book_snapshot-Shows btc_default (omega arith) (omega arith) quoted_book quoted_queues quoted_wf
      quoted_book-IsPrintable
