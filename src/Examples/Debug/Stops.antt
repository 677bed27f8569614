-- ===== src/Examples/Debug/Stops.antt =====
-- The tenth error stops the program.
use l4_book.Prelude.{
  ℕ, ◌+◌, ◌≤◌, ◌<◌, ◌≡◌, refl, List, [], ◌∷◌, Option, none, some, arith, length, leb, Bool-cases,
  inl, inr, All,
}
use l4_book.Book.{OrderBook, ok}
use l4_book.Dwellir.Json.{Json}
use l4_book.Dwellir.Lines.{decode_line_with_meta}
use l4_book.Dwellir.Types
use l4_book.Dwellir.Types.{Scales, AdapterError}
use l4_book.Examples.Debug.Log.{
  Session, error_limit, count_error, write, binary_utf8_error, decode_error,
}
use l4_book.Examples.Socket.{Message, text, binary, ping, pong, frame, close}
use l4_book.Examples.Debug.{
  breaks, check_limit, handle_text, handle_message, handle_read, read_loop,
}

module _ (j : Json) (from_utf8 : List ℕ → Option (List ℕ)) (scales : Scales)
    (updates_to_log : ℕ) where
  abbrev pub IsUndecodable : List ℕ → Type 0
  IsUndecodable raw = (e : AdapterError) × (decode_line_with_meta j raw scales ≡ Types.err e)

  -- A message that the program counts as an error.
  abbrev pub IsBad : Option Message → Type 0
  IsBad none = ⊥
  IsBad (some (text raw)) = IsUndecodable raw
  IsBad (some (binary bytes)) = from_utf8 bytes ≡ none
  IsBad (some ping) = ⊥
  IsBad (some pong) = ⊥
  IsBad (some frame) = ⊥
  IsBad (some close) = ⊥

  abbrev heard : Session → Session
  heard s = record s { messages = s.messages + 1 }

  bad_read :
      (read : Option Message) (s : Session) (b : OrderBook)
      → IsBad read
      → (s' : Session) × (s'.errors ≡ s.errors + 1)
        × (handle_read j from_utf8 scales updates_to_log read s b ≡ ok (check_limit s') b)
  unfolding handle_read handle_message
  bad_read none s b bad = absurd bad
  bad_read (some (text raw)) s b (e, at) = (
    write (decode_error (s.errors + 1) e raw) (count_error (heard s)),
    refl,
    rw (handle_text, at) refl,
  )
  bad_read (some (binary bytes)) s b bad = (
    write (binary_utf8_error (s.errors + 1)) (count_error (heard s)),
    refl,
    rw (handle_message, bad) refl,
  )
  bad_read (some ping) s b bad = absurd bad
  bad_read (some pong) s b bad = absurd bad
  bad_read (some frame) s b bad = absurd bad
  bad_read (some close) s b bad = absurd bad

  -- Messages that cannot be decoded stop the loop at the tenth error, with the book as it was, if there
  -- are enough of them.
  pub read_loop-breaks :
      (reads : List (Option Message)) (s : Session) (b : OrderBook)
      → All IsBad reads
      → s.errors < error_limit
      → error_limit ≤ s.errors + length reads
      → (s' : Session) × (read_loop j from_utf8 scales updates_to_log reads s b ≡ ok (breaks s') b)
        × (s'.errors ≡ error_limit)
  unfolding read_loop
  read_loop-breaks [] s b bad less enough = absurd (omega arith)
  read_loop-breaks (read ∷ reads) s b (bad, bads) less enough =
      let (s', next, run) = bad_read read s b bad in
      elim (Bool-cases (leb error_limit s'.errors)) [
        | inl full ↦ (s', rw (run, full) refl, ground (arith, next))
        | inr more ↦
            let (s₂, rest, at) =
              read_loop-breaks reads s' b bads (ground arith) (omega (arith, next)) in
            (s₂, rw (run, more) rest, at)
      ]
