-- ===== src/Examples/Debug/Whole.antt =====
-- The loop over the messages of the feed.
use l4_book.Prelude.{
  ℕ, ◌+◌, ◌≤◌, ◌<◌, ◌≡◌, refl, subst, List, [], ◌∷◌, Option, none, some, arith, length, false, leb,
  Bool-cases, Option-cases, inl, inr,
}
use l4_book.Book.{OrderBook, new_book, Run, ok, max_slots}
use l4_book.Book.Invariant.{IsWellFormed, Queues}
use l4_book.Book.Ops.{new_book-IsWellFormed}
use l4_book.Dwellir.Json.{Json}
use l4_book.Dwellir.Lines.{decode_line_with_meta}
use l4_book.Dwellir.Lines.Ranges.{FitsBook, decode_line-FitsBook}
use l4_book.Dwellir.Types
use l4_book.Dwellir.Types.{Scales, Result, AdapterError, DecodedWithMeta}
use l4_book.Examples.Debug.Log.{
  Session, error_limit, count_error, write, websocket_read_error, binary_utf8_error,
  websocket_closed, decode_error,
}
use l4_book.Examples.Debug.Safe.{IsFair, apply_batch-Ends, load_orders-Ends, at_most}
use l4_book.Examples.Running.{Ends, then-Ends, ok-Ends, AreInRange-FitQty, Result-cases}
use l4_book.Examples.Debug.Tallies.{IsTallied, write-IsTallied, error-IsTallied}
use l4_book.Examples.Debug.Updates.{handle}
use l4_book.Examples.Socket.{Message, text, binary, ping, pong, frame, close}
use l4_book.Examples.Debug.{
  Turn, goes_on, breaks, check_limit, handle_text, handle_message, handle_read, read_loop,
  first_session, finish, log_feed,
}

-- The slots that a decoded message may take.
abbrev pub demand_of : Result DecodedWithMeta → ℕ
demand_of (Types.err e) = 0
demand_of (Types.ok DecodedWithMeta.skip) = 0
demand_of (Types.ok (DecodedWithMeta.snapshot orders cause)) = length orders
demand_of (Types.ok (DecodedWithMeta.updates batch)) = length batch.ops

-- After a message: the log and the counters agree, and the loop goes on only below the limit.
abbrev pub TurnIsFair : ℕ → Turn → OrderBook → Type 0
TurnIsFair k (breaks s) b = IsFair k s b
TurnIsFair k (goes_on s) b = IsFair k s b × (s.errors < error_limit)

check_limit-Ends :
    (k : ℕ) (s : Session) (b : OrderBook) (q : Queues)
    → IsWellFormed b q
    → IsFair k s b
    → Ends (TurnIsFair k) (ok (check_limit s) b)
check_limit-Ends k s b q wf fair = elim (Bool-cases (leb error_limit s.errors)) [
  | inl full ↦ rw full (ok-Ends (TurnIsFair k) (breaks s) b q wf fair)
  | inr more ↦ rw more (ok-Ends (TurnIsFair k) (goes_on s) b q wf (fair, below s.errors more))
]
  where
    below : (n : ℕ) → leb error_limit n ≡ false → n < error_limit
    below n h = ground arith

-- What follows a turn.
turn-Ends :
    (k m : ℕ) (rest : Session → OrderBook → Run Turn)
    → m ≤ k
    → ((s : Session) (b : OrderBook) (q : Queues)
        → IsWellFormed b q
        → IsFair m s b
        → s.errors < error_limit
        → Ends (TurnIsFair k) (rest s b))
    → (turn : Turn) (b : OrderBook) (q : Queues) → IsWellFormed b q
    → TurnIsFair m turn b
    → Ends (TurnIsFair k) (elim turn [ breaks s ↦ ok (breaks s) b | goes_on s ↦ rest s b ])
turn-Ends k m rest le next (breaks s) b q wf fair =
    ok-Ends (TurnIsFair k) (breaks s) b q wf
      (record { tallied = fair.tallied; limited = fair.limited; small = omega (arith, fair.small) })
turn-Ends k m rest le next (goes_on s) b q wf (fair, less) = next s b q wf fair less

module _ (j : Json) (from_utf8 : List ℕ → Option (List ℕ)) (scales : Scales)
    (updates_to_log : ℕ) where
  handle-Ends :
      (k : ℕ) (raw : List ℕ) (d : DecodedWithMeta) (s : Session) (b : OrderBook) (q : Queues)
      → k ≤ max_slots
      → IsWellFormed b q
      → FitsBook d
      → length b.slab + demand_of (Types.ok d) ≤ k
      → IsTallied s
      → s.errors < error_limit
      → Ends (IsFair k) (handle scales updates_to_log raw d s b)
  unfolding handle
  handle-Ends k raw DecodedWithMeta.skip s b q fits wf f room t few =
      ok-Ends (IsFair k) s b q wf
        (record { tallied = t; limited = omega arith; small = omega arith })
  handle-Ends k raw (DecodedWithMeta.snapshot orders cause) s b q fits wf f room t few =
      load_orders-Ends scales k raw orders cause s b fits (AreInRange-FitQty orders f) (omega arith)
        t few
  handle-Ends k raw (DecodedWithMeta.updates batch) s b q fits wf f room t few =
      apply_batch-Ends scales updates_to_log k raw batch s b q fits wf f.1 room t few

  handle_text-Ends :
      (k : ℕ) (raw : List ℕ) (s : Session) (b : OrderBook) (q : Queues)
      → k ≤ max_slots
      → IsWellFormed b q
      → length b.slab + demand_of (decode_line_with_meta j raw scales) ≤ k
      → IsTallied s
      → s.errors < error_limit
      → Ends (TurnIsFair k) (handle_text j from_utf8 scales updates_to_log raw s b)
  unfolding handle_text
  handle_text-Ends k raw s b q fits wf room t few =
      elim (Result-cases (decode_line_with_meta j raw scales)) [
        | inl (e, at) ↦
            rw (handle_text, at)
              (check_limit-Ends k (write (decode_error (s.errors + 1) e raw) (count_error s)) b q wf
                (record {
                  tallied = error-IsTallied (decode_error (s.errors + 1) e raw) s refl refl t;
                  limited = at_most s.errors few;
                  small = omega arith;
                }))
        | inr (d, at) ↦
            rw (handle_text, at)
              (then-Ends _
                (handle-Ends k raw d s b q fits wf (decode_line-FitsBook j scales raw at)
                  (subst (λ r. length b.slab + demand_of r ≤ k) at room) t few)
                (λ s' b' q' wf' fair. check_limit-Ends k s' b' q' wf' fair))
      ]

  -- The slots that a read may take.
  abbrev pub demand_of_read : Option Message → ℕ
  demand_of_read none = 0
  demand_of_read (some (text raw)) = demand_of (decode_line_with_meta j raw scales)
  demand_of_read (some (binary bytes)) = elim (from_utf8 bytes) [
    | none ↦ 0
    | some raw ↦ demand_of (decode_line_with_meta j raw scales)
  ]
  demand_of_read (some ping) = 0
  demand_of_read (some pong) = 0
  demand_of_read (some frame) = 0
  demand_of_read (some close) = 0

  abbrev pub demand : List (Option Message) → ℕ
  demand [] = 0
  demand (read ∷ reads) = demand_of_read read + demand reads

  -- A message that leaves the session and the book as they are, but for an event.
  handle_message-Ends :
      (k : ℕ) (message : Message) (s : Session) (b : OrderBook) (q : Queues)
      → k ≤ max_slots
      → IsWellFormed b q
      → length b.slab + demand_of_read (some message) ≤ k
      → IsTallied s
      → s.errors < error_limit
      → Ends (TurnIsFair k) (handle_message j from_utf8 scales updates_to_log message s b)
  unfolding handle_message
  handle_message-Ends k (text raw) s b q fits wf room t few =
      handle_text-Ends k raw s b q fits wf room t few
  handle_message-Ends k (binary bytes) s b q fits wf room t few =
      elim (Option-cases (from_utf8 bytes)) [
        | inl e ↦
            rw (handle_message, e)
              (check_limit-Ends k (write (binary_utf8_error (s.errors + 1)) (count_error s)) b q wf
                (record {
                  tallied = error-IsTallied (binary_utf8_error (s.errors + 1)) s refl refl t;
                  limited = at_most s.errors few;
                  small = omega arith;
                }))
        | inr (raw, e) ↦
            rw (handle_message, e)
              (handle_text-Ends k raw s b q fits wf (rw (demand_of_read, e) at room) t few)
      ]
  handle_message-Ends k ping s b q fits wf room t few =
      ok-Ends (TurnIsFair k) (goes_on s) b q wf
        (record { tallied = t; limited = omega arith; small = omega arith }, few)
  handle_message-Ends k pong s b q fits wf room t few =
      ok-Ends (TurnIsFair k) (goes_on s) b q wf
        (record { tallied = t; limited = omega arith; small = omega arith }, few)
  handle_message-Ends k frame s b q fits wf room t few =
      ok-Ends (TurnIsFair k) (goes_on s) b q wf
        (record { tallied = t; limited = omega arith; small = omega arith }, few)
  handle_message-Ends k close s b q fits wf room t few = ok-Ends (TurnIsFair k) _ b q wf (record {
    tallied =
        write-IsTallied (websocket_closed s.messages s.update_messages s.ops_applied s.errors) s
          refl refl t;
    limited = omega arith;
    small = omega arith;
  })

  handle_read-Ends :
      (k : ℕ) (read : Option Message) (s : Session) (b : OrderBook) (q : Queues)
      → k ≤ max_slots
      → IsWellFormed b q
      → length b.slab + demand_of_read read ≤ k
      → IsTallied s
      → s.errors < error_limit
      → Ends (TurnIsFair k) (handle_read j from_utf8 scales updates_to_log read s b)
  unfolding handle_read
  handle_read-Ends k none s b q fits wf room t few = ok-Ends (TurnIsFair k) _ b q wf (record {
    tallied = error-IsTallied (websocket_read_error (s.errors + 1)) s refl refl t;
    limited = at_most s.errors few;
    small = omega arith;
  })
  handle_read-Ends k (some message) s b q fits wf room t few =
      handle_message-Ends k message (record s { messages = s.messages + 1 }) b q fits wf room
        (record { numbered = t.numbered; reported = t.reported }) few

  read_loop-Ends :
      (k : ℕ) (reads : List (Option Message)) (s : Session) (b : OrderBook) (q : Queues)
      → k ≤ max_slots
      → IsWellFormed b q
      → length b.slab + demand reads ≤ k
      → IsTallied s
      → s.errors < error_limit
      → Ends (TurnIsFair k) (read_loop j from_utf8 scales updates_to_log reads s b)
  unfolding read_loop
  read_loop-Ends k [] s b q fits wf room t few =
      ok-Ends (TurnIsFair k) (goes_on s) b q wf
        (record { tallied = t; limited = omega arith; small = omega arith }, few)
  read_loop-Ends k (read ∷ reads) s b q fits wf room t few =
      then-Ends _
        (handle_read-Ends (length b.slab + demand_of_read read) read s b q (omega arith) wf
          (omega arith) t few)
        (turn-Ends k (length b.slab + demand_of_read read)
          (read_loop j from_utf8 scales updates_to_log reads) (omega arith)
          λ s' b' q' wf' fair less.
            read_loop-Ends k reads s' b' q' fits wf' (omega (arith, fair.small)) fair.tallied less)

  -- If what the messages read so far are decoded to fits into a slab, the program has not panicked and
  -- its book is well formed. The errors in its log are numbered from 1 up to its counter, which is
  -- 10 at most, and below 10 as long as the loop goes on; the counter of the applied operations is
  -- the number of those that the log reports.
  pub log_feed-IsFair :
      (reads : List (Option Message))
      → demand reads ≤ max_slots
      → Ends (TurnIsFair (demand reads)) (log_feed j from_utf8 scales updates_to_log reads)
  unfolding log_feed finish new_book
  log_feed-IsFair reads room =
      then-Ends _
        (read_loop-Ends (demand reads) reads (first_session j from_utf8 scales updates_to_log)
          new_book (λ s p. []) room new_book-IsWellFormed (omega arith)
          (record { numbered = refl; reported = omega arith }) (omega arith))
        finishes
    where
      finishes :
          (turn : Turn) (b : OrderBook) (q : Queues)
          → IsWellFormed b q
          → TurnIsFair (demand reads) turn b
          → Ends (TurnIsFair (demand reads)) (elim turn [
            | breaks s ↦ ok (breaks (finish j from_utf8 scales updates_to_log s b)) b
            | goes_on s ↦ ok (goes_on s) b
          ])
      finishes (goes_on s) b q wf fair = ok-Ends (TurnIsFair (demand reads)) (goes_on s) b q wf fair
      finishes (breaks s) b q wf fair = ok-Ends (TurnIsFair (demand reads)) _ b q wf (record {
        tallied = write-IsTallied _ s refl refl fair.tallied;
        limited = fair.limited;
        small = fair.small;
      })
