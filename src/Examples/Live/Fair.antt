-- ===== src/Examples/Live/Fair.antt =====
-- The program does not panic, and counts every operation.
use l4_book.Prelude.{
  ℕ, ◌+◌, ◌≤◌, subst, List, [], ◌∷◌, Option, none, some, arith, length, Option-cases, inl, inr,
}
use l4_book.Book.{OrderBook, new_book, max_slots}
use l4_book.Book.Invariant.{IsWellFormed, Queues}
use l4_book.Book.Ops.{new_book-IsWellFormed}
use l4_book.Dwellir.Json.{Json}
use l4_book.Dwellir.Lines.{decode_line, decode_line_with_meta, strip_decoded}
use l4_book.Dwellir.Lines.Ranges.{decode_line-FitsBook}
use l4_book.Dwellir.Types.{Scales, Result, Decoded, map_ok}
use l4_book.Examples.Live.{
  Feed, goes_on, breaks, fails, Read, receive_text, receive, read_once, live_loop, live_feed,
  first_feed,
}
use l4_book.Examples.Running.{Ends, then-Ends, ok-Ends, Result-cases}
use l4_book.Examples.Socket.{Message, text, binary, ping, pong, frame, close}
use l4_book.Examples.Live.Steps.{
  handled, ops_in, slots_in, FlowIsFair, flow-Ends, apply_decoded-Ends, after_message-Ends,
}

module _ (j : Json) (from_utf8 : List ℕ → Option (List ℕ)) (scales : Scales) where
  abbrev weigh : (Result Decoded → ℕ) → Option Message → ℕ
  weigh f none = 0
  weigh f (some (text raw)) = f (decode_line j raw scales)
  weigh f (some (binary bytes)) = elim (from_utf8 bytes) [
    | none ↦ 0
    | some raw ↦ f (decode_line j raw scales)
  ]
  weigh f (some ping) = 0
  weigh f (some pong) = 0
  weigh f (some frame) = 0
  weigh f (some close) = 0

  abbrev sum_over : (Result Decoded → ℕ) → List Read → ℕ
  sum_over f [] = 0
  sum_over f (read ∷ reads) = weigh f read.message + sum_over f reads

  -- The operations in the messages that are read, and the slots that they may take.
  abbrev pub all_ops : List Read → ℕ
  all_ops = sum_over ops_in

  abbrev pub all_slots : List Read → ℕ
  all_slots = sum_over slots_in

  receive_text-Ends :
      (t now k : ℕ) (raw : List ℕ) (s : Feed) (b : OrderBook) (q : Queues)
      → k ≤ max_slots
      → IsWellFormed b q
      → length b.slab + slots_in (decode_line j raw scales) ≤ k
      → Ends
          (FlowIsFair k (handled s + ops_in (decode_line j raw scales)))
          (receive_text j from_utf8 scales t now raw s b)
  unfolding receive_text decode_line
  receive_text-Ends t now k raw s b q fits wf room =
      elim (Result-cases (decode_line_with_meta j raw scales)) [
        | inl (e, at) ↦
            rw (receive_text, decode_line, at)
              (ok-Ends (FlowIsFair k (handled s + 0)) (fails s) b q wf (omega arith, omega arith))
        | inr (d, at) ↦
            rw (receive_text, decode_line, at)
              (then-Ends _
                (apply_decoded-Ends t k d s b q fits wf (decode_line-FitsBook j scales raw at)
                  (subst (λ r. length b.slab + slots_in (map_ok strip_decoded r) ≤ k) at room))
                (λ flow b' q' wf' fair. after_message-Ends scales now k _ flow b' q' wf' fair))
      ]

  receive-Ends :
      (t now k : ℕ) (message : Message) (s : Feed) (b : OrderBook) (q : Queues)
      → k ≤ max_slots
      → IsWellFormed b q
      → length b.slab + weigh slots_in (some message) ≤ k
      → Ends
          (FlowIsFair k (handled s + weigh ops_in (some message)))
          (receive j from_utf8 scales t now message s b)
  unfolding receive
  receive-Ends t now k (text raw) s b q fits wf room =
      receive_text-Ends t now k raw s b q fits wf room
  receive-Ends t now k (binary bytes) s b q fits wf room = elim (Option-cases (from_utf8 bytes)) [
    | inl e ↦
        rw (receive, weigh, e)
          (ok-Ends (FlowIsFair k (handled s + 0)) (fails s) b q wf (omega arith, omega arith))
    | inr (raw, e) ↦
        rw (receive, weigh, e) (receive_text-Ends t now k raw s b q fits wf (rw (weigh, e) at room))
  ]
  receive-Ends t now k ping s b q fits wf room =
      ok-Ends (FlowIsFair k (handled s + 0)) (goes_on s) b q wf (omega arith, omega arith)
  receive-Ends t now k pong s b q fits wf room =
      ok-Ends (FlowIsFair k (handled s + 0)) (goes_on s) b q wf (omega arith, omega arith)
  receive-Ends t now k frame s b q fits wf room =
      ok-Ends (FlowIsFair k (handled s + 0)) (goes_on s) b q wf (omega arith, omega arith)
  receive-Ends t now k close s b q fits wf room =
      ok-Ends (FlowIsFair k (handled s + 0)) (breaks s) b q wf (omega arith, omega arith)

  read_once-Ends :
      (k : ℕ) (read : Read) (s : Feed) (b : OrderBook) (q : Queues)
      → k ≤ max_slots
      → IsWellFormed b q
      → length b.slab + weigh slots_in read.message ≤ k
      → Ends
          (FlowIsFair k (handled s + weigh ops_in read.message))
          (read_once j from_utf8 scales read s b)
  unfolding read_once
  read_once-Ends k read s b q fits wf room = elim (Option-cases read.message) [
    | inl e ↦
        rw (read_once, weigh, e)
          (ok-Ends (FlowIsFair k (handled s + 0)) (fails s) b q wf (omega arith, omega arith))
    | inr (message, e) ↦
        rw (read_once, e)
          (receive-Ends read.snapshot_now read.now k message
            (record s { messages = s.messages + 1 }) b q fits wf (rw e at room))
  ]

  live_loop-Ends :
      (k : ℕ) (reads : List Read) (s : Feed) (b : OrderBook) (q : Queues)
      → k ≤ max_slots
      → IsWellFormed b q
      → length b.slab + all_slots reads ≤ k
      → Ends (FlowIsFair k (handled s + all_ops reads)) (live_loop j from_utf8 scales reads s b)
  unfolding live_loop
  live_loop-Ends k [] s b q fits wf room =
      ok-Ends (FlowIsFair k (handled s + 0)) (goes_on s) b q wf (omega arith, omega arith)
  live_loop-Ends k (read ∷ reads) s b q fits wf room =
      let m = length b.slab + weigh slots_in read.message in
      let n = handled s + weigh ops_in read.message in
      then-Ends _ (read_once-Ends m read s b q (omega arith) wf (omega arith)) (
        flow-Ends k m n (handled s + all_ops (read ∷ reads)) (live_loop j from_utf8 scales reads)
          (omega arith) (omega arith)
          λ s' b' q' wf' small total.
            subst (λ n. Ends (FlowIsFair k n) (live_loop j from_utf8 scales reads s' b'))
              (omega (arith, total))
              (live_loop-Ends k reads s' b' q' fits wf' (omega (arith, small))))

  -- If what the messages read so far are decoded to fits into a slab, the program has not panicked, also
  -- not in a report, and its book is well formed. As long as the loop goes on, the counters of the
  -- applied operations and of the errors add up to the operations of all the messages; when it
  -- is left or fails, to no more than those.
  pub live_feed-IsFair :
      (reads : List Read)
      → all_slots reads ≤ max_slots
      → Ends (FlowIsFair (all_slots reads) (all_ops reads)) (live_feed j from_utf8 scales reads)
  unfolding live_feed new_book
  live_feed-IsFair reads room =
      subst (λ n. Ends (FlowIsFair (all_slots reads) n) (live_feed j from_utf8 scales reads))
        (omega arith)
        (live_loop-Ends (all_slots reads) reads first_feed new_book (λ s p. []) room
          new_book-IsWellFormed (omega arith))
