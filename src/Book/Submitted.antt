-- ===== src/Book/Submitted.antt =====
-- Limit orders that are refused: fill-or-kill without enough to fill, post-only that would cross.
use l4_book.Prelude.{
  ◌<◌, ◌≤◌, ◌≡◌, ◌≢◌, refl, [], none, some, arith, ℕ_discrete, false, true, ==_ne,
}
use l4_book.Types.{
  Order, Price, Side, bid, ask, TakerMatch, is_complete, fok, post_only,
  fill_or_kill_would_not_fill, post_only_would_cross,
}
use l4_book.Containers.HashMap
use l4_book.Book.{OrderBook, ok}
use l4_book.Book.Invariant.{IsWellFormed, Queues}
use l4_book.Book.Matched.{available, match_taker_order-available}
use l4_book.Book.Best.{best_ask-lowest, best_bid-highest}
use l4_book.Book.Queries.{depth}
use l4_book.Book.Slippage.{opposite}
use l4_book.Book.Taker.{
  limit_order_would_cross, outcome, submit_limit_order, submit_by, submit_fok, submit_post_only,
}

-- A price on one side at which an order with this limit on the other side trades.
abbrev pub Crosses : Side → Price → Price → Type 0
Crosses bid limit p = p ≤ limit
Crosses ask limit p = limit ≤ p

module _ (b : OrderBook) (q : Queues) (wf : IsWellFormed b q) where
  -- On a well-formed book a fill-or-kill order of a new identifier is refused and leaves the book
  -- as it was, if less than its size rests up to its limit.
  pub submit_limit_order-fill_or_kill :
      (o : Order)
      → HashMap.contains_key ℕ_discrete o.id b.order_index ≡ false
      → available o.side o.price q (depth (opposite o.side) b) < o.qty
      → (m : TakerMatch) × (submit_limit_order o fok b
          ≡ ok (outcome fok (some fill_or_kill_would_not_fill) m none) b)
  unfolding submit_limit_order submit_by submit_fok is_complete
  submit_limit_order-fill_or_kill o fresh short =
      let (m, e, left, _, _) = match_taker_order-available b q wf o.side o.qty o.price in
      (
        m,
        rw (==_ne o.qty 0 (omega arith), fresh, submit_fok, e, ==_ne m.unfilled_qty 0 (omega arith))
            refl,
      )

  would_cross :
      (s : Side) (limit p : Price)
      → q (opposite s) p ≢ []
      → Crosses s limit p
      → limit_order_would_cross s limit b ≡ true
  unfolding limit_order_would_cross opposite
  would_cross bid limit p busy c =
      let (best, e, _, le) = best_ask-lowest b q wf p busy in
      rw (e, limit_order_would_cross) (ground arith)
  would_cross ask limit p busy c =
      let (best, e, _, le) = best_bid-highest b q wf p busy in
      rw (e, limit_order_would_cross) (ground arith)

  -- On a well-formed book a post-only order of positive size and a new identifier is refused and
  -- leaves the book as it was, if an order rests on the other side at a price that it crosses.
  pub submit_limit_order-post_only :
      (o : Order) (p : Price)
      → 0 < o.qty
      → HashMap.contains_key ℕ_discrete o.id b.order_index ≡ false
      → q (opposite o.side) p ≢ []
      → Crosses o.side o.price p
      → (m : TakerMatch) × (submit_limit_order o post_only b
          ≡ ok (outcome post_only (some post_only_would_cross) m none) b)
  unfolding submit_limit_order submit_by submit_post_only
  submit_limit_order-post_only o p pos fresh busy c =
      let (m, e, _, _, _) = match_taker_order-available b q wf o.side o.qty o.price in
      (
        m,
        rw
            (
              ==_ne o.qty 0 (omega arith),
              fresh,
              submit_post_only,
              e,
              would_cross o.side o.price p busy c,
            )
            refl,
      )
