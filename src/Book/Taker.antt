-- ===== src/Book/Taker.antt =====
-- src/book.rs: matching of taker orders, and submission of limit orders.
use l4_book.Prelude.{
  ℕ, List, [], ◌∷◌, ◌++◌, Option, none, some, ◌>>=◌, ◌==◌, if◌then◌else◌, leb, ltb, Bool, true,
  false, add_u128, mul_u128, ◌-◌, min, not, ◌&&◌, ℕ_discrete,
}
use l4_book.Types.{
  Order, Price, Qty, Side, bid, ask, zero_qty, duplicate_order_id, FillDelta, TakerMatch,
  is_complete, LimitOrderPolicy, gtc, ioc, fok, post_only, SubmitRejectReason,
  post_only_would_cross, fill_or_kill_would_not_fill, SubmitLimitOrderOutcome,
}
use l4_book.Containers.HashMap
use l4_book.Book.{OrderBook, Run, ok, err, panic, and_then, discard, add, remove, update_size}
use l4_book.Book.Queries.{best_bid, best_ask, depth, DepthItem, orders_at}
use l4_book.Book.Slippage.{limit_allows, opposite, reference, average}

-- The variables of the loops of `match_taker_order`.
pub record Matching : Type 0 where
  pub remaining : Qty
  pub notional : ℕ
  pub fills : List FillDelta
  pub limit_stopped : Bool

unfoldable pub fill_of : Order → Qty → FillDelta
fill_of maker filled = record {
  maker_order_id = maker.id;
  maker_wallet = maker.wallet;
  maker_side = maker.side;
  price = maker.price;
  filled_qty = filled;
  maker_qty_before = maker.qty;
  maker_qty_after = maker.qty - filled;
  maker_removed = maker.qty - filled == 0;
}

unfoldable pub fill_maker : Order → Matching → Matching
unfolding fill_of
fill_maker maker s =
    let filled = min s.remaining maker.qty in
    record s {
      remaining = s.remaining - filled;
      notional = add_u128 s.notional (mul_u128 maker.price filled);
      fills = s.fills ++ fill_of maker filled ∷ [];
    }

unfoldable pub match_makers : List Order → Matching → Matching
unfolding fill_maker
match_makers [] s = s
match_makers (maker ∷ makers) s =
    let rest = match_makers makers (fill_maker maker s) in if s.remaining == 0 then s else rest

-- The orders of each level are listed before the walk over them.
unfoldable pub match_levels : Side → Price → OrderBook → List DepthItem → Matching → Option Matching
unfolding limit_allows match_makers opposite
match_levels side limit b [] s = some s
match_levels side limit b ((price, _, _) ∷ items) s =
    if not (limit_allows side price limit) then some (record s { limit_stopped = true }) else (do
      makers ← orders_at (opposite side) price b
      let s' = match_makers makers s
      let rest = match_levels side limit b items s'
      if s'.remaining == 0 then some s' else rest)

unfoldable pub match_walk : Side → Qty → Price → OrderBook → Option Matching
unfolding match_levels
match_walk side qty limit b =
    let start : Matching = record {
      remaining = qty;
      notional = 0;
      fills = [];
      limit_stopped = false;
    } in
    if ltb 0 qty then match_levels side limit b (depth (opposite side) b) start else some start

unfoldable pub match_taker_order : Side → Qty → Price → OrderBook → Option TakerMatch
unfolding match_walk average reference
match_taker_order side qty limit b = do
  s ← match_walk side qty limit b
  some (record {
    taker_side = side;
    requested_qty = qty;
    filled_qty = qty - s.remaining;
    unfilled_qty = s.remaining;
    filled_notional = s.notional;
    limit_price = limit;
    reference_price = reference side b;
    average_price = average s.notional (qty - s.remaining);
    fills = s.fills;
    limit_stopped = s.limit_stopped;
    exhausted_book = ltb 0 s.remaining && not s.limit_stopped;
  })

unfoldable pub apply_fill : FillDelta → OrderBook → Run (Unit {0})
apply_fill fill b =
    if fill.maker_removed
    then discard (remove fill.maker_order_id b)
    else update_size fill.maker_order_id fill.maker_qty_after b

unfoldable pub apply_fills : List FillDelta → OrderBook → Run (Unit {0})
unfolding apply_fill
apply_fills [] b = ok tt b
apply_fills (fill ∷ fills) b = and_then (apply_fill fill b) (λ _ b'. apply_fills fills b')

unfoldable pub apply_taker_order : Side → Qty → Price → OrderBook → Run TakerMatch
unfolding apply_fills
apply_taker_order side qty limit b =
    if qty == 0 then err zero_qty b else elim (match_taker_order side qty limit b) [
      | none ↦ panic
      | some m ↦ and_then (apply_fills m.fills b) (λ _ b'. ok m b')
    ]

unfoldable pub limit_order_would_cross : Side → Price → OrderBook → Bool
limit_order_would_cross bid price b = elim (best_ask b) [ none ↦ false | some p ↦ leb p price ]
limit_order_would_cross ask price b = elim (best_bid b) [ none ↦ false | some p ↦ leb price p ]

abbrev pub outcome :
    LimitOrderPolicy
    → Option SubmitRejectReason
    → TakerMatch
    → Option Order
    → SubmitLimitOrderOutcome
outcome policy rejected m rested = record {
  policy = policy;
  rejected = rejected;
  taker_match = m;
  rested_order = rested;
}

-- The four arms of `submit_limit_order`.
unfoldable pub rest_remainder : Order → TakerMatch → OrderBook → Run SubmitLimitOrderOutcome
rest_remainder order m b =
    if ltb 0 m.unfilled_qty
    then (let rested = record order { qty = m.unfilled_qty } in
        and_then (add rested b) (λ _ b'. ok (outcome gtc none m (some rested)) b'))
    else ok (outcome gtc none m none) b

unfoldable pub submit_gtc : Order → OrderBook → Run SubmitLimitOrderOutcome
unfolding rest_remainder
submit_gtc order b =
    and_then (apply_taker_order order.side order.qty order.price b) (rest_remainder order)

unfoldable pub submit_ioc : Order → OrderBook → Run SubmitLimitOrderOutcome
submit_ioc order b =
    and_then (apply_taker_order order.side order.qty order.price b)
      (λ m b'. ok (outcome ioc none m none) b')

unfoldable pub submit_fok : Order → OrderBook → Run SubmitLimitOrderOutcome
unfolding is_complete
submit_fok order b = elim (match_taker_order order.side order.qty order.price b) [
  | none ↦ panic
  | some simulated ↦
      if not (is_complete simulated)
      then ok (outcome fok (some fill_or_kill_would_not_fill) simulated none) b
      else and_then (apply_taker_order order.side order.qty order.price b)
          (λ m b'. ok (outcome fok none m none) b')
]

unfoldable pub submit_post_only : Order → OrderBook → Run SubmitLimitOrderOutcome
unfolding limit_order_would_cross
submit_post_only order b = elim (match_taker_order order.side order.qty order.price b) [
  | none ↦ panic
  | some m ↦
      if limit_order_would_cross order.side order.price b
      then ok (outcome post_only (some post_only_would_cross) m none) b
      else and_then (add order b) (λ _ b'. ok (outcome post_only none m (some order)) b')
]

unfoldable pub submit_by : LimitOrderPolicy → Order → OrderBook → Run SubmitLimitOrderOutcome
unfolding submit_gtc submit_ioc submit_fok submit_post_only
submit_by gtc = submit_gtc
submit_by ioc = submit_ioc
submit_by fok = submit_fok
submit_by post_only = submit_post_only

unfoldable pub submit_limit_order :
    Order → LimitOrderPolicy → OrderBook → Run SubmitLimitOrderOutcome
unfolding submit_by
submit_limit_order order policy b =
    if order.qty == 0
    then err zero_qty b
    else if HashMap.contains_key ℕ_discrete order.id b.order_index
    then err (duplicate_order_id order.id) b
    else submit_by policy order b
