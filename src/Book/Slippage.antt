-- ===== src/Book/Slippage.antt =====
-- src/book.rs: the estimate of the slippage of a taker order.
use l4_book.Prelude.{
  ℕ, List, [], ◌∷◌, Option, none, some, ◌==◌, if◌then◌else◌, leb, ltb, Bool, true, false, add_u128,
  mul_u128, ◌-◌, min, not, ◌&&◌,
}
use l4_book.Types.{Price, Qty, Side, bid, ask, F64, of_int}
use l4_book.Book.{OrderBook}
use l4_book.Book.Queries.{best_bid, best_ask, depth, DepthItem}

unfoldable pub limit_allows : Side → Price → Price → Bool
limit_allows bid resting limit = leb resting limit
limit_allows ask resting limit = leb limit resting

unfoldable pub opposite : Side → Side
opposite bid = ask
opposite ask = bid

unfoldable pub reference : Side → OrderBook → Option Price
reference bid b = best_ask b
reference ask b = best_bid b

pub record SlippageEstimate : Type 0 where
  pub taker_side : Side
  pub requested_qty : Qty
  pub filled_qty : Qty
  pub unfilled_qty : Qty
  pub filled_notional : ℕ
  pub limit_price : Price
  pub reference_price : Option Price
  pub average_price : Option F64
  pub slippage : Option F64
  pub slippage_notional : Option ℕ
  pub slippage_pct : Option F64
  pub limit_stopped : Bool
  pub exhausted_book : Bool

-- The variables of the loop of `estimate_slippage`.
pub record Estimate : Type 0 where
  pub remaining : Qty
  pub notional : ℕ
  pub limit_stopped : Bool

unfoldable pub estimate_loop : Side → Price → List DepthItem → Estimate → Estimate
estimate_loop side limit [] s = s
estimate_loop side limit ((price, level_qty, _) ∷ items) s =
    let taken = min s.remaining level_qty in
    let s' : Estimate = record s {
      remaining = s.remaining - taken;
      notional = add_u128 s.notional (mul_u128 price taken);
    } in
    let rest = estimate_loop side limit items s' in
    if not (limit_allows side price limit)
    then record s { limit_stopped = true }
    else if s'.remaining == 0
    then s'
    else rest

unfoldable pub average : ℕ → Qty → Option F64
average notional filled =
    if ltb 0 filled then some (F64.div (of_int notional) (of_int filled)) else none

unfoldable pub slippage_of : Side → Option F64 → Option Price → Option F64
slippage_of side none r = none
slippage_of side (some avg) none = none
slippage_of bid (some avg) (some r) = some (F64.sub avg (of_int r))
slippage_of ask (some avg) (some r) = some (F64.sub (of_int r) avg)

unfoldable pub slippage_pct_of : Option F64 → Option Price → Option F64
slippage_pct_of none r = none
slippage_pct_of (some slip) none = none
slippage_pct_of (some slip) (some r) =
    if ltb 0 r then some (F64.mul (F64.div slip (of_int r)) (of_int 100)) else none

-- `-` stops at 0, as `saturating_sub` does.
unfoldable pub adverse_notional : Side → ℕ → ℕ → ℕ
adverse_notional bid notional reference_notional = notional - reference_notional
adverse_notional ask notional reference_notional = reference_notional - notional

unfoldable pub slippage_notional_of : Side → ℕ → Qty → Option Price → Option ℕ
unfolding adverse_notional
slippage_notional_of side notional filled none = none
slippage_notional_of side notional filled (some r) =
    if ltb 0 filled then some (adverse_notional side notional (mul_u128 r filled)) else none

unfoldable pub estimate_walk : Side → Qty → Price → OrderBook → Estimate
unfolding estimate_loop opposite
estimate_walk side qty limit b =
    let start : Estimate = record { remaining = qty; notional = 0; limit_stopped = false } in
    if ltb 0 qty then estimate_loop side limit (depth (opposite side) b) start else start

unfoldable pub estimate_slippage : Side → Qty → Price → OrderBook → SlippageEstimate
unfolding estimate_walk reference average slippage_of slippage_pct_of slippage_notional_of
estimate_slippage side qty limit b =
    let s = estimate_walk side qty limit b in
    let r = reference side b in
    let filled = qty - s.remaining in
    let avg = average s.notional filled in
    let slip = slippage_of side avg r in
    record {
      taker_side = side;
      requested_qty = qty;
      filled_qty = filled;
      unfilled_qty = s.remaining;
      filled_notional = s.notional;
      limit_price = limit;
      reference_price = r;
      average_price = avg;
      slippage = slip;
      slippage_notional = slippage_notional_of side s.notional filled r;
      slippage_pct = slippage_pct_of slip r;
      limit_stopped = s.limit_stopped;
      exhausted_book = ltb 0 s.remaining && not s.limit_stopped;
    }
