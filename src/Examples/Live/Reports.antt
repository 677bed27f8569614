-- ===== src/Examples/Live/Reports.antt =====
-- examples/dwellir_live_sp500.rs: what the program reports of the book. Texts of `f64` values are left
-- out in favour of the values.
use l4_book.Prelude.{
  ℕ, ◌+◌, ◌-◌, List, [], ◌∷◌, Option, none, some, ◌>>=◌, Bool, map, u64_mod, ◌==◌,
}
use l4_book.Text.{codes}
use l4_book.Text.Decimal.{pow10}
use l4_book.Types.{Price, Qty, Side, bid, ask, F64, of_int}
use l4_book.Book.{OrderBook, len}
use l4_book.Book.Queries.{
  AggregatedLevel, UnaggregatedTopLevels, best_bid, best_ask, top_n_levels, top_n_levels_aggregated,
}
use l4_book.Book.Slippage.{SlippageEstimate, estimate_slippage}
use l4_book.Dwellir.Types.{Scales}
use l4_book.Examples.Notional.{qty_for_notional}
use l4_book.Examples.Scaled.{fmt_scaled}

abbrev or_na : Option (List ℕ) → List ℕ
or_na none = codes "n/a"
or_na (some s) = s

abbrev pub fmt_price_opt : Option Price → Scales → List ℕ
fmt_price_opt none scales = codes "n/a"
fmt_price_opt (some p) scales = fmt_scaled p scales.price_digits

abbrev pub scale_f64 : ℕ → F64
scale_f64 digits = of_int (pow10 digits)

-- What `fmt_avg_price` prints.
abbrev pub scaled_price : Option F64 → Scales → Option F64
scaled_price none scales = none
scaled_price (some p) scales = some (F64.div p (scale_f64 scales.price_digits))

pub record LevelLine : Type 0 where
  pub px : List ℕ
  pub qty : List ℕ
  pub orders : ℕ

abbrev pub level_line : Scales → AggregatedLevel → LevelLine
level_line scales level = record {
  px = fmt_scaled level.price scales.price_digits;
  qty = fmt_scaled level.total_qty scales.qty_digits;
  orders = level.order_count;
}

pub record Slippage : Type 0 where
  pub taker : List ℕ
  pub notional_usd : ℕ
  pub qty : List ℕ
  pub filled : List ℕ
  pub unfilled : List ℕ
  pub avg_px : Option F64
  pub ref_px : List ℕ
  pub slip_px : Option F64
  pub slip_notional : List ℕ
  pub slip_pct : Option F64
  pub complete : Bool
  pub exhausted : Bool

-- The three lines that `log_slippage` may print.
pub data SlippageLine : Type 0 where
  missing_opposite_quote : Side → ℕ → SlippageLine
  bad_reference_price : Side → ℕ → SlippageLine
  estimated : Slippage → SlippageLine

abbrev pub taker_name : Side → List ℕ
taker_name bid = codes "buy"
taker_name ask = codes "sell"

abbrev pub reference_of : Side → OrderBook → Option Price
reference_of bid b = best_ask b
reference_of ask b = best_bid b

abbrev pub limit_of : Side → Price
limit_of bid = u64_mod - 1
limit_of ask = 0

abbrev notional_text : Option ℕ → Scales → Option (List ℕ)
notional_text none scales = none
notional_text (some n) scales = some (fmt_scaled n (scales.price_digits + scales.qty_digits))

unfoldable pub slippage_line : Scales → Side → ℕ → Qty → SlippageEstimate → SlippageLine
slippage_line scales side notional_usd qty estimate = estimated (record {
  taker = taker_name side;
  notional_usd = notional_usd;
  qty = fmt_scaled qty scales.qty_digits;
  filled = fmt_scaled estimate.filled_qty scales.qty_digits;
  unfilled = fmt_scaled estimate.unfilled_qty scales.qty_digits;
  avg_px = scaled_price estimate.average_price scales;
  ref_px = fmt_price_opt estimate.reference_price scales;
  slip_px = scaled_price estimate.slippage scales;
  slip_notional = or_na (notional_text estimate.slippage_notional scales);
  slip_pct = estimate.slippage_pct;
  complete = estimate.unfilled_qty == 0;
  exhausted = estimate.exhausted_book;
})

unfoldable pub log_slippage : OrderBook → Scales → Side → ℕ → SlippageLine
unfolding slippage_line
log_slippage b scales side notional_usd = elim (reference_of side b) [
  | none ↦ missing_opposite_quote side notional_usd
  | some reference_price ↦ elim (qty_for_notional notional_usd reference_price scales) [
    | none ↦ bad_reference_price side notional_usd
    | some qty ↦
        slippage_line scales side notional_usd qty (estimate_slippage side qty (limit_of side) b)
  ]
]

-- `NOTIONALS_USD`
abbrev pub notionals_usd : List ℕ
notionals_usd = 1000 ∷ 100000 ∷ []

unfoldable pub slippages : OrderBook → Scales → List ℕ → List SlippageLine
unfolding log_slippage
slippages b scales [] = []
slippages b scales (notional ∷ notionals) =
    log_slippage b scales bid notional
    ∷ log_slippage b scales ask notional
    ∷ slippages b scales notionals

-- The counters and the time of a report.
pub record Header : Type 0 where
  pub elapsed : ℕ
  pub messages : ℕ
  pub updates : ℕ
  pub ops_applied : ℕ
  pub op_errors : ℕ

pub record Report : Type 0 where
  pub header : Header
  pub len : ℕ
  pub best_bid : List ℕ
  pub best_ask : List ℕ
  pub unaggregated : UnaggregatedTopLevels
  pub aggregated_bids : List LevelLine
  pub aggregated_asks : List LevelLine
  pub slippages : List SlippageLine

unfoldable pub log_report : OrderBook → Scales → Header → Option Report
unfolding slippages
log_report b scales header = do
  unaggregated ← top_n_levels 5 b
  let aggregated = top_n_levels_aggregated 5 b
  some (record {
    header = header;
    len = len b;
    best_bid = fmt_price_opt (best_bid b) scales;
    best_ask = fmt_price_opt (best_ask b) scales;
    unaggregated = unaggregated;
    aggregated_bids = map (level_line scales) aggregated.bids;
    aggregated_asks = map (level_line scales) aggregated.asks;
    slippages = slippages b scales notionals_usd;
  })
