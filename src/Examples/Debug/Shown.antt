-- ===== src/Examples/Debug/Shown.antt =====
-- What the values of a full snapshot tell of a book, when their texts are read.
use l4_book.Prelude.{
  ℕ, ◌%◌, ◌≡◌, ◌≢◌, List, [], ◌∷◌, Option, none, some, length, Bool, true, false, ◌||◌, ◌==◌,
  u64_mod, All, Ordered,
}
use l4_book.Text.{codes}
use l4_book.Types.{Order, Side, bid, ask, Price}
use l4_book.Types.Wallets.{from_hex}
use l4_book.Slab.Chain.{Cells}
use l4_book.Slab.Cells.{orders_of, sum_qty}
use l4_book.Book.{OrderBook}
use l4_book.Book.Checks.{count_live}
use l4_book.Book.Depths.{IsBetter}
use l4_book.Book.Invariant.{Queues}
use l4_book.Dwellir.Types.{Scales}
use l4_book.Dwellir.Fixed.{parse_fixed}
use l4_book.Examples.Debug.Values.{OrderValue, LevelValue, BookValue}

abbrev pub IsNamed : Side → List ℕ → Type 0
IsNamed bid name = name ≡ codes "bid"
IsNamed ask name = name ≡ codes "ask"

-- The value tells the order: its numbers, and its texts when they are read.
pub record ShowsOrder (scales : Scales) (v : OrderValue) (o : Order) : Type 0 where
  pub id : v.id ≡ o.id
  pub wallet : from_hex v.wallet ≡ some o.wallet
  pub side : IsNamed o.side v.side
  pub price : parse_fixed v.price scales.price_digits ≡ some o.price
  pub raw_price : v.raw_price ≡ o.price
  pub qty : parse_fixed v.qty scales.qty_digits ≡ some o.qty
  pub raw_qty : v.raw_qty ≡ o.qty
  pub ts : v.ts ≡ o.ts

abbrev pub ShowOrders : Scales → List OrderValue → List Order → Type 0
ShowOrders scales [] [] = Unit {0}
ShowOrders scales [] (o ∷ os) = ⊥
ShowOrders scales (v ∷ vs) [] = ⊥
ShowOrders scales (v ∷ vs) (o ∷ os) = ShowsOrder scales v o × ShowOrders scales vs os

-- The value tells a queue that is not empty.
pub record ShowsQueue (scales : Scales) (v : LevelValue) (xs : Cells) : Type 0 where
  pub occupied : xs ≢ []
  pub price : parse_fixed v.price scales.price_digits ≡ some v.raw_price
  pub raw_total_qty : v.raw_total_qty ≡ sum_qty xs % u64_mod
  pub total_qty : parse_fixed v.total_qty scales.qty_digits ≡ some v.raw_total_qty
  pub order_count : v.order_count ≡ length xs
  pub orders : ShowOrders scales v.orders (orders_of xs)

abbrev pub shown : Price → List LevelValue → Bool
shown p [] = false
shown p (v ∷ vs) = p == v.raw_price || shown p vs

-- The values tell the queues of one side, the best price first, and no other order rests there.
pub record ShowsSide (scales : Scales) (s : Side) (q : Queues) (vs : List LevelValue) : Type 0 where
  pub best_first : Ordered (λ v w. IsBetter s v.raw_price w.raw_price) vs
  pub exact : All (λ v. ShowsQueue scales v (q s v.raw_price)) vs
  pub complete : (p : Price) → q s p ≢ [] → shown p vs ≡ true

-- The text of the best price is that of the first level, and absent without one.
abbrev pub IsBest : Scales → Option (List ℕ) → List LevelValue → Type 0
IsBest scales text [] = text ≡ none
IsBest scales text (v ∷ vs) =
    (t : List ℕ) × (text ≡ some t) × (parse_fixed t scales.price_digits ≡ some v.raw_price)

pub record ShowsBook (scales : Scales) (b : OrderBook) (q : Queues) (v : BookValue) : Type 0 where
  pub len : v.len ≡ count_live b.slab
  pub best_bid : IsBest scales v.best_bid v.bids
  pub best_ask : IsBest scales v.best_ask v.asks
  pub bids : ShowsSide scales bid q v.bids
  pub asks : ShowsSide scales ask q v.asks
