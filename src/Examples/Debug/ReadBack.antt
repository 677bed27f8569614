-- ===== src/Examples/Debug/ReadBack.antt =====
-- What a full snapshot in the log says of the book, when its texts are read back.
use l4_book.Prelude.{
  ℕ, ◌%◌, ◌≤◌, ◌<◌, ◌≡◌, ◌≢◌, refl, ap, sym, ◌∙◌, subst, List, [], ◌∷◌, some, arith, length, map,
  true, ◌||◌, ◌==◌, u64_mod, All, All-imp, All-map, Ordered-map,
}
use l4_book.Types.{Order, Side, bid, ask, Price}
use l4_book.Types.Wallets.{from_hex-fmt}
use l4_book.Slab.Chain.{Cells, has}
use l4_book.Slab.Cells.{orders_of, sum_qty}
use l4_book.Book.{OrderBook, len}
use l4_book.Book.Checks.Counts.{index-count_live}
use l4_book.Book.Depths.{lists, depth-IsDepth}
use l4_book.Book.Depths.First.{best_of, best_bid-depth, best_ask-depth}
use l4_book.Book.Invariant.{IsWellFormed, Queues, order_at, rests, here, here-eq}
use l4_book.Book.Kept.{AreIn, queue-AreIn}
use l4_book.Book.Queries.{DepthItem, depth}
use l4_book.Dwellir.Types.{Scales}
use l4_book.Dwellir.Printed.{IsPrintable}
use l4_book.Examples.Debug.Full.{queue_to_value, book_snapshot-queues}
use l4_book.Examples.Debug.Shown.{
  IsNamed, ShowsOrder, ShowOrders, ShowsQueue, ShowsSide, IsBest, ShowsBook, shown,
}
use l4_book.Examples.Debug.Values.{
  BookValue, order_to_value, side_name, level_to_value, price_to_value, book_snapshot,
}
use l4_book.Examples.Scaled.{fmt_scaled}
use l4_book.Examples.Scaled.RoundTrip.{parse_fixed-fmt_scaled}

module _ (scales : Scales) (few_price : scales.price_digits ≤ 19)
    (few_qty : scales.qty_digits ≤ 19) where
  order_to_value-Shows : (o : Order) → IsPrintable o → ShowsOrder scales (order_to_value scales o) o
  unfolding order_to_value
  order_to_value-Shows o fine = record {
    id = refl;
    wallet = from_hex-fmt o.wallet fine.twenty fine.bytes;
    side = named o.side;
    price = parse_fixed-fmt_scaled o.price scales.price_digits fine.price_small few_price;
    raw_price = refl;
    qty = parse_fixed-fmt_scaled o.qty scales.qty_digits fine.qty_small few_qty;
    raw_qty = refl;
    ts = refl;
  }
    where
      named : (s : Side) → IsNamed s (side_name s)
      named bid = refl
      named ask = refl

  orders-Show :
      (os : List Order) → All IsPrintable os → ShowOrders scales (map (order_to_value scales) os) os
  orders-Show [] h = tt
  orders-Show (o ∷ os) (fine, h) = (order_to_value-Shows o fine, orders-Show os h)

  level_to_value-Shows :
      (price total count : ℕ) (xs : Cells)
      → price < u64_mod
      → All IsPrintable (orders_of xs)
      → xs ≢ []
      → total ≡ sum_qty xs % u64_mod
      → count ≡ length xs
      → ShowsQueue scales (level_to_value scales (price, total, count) (orders_of xs)) xs
  unfolding level_to_value
  level_to_value-Shows price total count xs small fine busy sum counted = record {
    occupied = busy;
    price = parse_fixed-fmt_scaled price scales.price_digits small few_price;
    raw_total_qty = sum;
    total_qty = parse_fixed-fmt_scaled total scales.qty_digits (omega (arith, sum)) few_qty;
    order_count = counted;
    orders = orders-Show (orders_of xs) fine;
  }

  module _ (b : OrderBook) (q : Queues) (wf : IsWellFormed b q)
      (printable : (i : ℕ) (o : Order) → order_at b i ≡ some o → IsPrintable o) where
    queue-IsPrintable : (s : Side) (p : Price) → All IsPrintable (orders_of (q s p))
    queue-IsPrintable s p =
        All-map (λ (c : ℕ × Order). c.1) IsPrintable (q s p)
          (All-imp (λ c. order_at b c.0 ≡ some c.1) (λ c. IsPrintable c.1) (q s p)
            (λ c at. printable c.0 c.1 at) (queue-AreIn b q wf s p))

    price-small : (s : Side) (p : Price) (xs : Cells) → q s p ≡ xs → xs ≢ [] → p < u64_mod
    price-small s p [] e busy = absurd (busy refl)
    price-small s p ((x, o) ∷ xs) e busy =
        let at : order_at b x ≡ some o = (subst (AreIn b) e (queue-AreIn b q wf s p)).0 in
        let there : here o.side o.price s p ≡ true =
          ap (rests s p) (sym at) ∙ sym (wf.placed x s p) ∙ ap (has x) e ∙ ground arith in
        subst (λ r. r < u64_mod) (here-eq o.side s o.price p there).1 (printable x o at).price_small

    shown-lists :
        (s : Side) (p : Price) (items : List DepthItem)
        → shown p (map (queue_to_value scales q s) items) ≡ lists p items
    unfolding level_to_value
    shown-lists s p [] = refl
    shown-lists s p ((price, total, count) ∷ items) =
        ap (λ r. p == price || r) (shown-lists s p items)

    side-Shows : (s : Side) → ShowsSide scales s q (map (queue_to_value scales q s) (depth s b))
    unfolding level_to_value
    side-Shows s =
        let d = depth-IsDepth b q wf s in
        record {
          best_first = Ordered-map (queue_to_value scales q s) _ (depth s b) d.best_first;
          exact = All-map (queue_to_value scales q s) _ (depth s b) (
              All-imp _ _ (depth s b)
                (λ i fits.
                  level_to_value-Shows i.0 i.1 i.2 (q s i.0)
                    (price-small s i.0 (q s i.0) refl fits.0) (queue-IsPrintable s i.0) fits.0
                    fits.1 fits.2)
                d.exact);
          complete = λ p busy. shown-lists s p (depth s b) ∙ d.complete p busy;
        }

    first-IsBest :
        (s : Side) (items : List DepthItem)
        → All (λ (i : DepthItem). q s i.0 ≢ []) items
        → IsBest scales
            (price_to_value scales (best_of items))
            (map (queue_to_value scales q s) items)
    unfolding level_to_value
    first-IsBest s [] h = refl
    first-IsBest s ((price, total, count) ∷ items) (busy, h) = (
      fmt_scaled price scales.price_digits,
      refl,
      parse_fixed-fmt_scaled price scales.price_digits (price-small s price (q s price) refl busy)
          few_price,
    )

    side-IsBest :
        (s : Side)
        → IsBest scales
            (price_to_value scales (best_of (depth s b)))
            (map (queue_to_value scales q s) (depth s b))
    side-IsBest s = first-IsBest s (depth s b) (
        All-imp _ (λ (i : DepthItem). q s i.0 ≢ []) (depth s b) (λ i fits. fits.0)
          (depth-IsDepth b q wf s).exact)

    -- On a well-formed book whose resting orders have `u64` prices and wallets of twenty bytes, with at
    -- most 19 digits behind the points, `book_snapshot` does not panic, and its values tell the book.
    -- The number of orders is that of the slab. The levels of each side are its queues that are not
    -- empty, all of them and the best price first; the text of a price or a size reads back as the raw
    -- number beside it, the total is the sum of the sizes modulo 2^64, and the orders of the queue
    -- stand from front to back with their identifiers, wallets, sides, prices, sizes and times. The
    -- best prices are those of the first levels.
    pub book_snapshot-Shows :
        (view : BookValue) × (book_snapshot scales b ≡ some view) × ShowsBook scales b q view
    unfolding len
    book_snapshot-Shows = (
      _,
      book_snapshot-queues scales b q wf,
      record {
        len = index-count_live b q wf;
        best_bid =
            subst
              (λ p.
                IsBest scales (price_to_value scales p)
                  (map (queue_to_value scales q bid) (depth bid b)))
              (sym (best_bid-depth b)) (side-IsBest bid);
        best_ask =
            subst
              (λ p.
                IsBest scales (price_to_value scales p)
                  (map (queue_to_value scales q ask) (depth ask b)))
              (sym (best_ask-depth b)) (side-IsBest ask);
        bids = side-Shows bid;
        asks = side-Shows ask;
      },
    )
