-- ===== src/Book/Depths/First.antt =====
-- The best price of a side is that of the first item of `depth`.
use mathlib.Core.List.{reverse, reverse-cons, map-append}
use l4_book.Prelude.{ℕ, ◌≡◌, refl, ap, sym, ◌∙◌, List, [], ◌∷◌, ◌++◌, Option, none, some, map}
use l4_book.Types.{bid, ask, Price}
use l4_book.Containers.TreeMap
use l4_book.Slab.{Level}
use l4_book.Book.{OrderBook, levels_of}
use l4_book.Book.Queries.{DepthItem, depth_item, depth, best_bid, best_ask}

-- The price of the first item.
abbrev pub best_of : List DepthItem → Option Price
best_of [] = none
best_of ((price, _, _) ∷ items) = some price

best_of-map : (m : List (ℕ × Level)) → TreeMap.first_key m ≡ best_of (map depth_item m)
unfolding TreeMap.first_key depth_item
best_of-map [] = refl
best_of-map ((i, w) ∷ m) = refl

best_of-append :
    (l : List DepthItem) (item : DepthItem) (p : Price)
    → best_of l ≡ some p
    → best_of (l ++ item ∷ []) ≡ some p
best_of-append [] item p e = cc e
best_of-append (first ∷ l) item p e = e

last_key-best_of :
    (i : ℕ) (w : Level) (m : List (ℕ × Level))
    → (p : Price) × (TreeMap.last_key ((i, w) ∷ m) ≡ some p)
      × (best_of (map depth_item (reverse ((i, w) ∷ m))) ≡ some p)
unfolding TreeMap.last_key depth_item
last_key-best_of i w [] = (i, refl, refl)
last_key-best_of i w ((j, v) ∷ m) =
    let (p, last, best) = last_key-best_of j v m in
    (
      p,
      last,
      ap (λ l. best_of (map depth_item l)) (reverse-cons (i, w) ((j, v) ∷ m))
          ∙ ap best_of (map-append depth_item (reverse ((j, v) ∷ m)) ((i, w) ∷ []))
          ∙ best_of-append (map depth_item (reverse ((j, v) ∷ m))) (depth_item (i, w)) p best,
    )

pub best_bid-depth : (b : OrderBook) → best_bid b ≡ best_of (depth bid b)
unfolding best_bid depth levels_of TreeMap.last_key
best_bid-depth b = last_of b.bids
  where
    last_of : (m : List (ℕ × Level)) → TreeMap.last_key m ≡ best_of (map depth_item (reverse m))
    last_of [] = refl
    last_of ((i, w) ∷ m) = let (p, last, best) = last_key-best_of i w m in last ∙ sym best

pub best_ask-depth : (b : OrderBook) → best_ask b ≡ best_of (depth ask b)
unfolding best_ask depth levels_of
best_ask-depth b = best_of-map b.asks
