-- ===== src/Book/Located.antt =====
-- Where an indexed order stands: its node, its level, and its neighbours in the queue.
use l4_book.Prelude.{
  ℕ, ◌≡◌, refl, ap, subst, ◌∙◌, ◌∷◌, ◌++◌, Option, none, some, arith, true, false,
}
use l4_book.Types.{Order, Side, Price}
use l4_book.Slab.{Level, node_at}
use l4_book.Slab.Laws.{order_of}
use l4_book.Slab.Chain.{
  Cells, has, head_or, last_or, link, Chain, Distinct, Disjoint, Chain-split, Distinct-split,
}
use l4_book.Slab.Cells.{split_at}
use l4_book.Book.{OrderBook}
use l4_book.Book.Invariant.{
  IsWellFormed, Queues, Fits, IsLevel, level_at, order_at, rests, here_refl,
}

pub record Located (b : OrderBook) (q : Queues) (x : ℕ) (o : Order) (ls rs : Cells) (level : Level)
    : Type 0 where
  pub queue : q o.side o.price ≡ ls ++ (x, o) ∷ rs
  pub node : node_at b.slab x ≡ some (link o (head_or rs none) (last_or none ls))
  pub at_level : level_at o.side o.price b ≡ some level
  pub fits : Fits (node_at b.slab) level (ls ++ (x, o) ∷ rs)
  pub before : Chain (node_at b.slab) none ls (some x)
  pub behind : Chain (node_at b.slab) (some x) rs none
  pub left : Distinct ls
  pub right : Distinct rs
  pub apart : Disjoint ls rs
  pub not_left : has x ls ≡ false
  pub not_right : has x rs ≡ false

module _ (b : OrderBook) (q : Queues) (wf : IsWellFormed b q) where
  level_of_has :
      (s : Side) (p : Price) (x : ℕ)
      → has x (q s p) ≡ true
      → (level : Level) × (level_at s p b ≡ some level) × Fits (node_at b.slab) level (q s p)
  level_of_has s p x m = go (level_at s p b) refl (wf.levels s p)
    where
      go :
          (v : Option Level)
          → level_at s p b ≡ v
          → IsLevel (node_at b.slab) v (q s p)
          → (level : Level) × (level_at s p b ≡ some level) × Fits (node_at b.slab) level (q s p)
      go none e empty = absurd (cc (ap (has x) empty, m))
      go (some level) e f = (level, e, f)

  located :
      (x : ℕ) (o : Order) (ls rs : Cells) (level : Level)
      → q o.side o.price ≡ ls ++ (x, o) ∷ rs
      → level_at o.side o.price b ≡ some level
      → Fits (node_at b.slab) level (ls ++ (x, o) ∷ rs)
      → Located b q x o ls rs level
  located x o ls rs level queue at_level f =
      let (before, (node, behind)) =
        Chain-split (node_at b.slab) none ls ((x, o) ∷ rs) none f.chain in
      let (left, (not_right, right), apart) = Distinct-split ls ((x, o) ∷ rs) f.distinct in
      record {
        queue = queue;
        node = node;
        at_level = at_level;
        fits = f;
        before = before;
        behind = behind;
        left = left;
        right = right;
        apart = λ i m. ground (arith, apart i);
        not_left = ground (arith, apart x);
        not_right = not_right;
      }

  pub locate_slot :
      (x : ℕ) (o : Order)
      → order_at b x ≡ some o
      → (ls rs : Cells) × (level : Level) × Located b q x o ls rs level
  locate_slot x o e =
      let m : has x (q o.side o.price) ≡ true =
        wf.placed x o.side o.price ∙ ap (rests o.side o.price) e ∙ here_refl o.side o.price in
      let (ls, o', rs, at) = split_at x (q o.side o.price) m in
      let (level, at_level, f) = level_of_has o.side o.price x m in
      let f' : Fits (node_at b.slab) level (ls ++ (x, o') ∷ rs) =
        subst (Fits (node_at b.slab) level) at f in
      let node = (Chain-split (node_at b.slab) none ls ((x, o') ∷ rs) none f'.chain).1.0 in
      let same : o' ≡ o = cc (ap order_of node, e) in
      let at' : q o.side o.price ≡ ls ++ (x, o) ∷ rs = at ∙ ap (λ t. ls ++ (x, t) ∷ rs) same in
      (
        ls,
        rs,
        level,
        located x o ls rs level at' at_level (subst (Fits (node_at b.slab) level) at' f),
      )
