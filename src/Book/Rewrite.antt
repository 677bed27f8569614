-- ===== src/Book/Rewrite.antt =====
-- The write of a new size to a slot, in place or with a move to the tail of the level.
use l4_book.Prelude.{
  ℕ, ◌+◌, ◌-◌, ◌%◌, ◌<◌, ◌≡◌, refl, ◌≢◌, ap, sym, ◌∙◌, [], ◌∷◌, ◌++◌, none, some, arith, length,
  ℕ_discrete, ite, false, u64_mod, add_u64, sub_u64, length-append,
}
use l4_book.Types.{Order, Qty}
use l4_book.Slab.{Slab, Level, node_at, update_node, move_to_tail}
use l4_book.Slab.Laws.{order_of, adjust, Leaves, update_node_lem}
use l4_book.Slab.Chain.{
  Cells, has, head_or, last_or, link, Chain, Chain-frame, Chain-join, Distinct, Distinct-join,
  has-append, has-moved,
}
use l4_book.Slab.Links.{HasEnds, with_ends, Linked, head_or-append, last_or-append}
use l4_book.Slab.Links.Move.{move_to_tail_lem}
use l4_book.Slab.Cells.{resized, sum_qty, sum_qty-append}
use l4_book.Book.{OrderBook, set_qty}
use l4_book.Book.Invariant.{IsWellFormed, Queues, order_at}
use l4_book.Book.Located.{Located}
use l4_book.Book.Remove.{append-ne-cons}
use l4_book.Book.Resize.{Resized}

module _ (b : OrderBook) (q : Queues) (wf : IsWellFormed b q) (x : ℕ) (o : Order) (ls rs : Cells)
    (level : Level) (at : Located b q x o ls rs level) (n : Qty) where
  abbrev pub cells : Cells
  cells = ls ++ (x, resized n o) ∷ rs

  pub rested : order_at b x ≡ some o
  rested = ap order_of at.node

  pub sized_write :
      (slab₁ : Slab) × (update_node b.slab x (set_qty n) ≡ some slab₁)
      × Leaves b.slab slab₁ (adjust (some x) (set_qty n) (node_at b.slab))
  sized_write = update_node_lem b.slab x (set_qty n) (_, at.node)

  module _ (slab₁ : Slab)
      (w : Leaves b.slab slab₁ (adjust (some x) (set_qty n) (node_at b.slab))) where
    written : node_at slab₁ x ≡ some (link (resized n o) (head_or rs none) (last_or none ls))
    unfolding adjust set_qty
    written = ground (arith, w.0 x, at.node)

    elsewhere : (i : ℕ) → x ≢ i → node_at slab₁ i ≡ node_at b.slab i
    unfolding adjust
    elsewhere i ne = ground (arith, w.0 i)

    orders₁ :
        (i : ℕ)
        → order_of (node_at slab₁ i) ≡ ite (ℕ_discrete x i) (some (resized n o)) (order_at b i)
    orders₁ i = elim (ℕ_discrete x i) [
      | yes e ↦ ground (arith, written, e)
      | no ne ↦ ground (arith, elsewhere i ne, ne)
    ]

    chain₁ : Chain (node_at slab₁) none cells none
    chain₁ =
        Chain-join (node_at slab₁) none ls ((x, resized n o) ∷ rs) none
          (Chain-frame (node_at b.slab) (node_at slab₁) none ls (some x)
            (λ i m. elsewhere i (λ e. cc (ap (λ k. has k ls) e, at.not_left, m))) at.before)
          (
            written,
            Chain-frame (node_at b.slab) (node_at slab₁) (some x) rs none
                (λ i m. elsewhere i (λ e. cc (ap (λ k. has k rs) e, at.not_right, m))) at.behind,
          )

    distinct₁ : Distinct cells
    distinct₁ =
        Distinct-join ls ((x, resized n o) ∷ rs) at.left (at.not_right, at.right)
          (λ i m. ground (arith, at.apart i m, at.not_left))

    members₁ : (i : ℕ) → has i cells ≡ has i (q o.side o.price)
    members₁ i =
        has-append i ls ((x, resized n o) ∷ rs)
        ∙ sym (has-append i ls ((x, o) ∷ rs))
        ∙ sym (ap (has i) at.queue)

    ends₁ : HasEnds level cells
    ends₁ = record {
      first =
          at.fits.ends.first
          ∙ head_or-append ls ((x, o) ∷ rs) none
          ∙ sym (head_or-append ls ((x, resized n o) ∷ rs) none);
      last =
          at.fits.ends.last
          ∙ last_or-append none ls ((x, o) ∷ rs)
          ∙ sym (last_or-append none ls ((x, resized n o) ∷ rs));
    }

    frame₁ : (i : ℕ) → has i (q o.side o.price) ≡ false → node_at slab₁ i ≡ node_at b.slab i
    frame₁ i out =
        elsewhere i (λ e. ground (arith, ap (has i) at.queue, has-append i ls ((x, o) ∷ rs)))

    length_same : level.order_count ≡ length cells
    length_same = omega (
      arith,
      at.fits.count,
      length-append ls ((x, o) ∷ rs),
      length-append ls ((x, resized n o) ∷ rs),
    )

    pub in_place :
        (total : ℕ)
        → total ≡ sum_qty cells % u64_mod
        → 0 < n
        → n < u64_mod
        → Resized b q x o n slab₁ (record level { total_qty = total }) cells
    in_place total t pos bounded = record {
      rested = rested;
      orders = orders₁;
      frame = frame₁;
      members = members₁;
      fits = record {
        occupied = append-ne-cons ls (x, resized n o) rs;
        count = length_same;
        total = t;
        ends = record { first = ends₁.first; last = ends₁.last };
        chain = chain₁;
        distinct = distinct₁;
      };
      size = w.1;
      positive = pos;
      bounded = bounded;
    }

    abbrev pub moved : Cells
    moved = (ls ++ rs) ++ (x, resized n o) ∷ []

    members₂ : (i : ℕ) → has i moved ≡ has i (q o.side o.price)
    members₂ i = has-moved i x o (resized n o) ls rs ∙ sym (ap (has i) at.queue)

    distinct₂ : Distinct moved
    distinct₂ =
        Distinct-join (ls ++ rs) ((x, resized n o) ∷ [])
          (Distinct-join ls rs at.left at.right at.apart) (refl, tt)
          (λ i m. ground (arith, has-append x ls rs, at.not_left, at.not_right))

    moved-Resized :
        (total : ℕ)
        → total ≡ sum_qty cells % u64_mod
        → 0 < n
        → n < u64_mod
        → (slab₂ : Slab) → Linked slab₁ slab₂ moved
        → Resized b q x o n slab₂ (with_ends (record level { total_qty = total }) moved) moved
    moved-Resized total t pos bounded slab₂ l = record {
      rested = rested;
      orders = λ i. l.orders i ∙ orders₁ i;
      frame = λ i out. l.frame i (members₂ i ∙ out) ∙ frame₁ i out;
      members = members₂;
      fits = record {
        occupied = append-ne-cons (ls ++ rs) (x, resized n o) [];
        count = omega (
          arith,
          length_same,
          length-append (ls ++ rs) ((x, resized n o) ∷ []),
          length-append ls rs,
          length-append ls ((x, resized n o) ∷ rs),
        );
        total = omega (
          arith,
          t,
          sum_qty-append (ls ++ rs) ((x, resized n o) ∷ []),
          sum_qty-append ls rs,
          sum_qty-append ls ((x, resized n o) ∷ rs),
        );
        ends = record { first = refl; last = refl };
        chain = l.chain;
        distinct = distinct₂;
      };
      size = omega (arith, l.size, w.1);
      positive = pos;
      bounded = bounded;
    }

    pub at_tail :
        (total : ℕ)
        → total ≡ sum_qty cells % u64_mod
        → 0 < n
        → n < u64_mod
        → (slab₂ : Slab) × (move_to_tail slab₁ (record level { total_qty = total }) x
            ≡ some (slab₂, with_ends (record level { total_qty = total }) moved))
          × Resized b q x o n slab₂ (with_ends (record level { total_qty = total }) moved) moved
    at_tail total t pos bounded =
        let (slab₂, run, l) =
          move_to_tail_lem slab₁ (record level { total_qty = total }) ls x (resized n o) rs
            (record { first = ends₁.first; last = ends₁.last }) chain₁ distinct₁ in
        (slab₂, run, moved-Resized total t pos bounded slab₂ l)

  sum_cells : sum_qty cells + o.qty ≡ sum_qty (ls ++ (x, o) ∷ rs) + n
  sum_cells =
      omega (arith, sum_qty-append ls ((x, o) ∷ rs), sum_qty-append ls ((x, resized n o) ∷ rs))

  pub total_less : n < o.qty → sub_u64 level.total_qty (o.qty - n) ≡ sum_qty cells % u64_mod
  unfolding sub_u64
  total_less h = omega (arith, at.fits.total, sum_cells, (wf.sized x o rested).1)

  pub total_more : o.qty < n → add_u64 level.total_qty (n - o.qty) ≡ sum_qty cells % u64_mod
  unfolding add_u64
  total_more h = omega (arith, at.fits.total, sum_cells)
