-- ===== src/Book/Walks.antt =====
-- The walks along the list of a level read the queue, front to back, and have enough fuel.
use l4_book.Prelude.{
  ℕ, zero, suc, ◌+◌, ◌%◌, ◌≤◌, ◌<◌, ◌≡◌, refl, ap, ◌∙◌, subst, inl, inr, [], ◌∷◌, ◌++◌, Option,
  none, some, arith, length, ℕ_discrete, Bool, true, false, u64_mod, Option-cases, ◌==◌, ==_refl,
  get_elem?, add_u64, ap₂, length-append,
}
use l4_book.Types.{Order, OrderId, Side, Price, QueuePosition}
use l4_book.Containers.HashMap
use l4_book.Slab.{Slab, Level, OrderNode, node_at}
use l4_book.Slab.Chain.{Cells, has, head_or, last_or, link, Chain}
use l4_book.Slab.Cells.{orders_of, sum_qty, sum_qty-append}
use l4_book.Book.{OrderBook, ok}
use l4_book.Book.Invariant.{
  IsWellFormed, Queues, IsLevel, level_at, order_at, order_by_id, length-queue,
}
use l4_book.Book.Located.{Located, locate_slot}
use l4_book.Book.Queries.{
  orders_from, orders_at, head_of, get, Tally, visit, no_tally, position_loop, position_of,
  queue_position,
}

get_elem?-node :
    (slab : Slab) (i : ℕ) {n : OrderNode}
    → node_at slab i ≡ some n
    → get_elem? slab i ≡ some (some n)
unfolding node_at
get_elem?-node [] i e = cc
get_elem?-node (v ∷ slab) zero e = rw e refl
get_elem?-node (v ∷ slab) (suc i) e = get_elem?-node slab i e

orders_from-Chain :
    (fuel : ℕ) (slab : Slab) (prev : Option ℕ) (xs : Cells)
    → Chain (node_at slab) prev xs none
    → length xs ≤ fuel
    → orders_from fuel slab (head_or xs none) ≡ some (orders_of xs)
unfolding orders_from
orders_from-Chain fuel slab prev [] c h = refl
orders_from-Chain zero slab prev ((x, o) ∷ xs) c h = absurd (omega arith)
orders_from-Chain (suc fuel) slab prev ((x, o) ∷ xs) (e, c) h =
    rw
      (
        get_elem?-node slab x e,
        orders_from,
        orders_from-Chain fuel slab (some x) xs c (omega arith),
      )
      refl

IsLevel-head :
    (b : OrderBook) (v : Option Level) (xs : Cells)
    → IsLevel (node_at b.slab) v xs
    → (head_of v ≡ head_or xs none) × Chain (node_at b.slab) none xs none
unfolding head_of
IsLevel-head b none xs e = rw e (refl, tt)
IsLevel-head b (some level) xs f = (f.ends.first, f.chain)

module _ (b : OrderBook) (q : Queues) (wf : IsWellFormed b q) where
  -- On a well-formed book `orders_at` yields the orders of the queue from front to back, and never
  -- runs out of fuel.
  pub orders_at-queue : (s : Side) (p : Price) → orders_at s p b ≡ some (orders_of (q s p))
  unfolding orders_at
  orders_at-queue s p =
      let (head, c) = IsLevel-head b (level_at s p b) (q s p) (wf.levels s p) in
      rw head (orders_from-Chain (length b.slab) b.slab none (q s p) c (length-queue b q wf s p))

  -- On a well-formed book `get` finds the resting order with the identifier, if there is one, and
  -- does not panic.
  pub get-order_by_id : (id : OrderId) → get id b ≡ some (order_by_id id b)
  unfolding get
  get-order_by_id id = elim (Option-cases (HashMap.get ℕ_discrete id b.order_index)) [
    | inl e ↦ rw (e, get) refl
    | inr (x, e) ↦
        let (o, rested, is) = wf.indexed id x e in
        let (ls, rs, level, at) = locate_slot b q wf x o rested in
        rw (e, get, get_elem?-node b.slab x at.node, at.node) refl
  ]

-- The loop of `queue_position`, as a fold over the queue.
tally : ℕ → Cells → Tally → Tally
tally x [] t = t
tally x ((y, o) ∷ xs) t = tally x xs (visit (y == x) o t)

position_loop-tally :
    (fuel : ℕ) (slab : Slab) (x : ℕ) (prev : Option ℕ) (xs : Cells) (t : Tally)
    → Chain (node_at slab) prev xs none
    → length xs ≤ fuel
    → position_loop fuel slab x (head_or xs none) t ≡ some (tally x xs t)
unfolding position_loop tally
position_loop-tally fuel slab x prev [] t c h = refl
position_loop-tally zero slab x prev ((y, o) ∷ xs) t c h = absurd (omega arith)
position_loop-tally (suc fuel) slab x prev ((y, o) ∷ xs) t (e, c) h =
    rw e (position_loop-tally fuel slab x (some y) xs (visit (y == x) o t) c (omega arith))

tally-append :
    (x : ℕ) (xs ys : Cells) (t : Tally) → tally x (xs ++ ys) t ≡ tally x ys (tally x xs t)
unfolding tally visit add_u64
tally-append x [] ys t = refl
tally-append x ((y, o) ∷ xs) ys t = tally-append x xs ys (visit (y == x) o t)

abbrev counts : Bool → ℕ → ℕ → ℕ → ℕ → Tally
counts seen n s m t = record {
  orders_ahead = n;
  qty_ahead = s;
  orders_behind = m;
  qty_behind = t;
  seen_target = seen;
}

-- Before the target the orders are counted as ahead.
tally_ahead :
    (x : ℕ) (xs : Cells) (n s : ℕ)
    → has x xs ≡ false
    → s < u64_mod
    → n + length xs < u64_mod
    → tally x xs (counts false n s 0 0)
      ≡ counts false (n + length xs) ((s + sum_qty xs) % u64_mod) 0 0
unfolding tally visit add_u64
tally_ahead x [] n s out small room = ap₂ (λ a b. counts false a b 0 0) (omega arith) (omega arith)
tally_ahead x ((y, o) ∷ xs) n s out small room =
    ap (tally x xs) (visit_ahead (y == x) (ground arith))
    ∙ tally_ahead x xs (suc n) ((s + o.qty) % u64_mod) (ground arith) (omega arith) (omega arith)
    ∙ ap₂ (λ a b. counts false a b 0 0) (omega arith) (omega arith)
  where
    visit_ahead :
        (v : Bool)
        → v ≡ false
        → visit v o (counts false n s 0 0) ≡ counts false (suc n) ((s + o.qty) % u64_mod) 0 0
    visit_ahead v e = rw e (ap (λ a. counts false a ((s + o.qty) % u64_mod) 0 0) (omega arith))

-- Beyond the target they are counted as behind.
tally_behind :
    (x : ℕ) (xs : Cells) (n s m t : ℕ)
    → has x xs ≡ false
    → t < u64_mod
    → m + length xs < u64_mod
    → tally x xs (counts true n s m t)
      ≡ counts true n s (m + length xs) ((t + sum_qty xs) % u64_mod)
unfolding tally visit add_u64
tally_behind x [] n s m t out small room =
    ap₂ (λ a b. counts true n s a b) (omega arith) (omega arith)
tally_behind x ((y, o) ∷ xs) n s m t out small room =
    ap (tally x xs) (visit_behind (y == x) (ground arith))
    ∙ tally_behind x xs n s (suc m) ((t + o.qty) % u64_mod) (ground arith) (omega arith)
        (omega arith)
    ∙ ap₂ (λ a b. counts true n s a b) (omega arith) (omega arith)
  where
    visit_behind :
        (v : Bool)
        → v ≡ false
        → visit v o (counts true n s m t) ≡ counts true n s (suc m) ((t + o.qty) % u64_mod)
    visit_behind v e = rw e (ap (λ a. counts true n s a ((t + o.qty) % u64_mod)) (omega arith))

tally_around :
    (x : ℕ) (o : Order) (ls rs : Cells)
    → has x ls ≡ false
    → has x rs ≡ false
    → length ls < u64_mod
    → length rs < u64_mod
    → tally x (ls ++ (x, o) ∷ rs) no_tally
      ≡ counts true (length ls) (sum_qty ls % u64_mod) (length rs) (sum_qty rs % u64_mod)
unfolding visit tally
tally_around x o ls rs left right few few' =
    tally-append x ls ((x, o) ∷ rs) no_tally
    ∙ ap (tally x ((x, o) ∷ rs)) (
        tally_ahead x ls 0 0 left (omega arith) (omega arith)
        ∙ ap₂ (λ a b. counts false a b 0 0) (omega arith) (omega arith))
    ∙ ap (λ v. tally x rs (visit v o (counts false (length ls) (sum_qty ls % u64_mod) 0 0)))
        (==_refl x)
    ∙ tally_behind x rs (length ls) (sum_qty ls % u64_mod) 0 0 right (omega arith) (omega arith)
    ∙ ap₂ (counts true (length ls) (sum_qty ls % u64_mod)) (omega arith) (omega arith)

-- The place of an order with the queue `ls` before it and `rs` behind it.
abbrev pub place_between : Order → Cells → Cells → QueuePosition
place_between o ls rs = record {
  id = some o.id;
  side = o.side;
  price = o.price;
  orders_ahead = length ls;
  qty_ahead = sum_qty ls % u64_mod;
  orders_behind = length rs;
  qty_behind = sum_qty rs % u64_mod;
  level_order_count = length ls + suc (length rs);
  level_total_qty = (sum_qty ls + (o.qty + sum_qty rs)) % u64_mod;
}

position_of_run :
    (b : OrderBook) (x : ℕ) (o : Order) (next prev : Option ℕ) (level : Level) (t : Tally)
    → node_at b.slab x ≡ some (link o next prev)
    → level_at o.side o.price b ≡ some level
    → position_loop (length b.slab) b.slab x level.head no_tally ≡ some t
    → position_of o.id x b
      ≡ some (record {
        id = some o.id;
        side = o.side;
        price = o.price;
        orders_ahead = t.orders_ahead;
        qty_ahead = t.qty_ahead;
        orders_behind = t.orders_behind;
        qty_behind = t.qty_behind;
        level_order_count = level.order_count;
        level_total_qty = level.total_qty;
      })
unfolding position_of
position_of_run b x o next prev level t e at_level run = rw (e, at_level, run) refl

module _ (b : OrderBook) (q : Queues) (wf : IsWellFormed b q) where
  position_of-place_between :
      (x : ℕ) (o : Order) (ls rs : Cells) (level : Level)
      → Located b q x o ls rs level
      → position_of o.id x b ≡ some (place_between o ls rs)
  unfolding position_loop
  position_of-place_between x o ls rs level at =
      position_of_run b x o (head_or rs none) (last_or none ls) level _ at.node at.at_level (
        ap (λ h. position_loop (length b.slab) b.slab x h no_tally) at.fits.ends.first
        ∙ position_loop-tally (length b.slab) b.slab x none (ls ++ (x, o) ∷ rs) no_tally
            at.fits.chain fits
        ∙ ap some (
            tally_around x o ls rs at.not_left at.not_right (omega (arith, fits, wf.small, few))
              (omega (arith, fits, wf.small, few))))
      ∙ ap₂
          (λ n t.
            some (record (place_between o ls rs) { level_order_count = n; level_total_qty = t }))
          (at.fits.count ∙ few)
          (at.fits.total ∙ ap (λ n. n % u64_mod) (sum_qty-append ls ((x, o) ∷ rs)))
    where
      fits : length (ls ++ (x, o) ∷ rs) ≤ length b.slab
      fits = subst (λ xs. length xs ≤ length b.slab) at.queue (length-queue b q wf o.side o.price)

      few : length (ls ++ (x, o) ∷ rs) ≡ length ls + suc (length rs)
      few = length-append ls ((x, o) ∷ rs)

  -- On a well-formed book `queue_position` of a resting order counts the orders before it and
  -- those behind it in its queue, with the sums of their sizes modulo 2^64.
  pub queue_position-place_between :
      (x : ℕ) (o : Order)
      → order_at b x ≡ some o
      → (ls rs : Cells) × (q o.side o.price ≡ ls ++ (x, o) ∷ rs)
        × (queue_position o.id b ≡ ok (place_between o ls rs) b)
  unfolding queue_position
  queue_position-place_between x o rested =
      let (ls, rs, level, at) = locate_slot b q wf x o rested in
      (
        ls,
        rs,
        at.queue,
        rw (wf.found x o rested, queue_position, position_of-place_between x o ls rs level at) refl,
      )
