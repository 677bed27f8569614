-- ===== src/Book/Checks/Passes.antt =====
-- A well-formed book passes the check of debug builds.
use l4_book.Prelude.{
  ℕ, zero, suc, ◌+◌, ◌%◌, ◌≤◌, ◌<◌, ◌≡◌, refl, ap, ap₂, sym, subst, ◌∙◌, [], ◌∷◌, Option, none,
  some, arith, length, true, ◌==◌, ==_refl, lt→ltb, u64_mod, All,
}
use l4_book.Types.{Side, bid, ask, Price}
use l4_book.Slab.{Slab, Level, OrderNode, node_at}
use l4_book.Slab.Laws.{order_of}
use l4_book.Slab.Chain.{Cells, has, Chain, head_or, last_or, link}
use l4_book.Slab.Cells.{sum_qty}
use l4_book.Book.{OrderBook, Levels, levels_of}
use l4_book.Book.Invariant.{
  IsWellFormed, Queues, Fits, IsLevel, level_at, rests, here-eq, length-queue,
}
use l4_book.Book.Depths.{entries-get}
use l4_book.Book.Checks.{
  Walk, walk_start, eq_side, eq_slot, visit_node, walk, level_agrees, check_levels, count_live,
  assert_invariants,
}
use l4_book.Book.Checks.Counts.{index-count_live}

eq_side_refl : (s : Side) → eq_side s s ≡ true
eq_side_refl bid = refl
eq_side_refl ask = refl

eq_slot_refl : (v : Option ℕ) → eq_slot v v ≡ true
eq_slot_refl none = refl
eq_slot_refl (some i) = ==_refl i

-- Where the orders of a list are on one side and at one price.
abbrev IsAt : Side → Price → Cells → Type 0
IsAt s p xs = All (λ c. (c.1.side ≡ s) × (c.1.price ≡ p)) xs

-- The state of the walk after `n` orders of total size `m`, the last one in slot `last`.
abbrev walked : ℕ → ℕ → Option ℕ → Walk
walked n m last = record { count = n; qty = m; last = last }

visit_node_lem :
    (s : Side) (p : Price) (x : ℕ) (node : OrderNode) (w : Walk)
    → node.order.side ≡ s
    → node.order.price ≡ p
    → w.qty + node.order.qty < u64_mod
    → visit_node s p x node w ≡ some (walked (w.count + 1) (w.qty + node.order.qty) (some x))
unfolding visit_node
visit_node_lem s p x node w es ep small =
    rw
      (
        ap (λ t. eq_side t s) es ∙ eq_side_refl s,
        ap (λ r. r == p) ep ∙ ==_refl p,
        lt→ltb (w.qty + node.order.qty) u64_mod small,
      )
      refl

walk_lem :
    (fuel : ℕ) (slab : Slab) (s : Side) (p : Price) (prev : Option ℕ) (xs : Cells) (n m : ℕ)
    → Chain (node_at slab) prev xs none
    → IsAt s p xs
    → length xs ≤ fuel
    → m + sum_qty xs < u64_mod
    → walk fuel slab s p (head_or xs none) (walked n m prev)
      ≡ some (walked (n + length xs) (m + sum_qty xs) (last_or prev xs))
unfolding walk
walk_lem fuel slab s p prev [] n m c at long small =
    ap₂ (λ k l. some (walked k l prev)) (omega arith) (omega arith)
walk_lem zero slab s p prev ((x, o) ∷ xs) n m c at long small = absurd (omega arith)
walk_lem (suc fuel) slab s p prev ((x, o) ∷ xs) n m (e, c) ((es, ep), at) long small =
    rw
      (
        e,
        visit_node_lem s p x (link o (head_or xs none) prev) (walked n m prev) es ep (omega arith),
      )
      (walk_lem fuel slab s p (some x) xs (n + 1) (m + o.qty) c at (omega arith) (omega arith)
        ∙ ap₂ (λ k l. some (walked k l (last_or (some x) xs))) (omega arith) (omega arith))

Chain-IsAt :
    (slab : Slab) (s : Side) (p : Price) (prev : Option ℕ) (xs : Cells)
    → Chain (node_at slab) prev xs none
    → ((i : ℕ) → has i xs ≡ true → rests s p (order_of (node_at slab i)) ≡ true)
    → IsAt s p xs
Chain-IsAt slab s p prev [] c there = tt
Chain-IsAt slab s p prev ((x, o) ∷ xs) (e, c) there =
    let mine : rests s p (some o) ≡ true =
      ap (λ v. rests s p (order_of v)) (sym e) ∙ there x (ground arith) in
    (
      here-eq o.side s o.price p mine,
      Chain-IsAt slab s p (some x) xs c (λ i m. there i (ground arith)),
    )

small_mod : (n : ℕ) → n < u64_mod → n % u64_mod ≡ n
small_mod n h = omega arith

zero_add : (n : ℕ) → 0 + n ≡ n
zero_add n = omega arith

level-agrees :
    (slab : Slab) (s : Side) (p : Price) (level : Level) (xs : Cells)
    → Fits (node_at slab) level xs
    → IsAt s p xs
    → length xs ≤ length slab
    → sum_qty xs < u64_mod
    → level_agrees level (walk (length slab) slab s p level.head walk_start) ≡ true
unfolding level_agrees
level-agrees slab s p level xs f at long small =
    let walks =
      ap (λ v. walk (length slab) slab s p v walk_start) f.ends.first
      ∙ walk_lem (length slab) slab s p none xs 0 0 f.chain at long (omega arith)
      ∙ ap₂ (λ n m. some (walked n m (last_or none xs))) (zero_add (length xs))
          (zero_add (sum_qty xs)) in
    let slots_agree : eq_slot level.tail (last_or none xs) ≡ true =
      ap (λ v. eq_slot v (last_or none xs)) f.ends.last ∙ eq_slot_refl (last_or none xs) in
    let count : (level.order_count == length xs) ≡ true =
      ap (λ n. n == length xs) f.count ∙ ==_refl (length xs) in
    let total : (level.total_qty == sum_qty xs) ≡ true =
      ap (λ n. n == sum_qty xs) (f.total ∙ small_mod (sum_qty xs) small) ∙ ==_refl (sum_qty xs) in
    ap (level_agrees level) walks ∙ rw (count, total) slots_agree

module _ (b : OrderBook) (q : Queues) (wf : IsWellFormed b q) where
  -- No sum of the sizes of a level overflows.
  abbrev pub Counted : Type 0
  Counted = (s : Side) (p : Price) → sum_qty (q s p) < u64_mod

  module _ (small : Counted) where
    level-passes :
        (s : Side) (p : Price) (level : Level)
        → level_at s p b ≡ some level
        → level_agrees level (walk (length b.slab) b.slab s p level.head walk_start) ≡ true
    level-passes s p level e =
        let f = subst (λ v. IsLevel (node_at b.slab) v (q s p)) e (wf.levels s p) in
        level-agrees b.slab s p level (q s p) f
          (Chain-IsAt b.slab s p none (q s p) f.chain (λ i m. sym (wf.placed i s p) ∙ m))
          (length-queue b q wf s p) (small s p)

    levels-pass :
        (s : Side) (m : Levels)
        → All (λ e. level_at s e.0 b ≡ some e.1) m
        → check_levels b.slab s m ≡ true
    unfolding check_levels
    levels-pass s [] found = refl
    levels-pass s ((p, level) ∷ m) (e, found) =
        rw (level-passes s p level e) (levels-pass s m found)

    -- A well-formed book in which no sum of the sizes of a level overflows passes
    -- `assert_invariants`, with as many steps in each level as the slab is long.
    pub assert_invariants-passes : assert_invariants b ≡ true
    unfolding assert_invariants levels_of
    assert_invariants-passes =
        rw
          (
            levels-pass bid b.bids (entries-get b.bids (wf.sorted bid)),
            levels-pass ask b.asks (entries-get b.asks (wf.sorted ask)),
            index-count_live b q wf,
          )
          (==_refl (count_live b.slab))
