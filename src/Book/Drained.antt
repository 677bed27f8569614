-- ===== src/Book/Drained.antt =====
-- A taker order takes what it fills off the front of the queues, best price first.
use l4_book.Prelude.{
  ℕ, ◌-◌, ◌≡◌, ◌≢◌, refl, ap, ap₂, sym, subst, ◌∙◌, min, Option, none, [], ◌∷◌, some, arith,
  ℕ_discrete, true, false, ◌==◌, ==_ne, if◌then◌else◌, Bool-cases, leb, inl, inr,
}
use l4_book.Types.{Order, Side, Price}
use l4_book.Slab.{Level, node_at}
use l4_book.Slab.Laws.{Nodes, order_of}
use l4_book.Slab.Chain.{Cells, has}
use l4_book.Slab.Cells.{drop_slot, resize_slot, resized}
use l4_book.Book.{OrderBook, ok, and_then, update_size}
use l4_book.Book.Amend.{update_size-update_queues}
use l4_book.Book.Invariant.{
  IsWellFormed, Queues, IsLevel, level_at, order_at, rests, here, here-eq, here_refl, with_queue,
}
use l4_book.Book.Priority.{greedy, greedy-zero}
use l4_book.Book.Remove.{remove-dequeue}
use l4_book.Book.Taker.{fill_of, apply_fill, apply_fills}

-- A queue after `n` is filled from its front.
abbrev pub drain : ℕ → Cells → Cells
drain n [] = []
drain n ((x, o) ∷ xs) =
    let rest = drain (n - o.qty) xs in
    if n == 0 then (x, o) ∷ xs else if leb o.qty n then rest else (x, resized (o.qty - n) o) ∷ xs

drain-zero : (xs : Cells) → drain 0 xs ≡ xs
drain-zero [] = refl
drain-zero ((x, o) ∷ xs) = refl

with_queue-same : (s : Side) (p : Price) (q : Queues) → with_queue s p (q s p) q ≡ q
with_queue-same s p q = λ i s' p'. same s' p' i
  where
    same : (s' : Side) (p' : Price) → with_queue s p (q s p) q s' p' ≡ q s' p'
    same s' p' = elim (Bool-cases (here s p s' p')) [
      | inl e ↦ let (es, ep) = here-eq s s' p p' e in rw e (ap₂ q es ep)
      | inr e ↦ rw e refl
    ]

with_queue-twice :
    (s : Side) (p : Price) (xs ys : Cells) (q : Queues)
    → with_queue s p ys (with_queue s p xs q) ≡ with_queue s p ys q
with_queue-twice s p xs ys q = λ i s' p'. twice s' p' i
  where
    twice :
        (s' : Side) (p' : Price)
        → with_queue s p ys (with_queue s p xs q) s' p' ≡ with_queue s p ys q s' p'
    twice s' p' = elim (Bool-cases (here s p s' p')) [ inl e ↦ rw e refl | inr e ↦ rw e refl ]

pub with_queue-at : (s : Side) (p : Price) (xs : Cells) (q : Queues) → with_queue s p xs q s p ≡ xs
with_queue-at s p xs q = rw (here_refl s p) refl

front_order :
    (h : Nodes) (v : Option Level) (x : ℕ) (o : Order) (xs : Cells)
    → IsLevel h v ((x, o) ∷ xs)
    → order_of (h x) ≡ some o
front_order h none x o xs e = cc e
front_order h (some level) x o xs f = ap order_of f.chain.0

-- The front of a queue after `n` is filled against it, which is not zero.
abbrev pub front_left : ℕ → ℕ → Order → Cells → Cells
front_left n x o xs = if leb o.qty n then xs else (x, resized (o.qty - n) o) ∷ xs

-- The order at the front of a queue rests where the queue says.
module _ (b : OrderBook) (q : Queues) (wf : IsWellFormed b q) where
  front_rests :
      (s : Side) (p : Price) (x : ℕ) (o : Order) (xs : Cells)
      → q s p ≡ (x, o) ∷ xs
      → (order_at b x ≡ some o) × (o.side ≡ s) × (o.price ≡ p)
  front_rests s p x o xs e =
      let at : order_at b x ≡ some o =
        front_order (node_at b.slab) (level_at s p b) x o xs
          (subst (IsLevel (node_at b.slab) (level_at s p b)) e (wf.levels s p)) in
      let mine : has x (q s p) ≡ true = ap (has x) e ∙ (ground arith) in
      let (es, ep) =
        here-eq o.side s o.price p (sym (ap (rests s p) at) ∙ sym (wf.placed x s p) ∙ mine) in
      (at, es, ep)

  front_fill :
      (n x : ℕ) (o : Order) (xs : Cells)
      → n ≢ 0
      → order_at b x ≡ some o
      → q o.side o.price ≡ (x, o) ∷ xs
      → (b' : OrderBook) × (apply_fill (fill_of o (min n o.qty)) b ≡ ok tt b')
        × IsWellFormed b' (with_queue o.side o.price (front_left n x o xs) q)
  unfolding apply_fill fill_of drop_slot resize_slot
  front_fill n x o xs nz at e = elim (Bool-cases (leb o.qty n)) [
    | inl whole ↦
        let (b', run, good) = remove-dequeue b q x o wf at in
        let gone : (o.qty - min n o.qty == 0) ≡ true = ground arith in
        let left : drop_slot x (q o.side o.price) ≡ xs = ap (drop_slot x) e ∙ (ground arith) in
        (
          b',
          rw (gone, run) refl,
          rw whole (subst (λ ys. IsWellFormed b' (with_queue o.side o.price ys q)) left good),
        )
    | inr part ↦
        let (b', run, good) = update_size-update_queues b q x o (o.qty - n) wf at (ground arith) in
        let stays : (o.qty - min n o.qty == 0) ≡ false = ground arith in
        let rest : o.qty - min n o.qty ≡ o.qty - n = ground arith in
        let more : (o.qty - n == 0) ≡ false = ground arith in
        let left : resize_slot x (o.qty - n) (q o.side o.price) ≡ (x, resized (o.qty - n) o) ∷ xs =
          ap (resize_slot x (o.qty - n)) e ∙ (ground arith) in
        (
          b',
          rw stays (ap (λ k. update_size o.id k b) rest ∙ run),
          rw part (
              subst (λ ys. IsWellFormed b' (with_queue o.side o.price ys q)) left
                (rw more at good)),
        )
  ]

greedy_front :
    (n x : ℕ) (o : Order) (xs : Cells)
    → n ≢ 0
    → greedy n ((x, o) ∷ xs) ≡ fill_of o (min n o.qty) ∷ greedy (n - o.qty) xs
greedy_front n x o xs nz = rw (==_ne n 0 nz) refl

drain_whole :
    (n x : ℕ) (o : Order) (xs : Cells)
    → n ≢ 0
    → leb o.qty n ≡ true
    → drain n ((x, o) ∷ xs) ≡ drain (n - o.qty) xs
drain_whole n x o xs nz whole = rw (==_ne n 0 nz, whole) refl

drain_part :
    (n x : ℕ) (o : Order) (xs : Cells)
    → n ≢ 0
    → leb o.qty n ≡ false
    → drain n ((x, o) ∷ xs) ≡ front_left n x o xs
drain_part n x o xs nz part = rw (==_ne n 0 nz, part) refl

module _ (s : Side) (p : Price) where
  abbrev Drains : ℕ → Cells → OrderBook → Queues → Type 0
  Drains n xs b q =
      (b' : OrderBook) × (apply_fills (greedy n xs) b ≡ ok tt b')
      × IsWellFormed b' (with_queue s p (drain n xs) q)

  nothing-Drains :
      (xs : Cells) (b : OrderBook) (q : Queues) → IsWellFormed b q → q s p ≡ xs → Drains 0 xs b q
  unfolding apply_fills
  nothing-Drains xs b q wf e = (
    b,
    ap (λ l. apply_fills l b) (greedy-zero xs),
    subst (IsWellFormed b)
        (sym (with_queue-same s p q) ∙ ap (λ ys. with_queue s p ys q) (e ∙ sym (drain-zero xs))) wf,
  )

  -- The fills against a queue drain it.
  pub queue-Drains :
      (xs : Cells) (n : ℕ) (b : OrderBook) (q : Queues)
      → IsWellFormed b q
      → q s p ≡ xs
      → Drains n xs b q
  unfolding apply_fills
  queue-Drains [] n b q wf e = nothing-Drains [] b q wf e
  queue-Drains ((x, o) ∷ xs) n b q wf e = elim (ℕ_discrete n 0) [
    | yes z ↦ rw z (nothing-Drains ((x, o) ∷ xs) b q wf e)
    | no nz ↦
        let (at, es, ep) = front_rests b q wf s p x o xs e in
        let (b₁, run, good₀) = front_fill b q wf n x o xs nz at (ap₂ q es ep ∙ e) in
        let good : IsWellFormed b₁ (with_queue s p (front_left n x o xs) q) =
          subst (IsWellFormed b₁) (ap₂ (λ t r. with_queue t r (front_left n x o xs) q) es ep)
            good₀ in
        let first =
          ap (λ l. apply_fills l b) (greedy_front n x o xs nz)
          ∙ ap (λ r. and_then r λ _ b'. apply_fills (greedy (n - o.qty) xs) b') run in
        elim (Bool-cases (leb o.qty n)) [
          | inl whole ↦
              let left : front_left n x o xs ≡ xs = rw whole refl in
              let (b₂, rest, good₂) =
                queue-Drains xs (n - o.qty) b₁ (with_queue s p xs q)
                  (subst (λ ys. IsWellFormed b₁ (with_queue s p ys q)) left good)
                  (with_queue-at s p xs q) in
              (
                b₂,
                first ∙ rest,
                subst (IsWellFormed b₂)
                    (with_queue-twice s p xs (drain (n - o.qty) xs) q
                      ∙ ap (λ ys. with_queue s p ys q) (sym (drain_whole n x o xs nz whole)))
                    good₂,
              )
          | inr part ↦
              let nothing : greedy (n - o.qty) xs ≡ [] =
                ap (λ k. greedy k xs) (ground arith) ∙ greedy-zero xs in
              (
                b₁,
                first ∙ ap (λ l. apply_fills l b₁) nothing,
                subst (λ ys. IsWellFormed b₁ (with_queue s p ys q))
                    (sym (drain_part n x o xs nz part)) good,
              )
        ]
  ]
