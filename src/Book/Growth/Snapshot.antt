-- ===== src/Book/Growth/Snapshot.antt =====
-- The slots that the orders of a snapshot take.
use l4_book.Prelude.{ℕ, suc, ◌+◌, ◌≤◌, List, [], ◌∷◌, arith, length}
use l4_book.Types.{Order}
use l4_book.Book.{OrderBook, clear, add, Run, ok, err, panic, and_then}
use l4_book.Book.Growth.{Within, add-Within}
use l4_book.Book.Replay.{add_all, apply_snapshot_with_policy, apply_snapshot}

-- A chain of steps.
chain-Within :
    {A B : Type 0} (m n : ℕ) (r : Run A) (f : A → OrderBook → Run B)
    → m ≤ n
    → Within m r
    → ((a : A) (b : OrderBook) → length b.slab ≤ m → Within n (f a b))
    → Within n (and_then r f)
chain-Within m n (ok a b) f le w k = k a b w
chain-Within m n (err e b) f le w k = omega arith
chain-Within m n panic f le w k = tt

pub add_all-Within :
    (os : List Order) (k n : ℕ) (b : OrderBook)
    → length b.slab + length os ≤ n
    → Within n (add_all k os b)
unfolding add_all
add_all-Within [] k n b le = omega arith
add_all-Within (o ∷ os) k n b le =
    chain-Within (suc (length b.slab)) n (add o b) _ (omega arith) (add-Within o b)
      (λ _ b' h. add_all-Within os (k + 1) n b' (omega arith))

-- After a snapshot the slab is no longer than the snapshot.
pub apply_snapshot-Within :
    (os : List Order) (b : OrderBook) → Within (length os) (apply_snapshot os b)
unfolding apply_snapshot apply_snapshot_with_policy clear add_all
apply_snapshot-Within os b =
    let n = length os in
    chain-Within n n _ _ (omega arith)
      (chain-Within n n (add_all 0 os (clear b)) _ (omega arith)
        (add_all-Within os 0 n (clear b) (omega arith)) (λ inserted b' h. h))
      (λ _ b' h. h)
