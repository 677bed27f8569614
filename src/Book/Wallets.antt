-- ===== src/Book/Wallets.antt =====
-- The wallet index: who owns what after an insertion and a removal.
use l4_book.Prelude.{
  ◌≡◌, refl, List, [], ◌∷◌, some, arith, ite, ℕ_discrete, Bool, true, false, inl, inr, Option-cases,
}
use l4_book.Types.{OrderId, WalletId, WalletId-discrete}
use l4_book.Containers.HashMap
use l4_book.Book.{or_empty, wallet_insert, wallet_remove}

abbrev pub Owners : Type 0
Owners = List (WalletId × List OrderId)

abbrev pub owns : WalletId → OrderId → Owners → Bool
owns w id m = HashMap.has ℕ_discrete id (or_empty (HashMap.get WalletId-discrete w m))

pub owns-wallet_insert :
    (w w' : WalletId) (id id' : OrderId) (m : Owners)
    → owns w' id' (wallet_insert w id m)
      ≡ ite (WalletId-discrete w w') (ite (ℕ_discrete id id') true (owns w' id' m)) (owns w' id' m)
unfolding wallet_insert
owns-wallet_insert w w' id id' m =
    let s = or_empty (HashMap.get WalletId-discrete w m) in
    ground (
      arith,
      HashMap.get-insert WalletId-discrete w w' (HashMap.set_insert ℕ_discrete id s) m,
      HashMap.has-set_insert ℕ_discrete id id' s,
    )

remaining :
    (w w' : WalletId) (id id' : OrderId) (m : Owners) (s r : List OrderId)
    → HashMap.get WalletId-discrete w m ≡ some s
    → HashMap.set_remove ℕ_discrete id s ≡ r
    → owns w' id' (wallet_remove w id m)
      ≡ ite (WalletId-discrete w w') (ite (ℕ_discrete id id') false (owns w' id' m)) (owns w' id' m)
unfolding wallet_remove or_empty HashMap.has
remaining w w' id id' m s [] e r =
    ground (
      arith,
      HashMap.get-remove WalletId-discrete w w' m,
      HashMap.has-set_remove ℕ_discrete id id' s,
    )
remaining w w' id id' m s (j ∷ js) e r = ground (
  arith,
  HashMap.get-insert WalletId-discrete w w' (j ∷ js) m,
  HashMap.has-set_remove ℕ_discrete id id' s,
)

pub owns-wallet_remove :
    (w w' : WalletId) (id id' : OrderId) (m : Owners)
    → owns w' id' (wallet_remove w id m)
      ≡ ite (WalletId-discrete w w') (ite (ℕ_discrete id id') false (owns w' id' m)) (owns w' id' m)
unfolding wallet_remove or_empty HashMap.has
owns-wallet_remove w w' id id' m = elim (Option-cases (HashMap.get WalletId-discrete w m)) [
  | inl e ↦ ground (arith, e)
  | inr (s, e) ↦ remaining w w' id id' m s (HashMap.set_remove ℕ_discrete id s) e refl
]
