-- ===== src/Book/Snapshots.antt =====
-- What a snapshot must be like to be accepted while the synthetic orders stay.
use l4_book.Prelude.{
  ℕ, zero, suc, ◌≡◌, ◌≢◌, refl, List, [], ◌∷◌, Option, none, some, arith, ℕ_discrete, Bool, true,
  false, ◌==◌, get_elem?, subst, All, if◌then◌else◌,
}
use l4_book.Types.{
  Order, OrderId, BookError, zero_qty, duplicate_order_id, synthetic_order_id_in_snapshot,
}
use l4_book.Types.Ids.{is_synthetic_order_id}
use l4_book.Containers.HashMap
use l4_book.Book.Invariant.{NoRepeat}
use l4_book.Book.Replay.{ids_of, validate_loop, validate_preserve_synthetic_snapshot}

passes :
    (a c d f : Bool) (x y z w : BookError) (rest : Option BookError)
    → (if a then some x else if c then some y else if d then some z else if f then some w else rest)
      ≡ none
    → (a ≡ false) × (c ≡ false) × (d ≡ false) × (f ≡ false) × (rest ≡ none)
passes true c d f x y z w rest e = cc e
passes false true d f x y z w rest e = cc e
passes false false true f x y z w rest e = cc e
passes false false false true x y z w rest e = cc e
passes false false false false x y z w rest e = (refl, refl, refl, refl, e)

-- An order that a snapshot may hold.
abbrev pub IsAcceptable : List OrderId → Order → Type 0
IsAcceptable preserved o =
    (o.qty ≢ 0)
    × (HashMap.has ℕ_discrete o.id preserved ≡ false)
    × (is_synthetic_order_id o.id ≡ false)

module _ (preserved : List OrderId) where
  step :
      (seen : List OrderId) (o : Order) (os : List Order)
      → validate_loop preserved seen (o ∷ os) ≡ none
      → IsAcceptable preserved o
        × (HashMap.has ℕ_discrete o.id seen ≡ false)
        × (validate_loop preserved (HashMap.set_insert ℕ_discrete o.id seen) os ≡ none)
  unfolding validate_loop
  step seen o os e =
      let (a, c, d, f, rest) =
        passes (o.qty == 0) (HashMap.has ℕ_discrete o.id preserved) (is_synthetic_order_id o.id)
          (HashMap.has ℕ_discrete o.id seen) zero_qty (duplicate_order_id o.id)
          (synthetic_order_id_in_snapshot o.id) (duplicate_order_id o.id)
          (validate_loop preserved (HashMap.set_insert ℕ_discrete o.id seen) os) e in
      ((ground arith, c, d), f, rest)

  acceptable :
      (seen : List OrderId) (os : List Order) (i : ℕ) (o : Order)
      → validate_loop preserved seen os ≡ none
      → get_elem? os i ≡ some o
      → IsAcceptable preserved o
  acceptable seen [] i o e at = cc at
  acceptable seen (p ∷ os) zero o e at =
      let same : p ≡ o = cc at in subst (IsAcceptable preserved) same (step seen p os e).0
  acceptable seen (p ∷ os) (suc i) o e at =
      acceptable (HashMap.set_insert ℕ_discrete p.id seen) os i o (step seen p os e).2 at

  loop-All :
      (seen : List OrderId) (os : List Order)
      → validate_loop preserved seen os ≡ none
      → All (IsAcceptable preserved) os
  loop-All seen [] e = tt
  loop-All seen (o ∷ os) e =
      let (fine, new, rest) = step seen o os e in
      (fine, loop-All (HashMap.set_insert ℕ_discrete o.id seen) os rest)

  unrepeated :
      (seen : List OrderId) (os : List Order)
      → validate_loop preserved seen os ≡ none
      → NoRepeat (ids_of os)
        × ((id : OrderId)
            → HashMap.has ℕ_discrete id seen ≡ true
            → HashMap.has ℕ_discrete id (ids_of os) ≡ false)
  unfolding HashMap.has
  unrepeated seen [] e = (tt, λ id m. refl)
  unrepeated seen (o ∷ os) e =
      let (ok, new, rest) = step seen o os e in
      let (apart, out) = unrepeated (HashMap.set_insert ℕ_discrete o.id seen) os rest in
      (
        (out o.id (ground (arith, HashMap.has-set_insert ℕ_discrete o.id o.id seen)), apart),
        λ id m. ground (arith, out id, HashMap.has-set_insert ℕ_discrete o.id id seen),
      )

-- In a snapshot that is accepted beside preserved orders no identifier occurs twice, and each order
-- has a positive size, an identifier that is not synthetic, and not that of a preserved order.
pub validate-IsAcceptable :
    (orders preserved : List Order) (i : ℕ) (o : Order)
    → validate_preserve_synthetic_snapshot orders preserved ≡ none
    → get_elem? orders i ≡ some o
    → NoRepeat (ids_of orders) × IsAcceptable (ids_of preserved) o
unfolding validate_preserve_synthetic_snapshot
validate-IsAcceptable orders preserved i o e at = (
  (unrepeated (ids_of preserved) [] orders e).0,
  acceptable (ids_of preserved) [] orders i o e at,
)

pub validate-All :
    (orders preserved : List Order)
    → validate_preserve_synthetic_snapshot orders preserved ≡ none
    → NoRepeat (ids_of orders) × All (IsAcceptable (ids_of preserved)) orders
unfolding validate_preserve_synthetic_snapshot
validate-All orders preserved e =
    ((unrepeated (ids_of preserved) [] orders e).0, loop-All (ids_of preserved) [] orders e)
