-- ===== src/Slab/Laws.antt =====
-- Reads after writes in the slab, seen as a function from slots to nodes.
use l4_book.Prelude.{
  ℕ, zero, suc, ◌<◌, ◌≡◌, refl, [], ◌∷◌, ◌++◌, Option, none, some, arith, length, set, ite,
  ℕ_discrete, length-set,
}
use l4_book.Types.{Order}
use l4_book.Slab.{Slab, OrderNode, node_at, write_slot, update_node}

abbrev pub Nodes : Type 0
Nodes = ℕ → Option OrderNode

abbrev pub order_of : Option OrderNode → Option Order
order_of none = none
order_of (some n) = some n.order

-- `h` with `f` applied to the node at a pointer, if there is one.
unfoldable pub adjust : Option ℕ → (OrderNode → OrderNode) → Nodes → Nodes
adjust none f h j = h j
adjust (some a) f h j =
    ite (ℕ_discrete a j) (elim (h j) [ none ↦ none | some n ↦ some (f n) ]) (h j)

unfoldable pub assign : ℕ → Option OrderNode → Nodes → Nodes
assign a v h j = ite (ℕ_discrete a j) v (h j)

-- What a pointer leads to is a node.
abbrev pub IsLive : Nodes → Option ℕ → Type 0
IsLive h none = Unit {0}
IsLive h (some a) = (n : OrderNode) × (h a ≡ some n)

pub lt-length_of_node :
    (slab : Slab) (i : ℕ) {n : OrderNode} → node_at slab i ≡ some n → i < length slab
unfolding node_at
lt-length_of_node [] i e = cc
lt-length_of_node (x ∷ slab) zero e = omega arith
lt-length_of_node (x ∷ slab) (suc i) e = omega (arith, lt-length_of_node slab i e)

pub node_at-set :
    (slab : Slab) (i : ℕ) (v : Option OrderNode) (j : ℕ)
    → i < length slab
    → node_at (set slab i v) j ≡ assign i v (node_at slab) j
unfolding node_at assign
node_at-set [] i v j h = elim h [ ]
node_at-set (x ∷ slab) zero v zero h = ground arith
node_at-set (x ∷ slab) zero v (suc j) h = ground arith
node_at-set (x ∷ slab) (suc i) v zero h = ground arith
node_at-set (x ∷ slab) (suc i) v (suc j) h = ground (arith, node_at-set slab i v j)

pub node_at-push : (slab : Slab) (j : ℕ) → node_at (slab ++ none ∷ []) j ≡ node_at slab j
unfolding node_at
node_at-push [] zero = refl
node_at-push [] (suc j) = refl
node_at-push (x ∷ slab) zero = refl
node_at-push (x ∷ slab) (suc j) = node_at-push slab j

pub node_at_end : (slab : Slab) → node_at slab (length slab) ≡ none
unfolding node_at
node_at_end [] = refl
node_at_end (x ∷ slab) = node_at_end slab

pub write_slot_lem :
    (slab : Slab) (i : ℕ) (v : Option OrderNode)
    → i < length slab
    → write_slot slab i v ≡ some (set slab i v)
unfolding write_slot
write_slot_lem slab i v h = ground arith

-- The result of a step on the slab, by the nodes that it leaves; the length stays.
abbrev pub Leaves : Slab → Slab → Nodes → Type 0
Leaves slab slab' h = ((j : ℕ) → node_at slab' j ≡ h j) × (length slab' ≡ length slab)

pub update_node_lem :
    (slab : Slab) (i : ℕ) (f : OrderNode → OrderNode)
    → IsLive (node_at slab) (some i)
    → (slab' : Slab) × (update_node slab i f ≡ some slab')
      × Leaves slab slab' (adjust (some i) f (node_at slab))
unfolding update_node adjust assign
update_node_lem slab i f (n, e) = (
  set slab i (some (f n)),
  rw e,
  (
    (λ j. ground (arith, node_at-set slab i (some (f n)) j (lt-length_of_node slab i e))),
    length-set slab i (some (f n)),
  ),
)

pub eq-none_of_order : (v : Option OrderNode) → order_of v ≡ none → v ≡ none
eq-none_of_order none e = refl
eq-none_of_order (some n) e = cc
