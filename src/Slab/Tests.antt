-- ===== src/Slab/Tests.antt =====
-- The three operations on the links at a level of two orders.
use l4_book.Prelude.{ℕ, ◌≡◌, refl, [], ◌∷◌, none, some, ℕ_discrete}
use l4_book.Types.{Order, bid}
use l4_book.Slab.{Slab, Level, node_at, unlink, move_to_tail}
use l4_book.Slab.Chain.{Cells, Chain, link}
use l4_book.Slab.Links.{HasEnds, Linked, with_ends}
use l4_book.Slab.Links.Move.{move_to_tail_lem}
use l4_book.Slab.Links.Unlink.{unlink_lem}

abbrev test_cell : ℕ → Order
test_cell i = record { id = i; wallet = []; side = bid; price = 9; qty = 4; ts = 0 }

-- Slots 0 and 1 are linked, and slot 2 is new.
abbrev test_slab : Slab
test_slab =
    some (link (test_cell 5) (some 1) none)
    ∷ some (link (test_cell 6) none (some 0))
    ∷ some (link (test_cell 7) none none)
    ∷ []

abbrev test_level : Level
test_level = record { order_count = 2; total_qty = 8; head = some 0; tail = some 1 }

abbrev test_cells : Cells
test_cells = (0, test_cell 5) ∷ (1, test_cell 6) ∷ []

test_ends : HasEnds test_level test_cells
test_ends = record { first = refl; last = refl }

test_cells-Chain : Chain (node_at test_slab) none test_cells none
unfolding node_at ℕ_discrete
test_cells-Chain = (refl, (refl, tt))

unlink_lem_example :
    (slab' : Slab) × (unlink test_slab test_level none (some 1)
      ≡ some (slab', with_ends test_level ((1, test_cell 6) ∷ [])))
    × Linked test_slab slab' ((1, test_cell 6) ∷ [])
unfolding node_at ℕ_discrete
unlink_lem_example =
    unlink_lem test_slab test_level [] ((1, test_cell 6) ∷ []) 0 (test_cell 5) test_ends tt
      (refl, tt) tt (refl, tt) (λ i m. cc)

move_to_tail_lem_example :
    (slab' : Slab) × (move_to_tail test_slab test_level 0
      ≡ some (slab', with_ends test_level ((1, test_cell 6) ∷ (0, test_cell 5) ∷ [])))
    × Linked test_slab slab' ((1, test_cell 6) ∷ (0, test_cell 5) ∷ [])
unfolding ℕ_discrete
move_to_tail_lem_example =
    move_to_tail_lem test_slab test_level [] 0 (test_cell 5) ((1, test_cell 6) ∷ []) test_ends
      test_cells-Chain (refl, (refl, tt))
