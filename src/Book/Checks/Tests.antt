-- ===== src/Book/Checks/Tests.antt =====
-- A book with three orders passes the check of debug builds.
use l4_book.Prelude.{◌≡◌, arith, true}
use l4_book.Book.Checks.{assert_invariants}
use l4_book.Book.Checks.Passes.{assert_invariants-passes}
use l4_book.Book.Sample.{both_sides, ask_queues, ask_wf, ask_queues-Within}

assert_invariants-passes_example : assert_invariants both_sides ≡ true
assert_invariants-passes_example =
    assert_invariants-passes both_sides ask_queues ask_wf
      (λ s p. omega (arith, ask_queues-Within s p))
