-- ===== src/Examples/Running.antt =====
-- What the proofs about the example programs share: runs that end in a well-formed book.
use l4_book.Prelude.{◌≡◌, refl, ap, ◌∙◌, List, [], ◌∷◌, ◌⊎◌, inl, inr}
use l4_book.Types.{Order}
use l4_book.Book.{OrderBook, Run, ok, and_then}
use l4_book.Book.Invariant.{IsWellFormed, Queues}
use l4_book.Book.Settled.{FitQty}
use l4_book.Dwellir.Lines.Ranges.{AreInRange}
use l4_book.Dwellir.Types
use l4_book.Dwellir.Types.{AdapterError, Result}

-- A run that succeeds, with a well-formed book and a result that has a property.
pub record Ends {A : Type 0} (post : A → OrderBook → Type 0) (r : Run A) : Type 0 where
  pub result : A
  pub book : OrderBook
  pub queues : Queues
  pub ends : r ≡ ok result book
  pub well_formed : IsWellFormed book queues
  pub holds : post result book

pub then-Ends :
    {A B : Type 0} {post : A → OrderBook → Type 0} {post' : B → OrderBook → Type 0} {r : Run A}
    (f : A → OrderBook → Run B)
    → Ends post r
    → ((a : A) (b : OrderBook) (q : Queues) → IsWellFormed b q → post a b → Ends post' (f a b))
    → Ends post' (and_then r f)
then-Ends f first next =
    let rest = next first.result first.book first.queues first.well_formed first.holds in
    record {
      result = rest.result;
      book = rest.book;
      queues = rest.queues;
      ends = ap (λ r. and_then r f) first.ends ∙ rest.ends;
      well_formed = rest.well_formed;
      holds = rest.holds;
    }

pub ok-Ends :
    {A : Type 0} (post : A → OrderBook → Type 0) (a : A) (b : OrderBook) (q : Queues)
    → IsWellFormed b q
    → post a b
    → Ends post (ok a b)
ok-Ends post a b q wf h = record {
  result = a;
  book = b;
  queues = q;
  ends = refl;
  well_formed = wf;
  holds = h;
}

pub AreInRange-FitQty : (os : List Order) → AreInRange os → FitQty os
AreInRange-FitQty [] h = tt
AreInRange-FitQty (o ∷ os) h = (h.0.0, AreInRange-FitQty os h.1)

pub Result-cases :
    {A : Type 0} (r : Result A)
    → ((e : AdapterError) × (r ≡ Types.err e)) ⊎ ((a : A) × (r ≡ Types.ok a))
Result-cases (Types.err e) = inl (e, refl)
Result-cases (Types.ok a) = inr (a, refl)
