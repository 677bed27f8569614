-- ===== src/Dwellir/Capture/Loaded.antt =====
-- What a capture that is loaded satisfies, as the book needs it.
use mathlib.Core.List.{map-append}
use l4_book.Prelude.{◌≡◌, refl, sym, subst, ◌∙◌, List, [], ◌∷◌, ◌++◌, arith, length, map}
use l4_book.Types.{BookOp, ReasonedBookOp}
use l4_book.Book.Ops.{IsInRange}
use l4_book.Dwellir.Types.{
  DecodedWithMeta, Capture, ReasonedCapture, Scales, Result, ok, err, map_ok, >>=-eq-ok, ok-inj,
}
use l4_book.Dwellir.Json.{Json}
use l4_book.Dwellir.Diffs.Removes.{IsSized, AreSized}
use l4_book.Dwellir.Lines.{ops_of, decode_line_with_meta}
use l4_book.Dwellir.Lines.Ranges.{AreInRange, AreInRange-append, FitsBook, decode_line-FitsBook}
use l4_book.Dwellir.Capture.{
  collect_with_meta, count_line, no_reasoned_capture, Lines, load_capture, load_line_with_meta,
  load_lines_with_meta, load_capture_with_meta,
}
use l4_book.Dwellir.Capture.Stats.{
  count_all, load_capture-Agrees, strip_capture, load_capture-strip_capture,
}

abbrev pub AllInRange : List BookOp → Type 0
AllInRange [] = Unit {0}
AllInRange (op ∷ ops) = IsInRange op × AllInRange ops

abbrev pub UpdatesInRange : List (List BookOp) → Type 0
UpdatesInRange [] = Unit {0}
UpdatesInRange (ops ∷ updates) = AllInRange ops × UpdatesInRange updates

pub IsSized-IsInRange : (op : BookOp) → IsSized op → IsInRange op
IsSized-IsInRange (BookOp.add o) h = h.0
IsSized-IsInRange (BookOp.remove id) h = tt
IsSized-IsInRange (BookOp.update_size id n) h = h.1
IsSized-IsInRange (BookOp.amend_size id n) h = h.1

pub AreSized-AllInRange : (ops : List ReasonedBookOp) → AreSized ops → AllInRange (ops_of ops)
AreSized-AllInRange [] h = tt
AreSized-AllInRange (o ∷ ops) h = (IsSized-IsInRange o.op h.0, AreSized-AllInRange ops h.1)

UpdatesInRange-append :
    (us vs : List (List BookOp)) → UpdatesInRange us → UpdatesInRange vs → UpdatesInRange (us ++ vs)
UpdatesInRange-append [] vs h k = k
UpdatesInRange-append (u ∷ us) vs h k = (h.0, UpdatesInRange-append us vs h.1 k)

pub length-ops_of : (ops : List ReasonedBookOp) → length (ops_of ops) ≡ length ops
length-ops_of [] = refl
length-ops_of (o ∷ ops) = omega (arith, length-ops_of ops)

count_all-ops_of :
    (updates : List (List ReasonedBookOp)) → count_all (map ops_of updates) ≡ count_all updates
count_all-ops_of [] = refl
count_all-ops_of (ops ∷ updates) = omega (arith, length-ops_of ops, count_all-ops_of updates)

abbrev FitsCapture : ReasonedCapture → Type 0
FitsCapture c = AreInRange c.snapshot × UpdatesInRange (map ops_of c.updates)

collect-FitsCapture :
    (decoded : DecodedWithMeta) (c : ReasonedCapture)
    → FitsBook decoded
    → FitsCapture c
    → FitsCapture (collect_with_meta decoded (record c { stats = count_line c.stats }))
unfolding collect_with_meta
collect-FitsCapture DecodedWithMeta.skip c f h = h
collect-FitsCapture (DecodedWithMeta.snapshot orders cause) c f h =
    (AreInRange-append c.snapshot orders h.0 f, h.1)
collect-FitsCapture (DecodedWithMeta.updates batch) c f h = (
  h.0,
  subst UpdatesInRange (sym (map-append ops_of c.updates (batch.ops ∷ []))) (
      UpdatesInRange-append (map ops_of c.updates) (ops_of batch.ops ∷ []) h.1
        (AreSized-AllInRange batch.ops f.1, tt)),
)

-- The prices and sizes of the snapshot and of the operations are `u64` values, and the statistics
-- count the operations.
pub record IsLoaded (cap : Capture) : Type 0 where
  pub orders : AreInRange cap.snapshot
  pub ranges : UpdatesInRange cap.updates
  pub total : cap.stats.total_ops ≡ count_all cap.updates

map_ok-eq-ok :
    {A B : Type 0} (f : A → B) (r : Result A) {b : B}
    → map_ok f r ≡ ok b
    → (a : A) × (r ≡ ok a) × (f a ≡ b)
map_ok-eq-ok f (ok a) h = (a, refl, ok-inj h)
map_ok-eq-ok f (err e) h = cc

module _ (j : Json) (scales : Scales) where
  load_lines-FitsCapture :
      (reads : Lines) (c : ReasonedCapture) {c' : ReasonedCapture}
      → FitsCapture c
      → load_lines_with_meta j reads scales c ≡ ok c'
      → FitsCapture c'
  unfolding load_lines_with_meta load_line_with_meta
  load_lines-FitsCapture [] c fits h = subst FitsCapture (ok-inj h) fits
  load_lines-FitsCapture (err e ∷ reads) c fits h = cc
  load_lines-FitsCapture (ok [] ∷ reads) c fits h = load_lines-FitsCapture reads c fits h
  load_lines-FitsCapture (ok (b ∷ line) ∷ reads) c fits h =
      let (next, e, h₁) = >>=-eq-ok (load_line_with_meta j (b ∷ line) scales c) _ h in
      let (decoded, e', h₂) = >>=-eq-ok (decode_line_with_meta j (b ∷ line) scales) _ e in
      load_lines-FitsCapture reads next
        (subst FitsCapture (ok-inj h₂)
          (collect-FitsCapture decoded c (decode_line-FitsBook j scales (b ∷ line) e') fits))
        h₁

  -- In a capture that is loaded, the prices and sizes of the snapshot and of the operations are `u64`
  -- values, and the statistics count the operations.
  pub load_capture-IsLoaded :
      (reads : Lines) {cap : Capture} → load_capture j reads scales ≡ ok cap → IsLoaded cap
  unfolding load_capture_with_meta
  load_capture-IsLoaded reads h =
      let stripped = sym (load_capture-strip_capture j scales reads) ∙ h in
      let (c, e, same) =
        map_ok-eq-ok strip_capture (load_capture_with_meta j reads scales) stripped in
      let fits = load_lines-FitsCapture reads no_reasoned_capture (tt, tt) e in
      subst IsLoaded same record {
        orders = fits.0;
        ranges = fits.1;
        total = (load_capture-Agrees j scales reads e).total ∙ sym (count_all-ops_of c.updates);
      }
