-- ===== src/Central/Rounds.antt =====
-- src/central_free_list.rs: a round of the removal loop, which takes from the first span.
use mathlib.Core.List.{reverse_aux}
use mathlib.Core.Path.{subst}
use rtmalloc.Base.{
  ℕ, ◌+◌, ◌-◌, ◌<◌, ◌≤◌, ◌≡◌, refl, sym, ap, true, false, List, [], ◌∷◌, arith, ◌==◌, if◌then◌else◌,
  length, take, drop, min, take-all, length-drop,
}
use rtmalloc.Base.Rounding.{usize}
use rtmalloc.Central.{Removal, take_objects, take_from_head, remove_nonempty}
use rtmalloc.Central.Stocked.{Shelf, Stocked, Free-frame, spans_of, take_objects-Stocked}
use rtmalloc.Span.{null, remove}
use rtmalloc.Span.Chain.{has}
use rtmalloc.Span.Unlink.{remove-IsList}

-- A span with no object left leaves the list.
remove_nonempty-Stocked :
    (span : ℕ) (shelf : Shelf) (acc : List ℕ) (t : Removal)
    → Stocked t ((span, []) ∷ shelf) acc
    → Stocked (record t { central = remove_nonempty span t.central }) shelf acc
remove_nonempty-Stocked span shelf acc t is =
    let m = t.central.heap.spans in
    let l = t.central.list.nonempty_spans in
    let (list, links, _, _) =
      remove-IsList m l (span ∷ spans_of shelf) span is.list (ground arith) in
    let first : (span == span) ≡ true = ground arith in
    let (_, _, rest) = is.free in
    record {
      list = rw first at list;
      free =
          Free-frame m (remove span (m, l)).0 t.central.words t.central.words shelf
            (λ p i. ap (λ s. s.freelist) (links.bodies p)) (λ a i. refl) rest;
      got = is.got;
      apart = is.apart;
      count = is.count;
    }

-- One round: a part of the first span's objects, and the span stays, or all, and it leaves.
pub data Step (wanted : ℕ) (span : ℕ) (xs : List ℕ) (shelf : Shelf) (acc : List ℕ) (r : Removal)
    : Type 0 where
  part :
      wanted < length xs
      → Stocked r ((span, drop wanted xs) ∷ shelf) (reverse_aux (take wanted xs) acc)
      → Step wanted span xs shelf acc r
  all : length xs ≤ wanted → Stocked r shelf (reverse_aux xs acc) → Step wanted span xs shelf acc r

-- The count of the list is lower by the objects moved, and no word of an object that is not among
-- `objects` was written.
pub record Accounted (moved : ℕ) (objects : List ℕ) (t r : Removal) : Type 0 where
  pub num_free : usize (r.central.list.num_free + moved) ≡ usize t.central.list.num_free
  pub words : (a : ℕ) → has a objects ≡ false → r.central.words a ≡ t.central.words a

-- `take_from_head` of a known span.
abbrev after_moves : ℕ → Removal → Removal
after_moves span t1 =
    if (t1.central.heap.spans span).freelist == null
    then record t1 { central = remove_nonempty span t1.central }
    else t1

after_moves-Step :
    (wanted span : ℕ) (xs ys : List ℕ) (shelf : Shelf) (acc : List ℕ) (t t1 : Removal)
    → drop wanted xs ≡ ys
    → Stocked t1 ((span, ys) ∷ shelf) (reverse_aux (take wanted xs) acc)
    → Accounted (min wanted (length xs)) xs t t1
    → Step wanted span xs shelf acc (after_moves span t1)
      × Accounted (min wanted (length xs)) xs t (after_moves span t1)
after_moves-Step wanted span xs [] shelf acc t t1 e is same =
    let no_object : ((t1.central.heap.spans span).freelist == null) ≡ true =
      ground (arith, is.free.0) in
    let enough : length xs ≤ wanted =
      omega (arith, length-drop wanted xs, ap (λ zs. length zs) e) in
    rw no_object (
      Step.all enough (
          subst
            (λ zs.
              Stocked (record t1 { central = remove_nonempty span t1.central }) shelf
                (reverse_aux zs acc))
            (take-all wanted xs enough) (remove_nonempty-Stocked span shelf _ t1 is)),
      record { num_free = same.num_free; words = same.words },
    )
after_moves-Step wanted span xs (y ∷ ys) shelf acc t t1 e is same =
    let (f, ne, _, _) = is.free.0 in
    let some_object : ((t1.central.heap.spans span).freelist == null) ≡ false =
      ground (arith, f, ne) in
    rw some_object (
      Step.part (omega (arith, length-drop wanted xs, ap (λ zs. length zs) e)) (
          subst (λ zs. Stocked t1 ((span, zs) ∷ shelf) (reverse_aux (take wanted xs) acc)) (sym e)
            is),
      same,
    )

pub take_from_head-Step :
    (batch_size span : ℕ) (xs : List ℕ) (shelf : Shelf) (acc : List ℕ) (t : Removal)
    → Stocked t ((span, xs) ∷ shelf) acc
    → let wanted = batch_size - length acc in
      Step wanted span xs shelf acc (take_from_head batch_size t)
      × Accounted (min wanted (length xs)) xs t (take_from_head batch_size t)
unfolding take_from_head
take_from_head-Step batch_size span xs shelf acc t is =
    let wanted = batch_size - length acc in
    let (moved, num_free, words) = take_objects-Stocked span xs shelf acc t wanted is in
    subst
      (λ s.
        Step wanted span xs shelf acc (after_moves s (take_objects (batch_size - t.count) s t))
        × Accounted (min wanted (length xs)) xs t
            (after_moves s (take_objects (batch_size - t.count) s t)))
      (sym is.list.chain.0)
      (subst
        (λ n.
          Step wanted span xs shelf acc (after_moves span (take_objects (batch_size - n) span t))
          × Accounted (min wanted (length xs)) xs t
              (after_moves span (take_objects (batch_size - n) span t)))
        (sym is.count)
        (after_moves-Step wanted span xs (drop wanted xs) shelf acc t (take_objects wanted span t)
          refl moved (record { num_free = num_free; words = words })))
