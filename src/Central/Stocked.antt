-- ===== src/Central/Stocked.antt =====
-- src/central_free_list.rs: a list of spans with the free objects of each, while objects are removed.
use mathlib.Core.List.{reverse_aux}
use rtmalloc.Base.{
  ℕ, zero, suc, ◌+◌, ◌≡◌, refl, sym, ap, inl, inr, true, false, List, [], ◌∷◌, ◌++◌, arith, ◌==◌,
  Bool-cases, length, take, drop, ==→eq, min,
}
use rtmalloc.Base.Rounding.{usize}
use rtmalloc.Central.{Removal, take_objects}
use rtmalloc.Central.Take.{Untouched, take_objects-moves}
use rtmalloc.FreeObject.{Words}
use rtmalloc.FreeObject.Links.{Links, Disjoint, Links-frame, has-append, Disjoint-sym}
use rtmalloc.Span.{Spans, null}
use rtmalloc.Span.Chain.{has, has-ne, Chain-frame}
use rtmalloc.Span.Ops.{IsList}

-- Spans with the free objects of each.
abbrev pub Shelf : Type 0
Shelf = List (ℕ × List ℕ)

abbrev pub spans_of : Shelf → List ℕ
spans_of [] = []
spans_of ((span, xs) ∷ shelf) = span ∷ spans_of shelf

abbrev pub objects_of : Shelf → List ℕ
objects_of [] = []
objects_of ((span, xs) ∷ shelf) = xs ++ objects_of shelf

abbrev pub Free : Spans → Words → Shelf → Type 0
Free m w [] = Unit
Free m w ((span, xs) ∷ shelf) =
    Links w (m span).freelist xs × Disjoint xs (objects_of shelf) × Free m w shelf

-- The list has the spans of the shelf with their free objects, and the batch has `acc`.
pub record Stocked (t : Removal) (shelf : Shelf) (acc : List ℕ) : Type 0 where
  pub list : IsList t.central.heap.spans t.central.list.nonempty_spans (spans_of shelf)
  pub free : Free t.central.heap.spans t.central.words shelf
  pub got : Links t.central.words t.head acc
  pub apart : Disjoint (objects_of shelf) acc
  pub count : t.count ≡ length acc

has-drop : (n a : ℕ) (xs : List ℕ) → has a xs ≡ false → has a (drop n xs) ≡ false
has-drop zero a xs out = out
has-drop (suc n) a [] out = refl
has-drop (suc n) a (x ∷ xs) out = has-drop n a xs (ground arith)

pub drop-has : (n a : ℕ) (xs : List ℕ) → has a (drop n xs) ≡ true → has a xs ≡ true
drop-has zero a xs i = i
drop-has (suc n) a [] i = i
drop-has (suc n) a (x ∷ xs) i = ground (arith, drop-has n a xs i)

pub has-reverse_aux :
    (n a : ℕ) (xs acc : List ℕ)
    → has a xs ≡ false
    → has a acc ≡ false
    → has a (reverse_aux (take n xs) acc) ≡ false
has-reverse_aux zero a xs acc out free = free
has-reverse_aux (suc n) a [] acc out free = free
has-reverse_aux (suc n) a (x ∷ xs) acc out free =
    has-reverse_aux n a xs (x ∷ acc) (ground arith) (ground arith)

-- What is said of the free objects stays true where their words and their spans' lists are left.
pub Free-frame :
    (m g : Spans) (w v : Words) (shelf : Shelf)
    → ((p : ℕ) → has p (spans_of shelf) ≡ true → (g p).freelist ≡ (m p).freelist)
    → ((a : ℕ) → has a (objects_of shelf) ≡ true → v a ≡ w a)
    → Free m w shelf
    → Free g v shelf
Free-frame m g w v [] spans words free = tt
Free-frame m g w v ((span, xs) ∷ shelf) spans words (links, apart, rest) = (
  rw (spans span (ground arith)) (
      Links-frame w v _ xs (λ a i. words a (ground (arith, has-append a xs (objects_of shelf))))
        links),
  apart,
  Free-frame m g w v shelf (λ p i. spans p (ground arith))
      (λ a i. words a (ground (arith, has-append a xs (objects_of shelf)))) rest,
)

-- A removal that spares the links and the handle keeps the list.
IsList-frame :
    (span : ℕ) (xs ys : List ℕ) (n : ℕ) (s t : Removal)
    → Untouched span n ys s t
    → IsList s.central.heap.spans s.central.list.nonempty_spans xs
    → IsList t.central.heap.spans t.central.list.nonempty_spans xs
IsList-frame span xs ys n s t same is = rw same.nonempty_spans (record {
  chain = Chain-frame s.central.heap.spans t.central.heap.spans null _ xs (λ a i. links a) is.chain;
  count = is.count;
})
  where
    links :
        (a : ℕ)
        → ((t.central.heap.spans a).next ≡ (s.central.heap.spans a).next)
          × ((t.central.heap.spans a).prev ≡ (s.central.heap.spans a).prev)
    links a = elim (Bool-cases (a == span)) [
      | inl here ↦ rw (==→eq a span here) (same.next, same.prev)
      | inr other ↦
          let e = same.others a (λ (f : a ≡ span). ground (arith, other, f)) in
          (ap (λ s. s.next) e, ap (λ s. s.prev) e)
    ]

module _ (span : ℕ) (xs : List ℕ) (shelf : Shelf) (acc : List ℕ) (t : Removal) where
  -- The objects of the first span are moved; the span stays for now.
  pub take_objects-Stocked :
      (wanted : ℕ)
      → Stocked t ((span, xs) ∷ shelf) acc
      → Stocked
          (take_objects wanted span t)
          ((span, drop wanted xs) ∷ shelf)
          (reverse_aux (take wanted xs) acc)
        × (usize ((take_objects wanted span t).central.list.num_free + min wanted (length xs))
            ≡ usize t.central.list.num_free)
        × ((a : ℕ)
            → has a xs ≡ false
            → (take_objects wanted span t).central.words a ≡ t.central.words a)
  take_objects-Stocked wanted is =
      let r = take_objects wanted span t in
      let (links, apart, rest) = is.free in
      let (e, ne, back, fresh, chain) = is.list.chain in
      let (done, same) = take_objects-moves wanted span t xs acc (record {
        left = links;
        got = is.got;
        apart = λ a i. is.apart a (ground (arith, has-append a xs (objects_of shelf)));
        count = is.count;
      }) in
      let kept : (p : ℕ)
          → has p (spans_of shelf) ≡ true
          → r.central.heap.spans p ≡ t.central.heap.spans p =
        λ p i. same.others p (λ f. has-ne span p (spans_of shelf) fresh i (sym f)) in
      (
        record {
          list =
              IsList-frame span (span ∷ spans_of shelf) xs (min wanted (length xs)) t r same
                is.list;
          free = (
            done.left,
            λ a i. apart a (drop-has wanted a xs i),
            Free-frame t.central.heap.spans r.central.heap.spans t.central.words r.central.words
                shelf (λ p i. ap (λ s. s.freelist) (kept p i))
                (λ a i. same.words a (Disjoint-sym a xs (objects_of shelf) apart i)) rest,
          );
          got = done.got;
          apart = λ a i. left a i (done.apart a);
          count = done.count;
        },
        same.num_free,
        same.words,
      )
    where
      left :
          (a : ℕ)
          → has a (drop wanted xs ++ objects_of shelf) ≡ true
          → (has a (drop wanted xs) ≡ true → has a (reverse_aux (take wanted xs) acc) ≡ false)
          → has a (reverse_aux (take wanted xs) acc) ≡ false
      left a i here = elim (Bool-cases (has a (drop wanted xs))) [
        | inl there ↦ here there
        | inr behind ↦
            let (_, apart, _) = is.free in
            let inside : has a (objects_of shelf) ≡ true =
              ground (arith, has-append a (drop wanted xs) (objects_of shelf)) in
            has-reverse_aux wanted a xs acc (Disjoint-sym a xs (objects_of shelf) apart inside)
              (is.apart a (ground (arith, has-append a xs (objects_of shelf))))
      ]
