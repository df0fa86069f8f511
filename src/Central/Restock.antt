-- ===== src/Central/Restock.antt =====
-- src/central_free_list.rs: spans with their free objects, when one more object is free.
use mathlib.Core.Path.{subst}
use rtmalloc.Base.{
  ℕ, ◌≡◌, refl, sym, ap, ◌∙◌, ◌≢◌, inl, inr, true, false, [], ◌∷◌, arith, ◌==◌, if◌then◌else◌,
  Bool-cases, ==→eq, update, update_ne,
}
use rtmalloc.Central.Stocked.{Shelf, Free, Free-frame, spans_of, objects_of}
use rtmalloc.FreeObject.{Words}
use rtmalloc.FreeObject.Links.{Links, Links-update, Links-cons, has-append}
use rtmalloc.Span.{Spans, null}
use rtmalloc.Span.Chain.{Chain, has, has-ne}

-- The object goes in front of those of its span.
abbrev pub restock : ℕ → ℕ → Shelf → Shelf
restock obj span [] = []
restock obj span ((s, xs) ∷ shelf) =
    let rest = restock obj span shelf in if s == span then (s, obj ∷ xs) ∷ shelf else (s, xs) ∷ rest

pub spans_of-restock :
    (obj span : ℕ) (shelf : Shelf) → spans_of (restock obj span shelf) ≡ spans_of shelf
spans_of-restock obj span [] = refl
spans_of-restock obj span ((s, xs) ∷ shelf) = elim (Bool-cases (s == span)) [
  | inl here ↦ rw here refl
  | inr later ↦ rw later (ap (λ ss. s ∷ ss) (spans_of-restock obj span shelf))
]

has-restock :
    (obj span a : ℕ) (shelf : Shelf)
    → a ≢ obj
    → has a (objects_of shelf) ≡ false
    → has a (objects_of (restock obj span shelf)) ≡ false
has-restock obj span a [] ne out = out
has-restock obj span a ((s, xs) ∷ shelf) ne out =
    let parts = has-append a xs (objects_of shelf) in
    elim (Bool-cases (s == span)) [
      | inl here ↦ rw here (ground (arith, out, ne))
      | inr later ↦ rw later (
          ground (
            arith,
            out,
            parts,
            has-append a xs (objects_of (restock obj span shelf)),
            has-restock obj span a shelf ne,
          ))
    ]

-- No span stands on the shelf twice.
abbrev pub Once : Shelf → Type 0
Once [] = Unit
Once ((s, xs) ∷ shelf) = (has s (spans_of shelf) ≡ false) × Once shelf

pub Chain-Once :
    (m : Spans) (before p : ℕ) (shelf : Shelf) → Chain m before p (spans_of shelf) → Once shelf
Chain-Once m before p [] c = tt
Chain-Once m before p ((s, xs) ∷ shelf) (e, ne, back, fresh, rest) =
    (fresh, Chain-Once m s (m s).next shelf rest)

module _ (m g : Spans) (w : Words) (obj span : ℕ) (ne : obj ≢ null) (here : (g span).freelist ≡ obj)
    (others : (s : ℕ) → s ≢ span → (g s).freelist ≡ (m s).freelist) where
  abbrev v : Words
  v = update w obj (m span).freelist

  pub Free-elsewhere :
      (shelf : Shelf)
      → has span (spans_of shelf) ≡ false
      → has obj (objects_of shelf) ≡ false
      → Free m w shelf
      → Free g v shelf
  Free-elsewhere shelf absent out free =
      Free-frame m g w v shelf
        (λ s i. others s (λ e. has-ne span s (spans_of shelf) absent i (sym e)))
        (λ a i.
          update_ne w obj (m span).freelist a (λ e. has-ne obj a (objects_of shelf) out i (sym e)))
        free

  -- The free objects with the new one, where its span is on the shelf.
  pub Free-restock :
      (shelf : Shelf)
      → Once shelf
      → has obj (objects_of shelf) ≡ false
      → has span (spans_of shelf) ≡ true
      → Free m w shelf
      → Free g v (restock obj span shelf)
  Free-restock [] once out there free = absurd (ground (arith, there))
  Free-restock ((s, xs) ∷ shelf) (fresh, once) out there (links, apart, rest) =
      let parts = has-append obj xs (objects_of shelf) in
      let out_xs : has obj xs ≡ false = ground (arith, out, parts) in
      let out_rest : has obj (objects_of shelf) ≡ false = ground (arith, out, parts) in
      elim (Bool-cases (s == span)) [
        | inl same ↦
            let e : s ≡ span = ==→eq s span same in
            rw same (
              subst (λ h. Links v h (obj ∷ xs)) (sym (ap (λ z. (g z).freelist) e ∙ here))
                  (Links-cons w obj (m span).freelist xs ne
                    (subst (λ z. Links w (m z).freelist xs) e links) out_xs),
              λ a i. ground (arith, i, apart a, out_rest),
              Free-elsewhere shelf (subst (λ z. has z (spans_of shelf) ≡ false) e fresh) out_rest
                  rest,
            )
        | inr later ↦
            let s_ne : s ≢ span = λ e. ground (arith, later, e) in
            rw later (
              subst (λ h. Links v h xs) (sym (others s s_ne))
                  (Links-update w (m s).freelist xs obj (m span).freelist out_xs links),
              λ a i.
                  has-restock obj span a shelf (λ e. has-ne obj a xs out_xs i (sym e)) (apart a i),
              Free-restock shelf once out_rest (ground (arith, there, later)) rest,
            )
      ]
