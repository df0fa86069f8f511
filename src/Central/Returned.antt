-- ===== src/Central/Returned.antt =====
-- src/central_free_list.rs: an object that `insert_range` gives back to its span.
use mathlib.Core.Path.{subst}
use rtmalloc.Base.{
  ℕ, ◌≡◌, refl, sym, ap, ◌∙◌, ◌≢◌, inl, inr, true, false, not, [], ◌∷◌, arith, ◌==◌, if◌then◌else◌,
  Bool-cases, ==→eq, update, update_self, update_ne,
}
use rtmalloc.Base.Rounding.{u32_sub}
use rtmalloc.Central.{Central, Removal}
use rtmalloc.Central.Insert.{add_object}
use rtmalloc.Central.Restock.{restock, spans_of-restock, Chain-Once, Free-elsewhere, Free-restock}
use rtmalloc.Central.Stocked.{Shelf, Stocked, spans_of, objects_of}
use rtmalloc.FreeObject.Links.{Links, Links-cons}
use rtmalloc.Span.{Span, Spans, null, push}
use rtmalloc.Span.Chain.{has, Chain-frame}
use rtmalloc.Span.Ops.{IsList, push-IsList}

-- The shelf after an object came back: its span is on it, or comes in front.
abbrev pub restocked : ℕ → ℕ → Shelf → Shelf
restocked obj span shelf =
    if has span (spans_of shelf) then restock obj span shelf else (span, obj ∷ []) ∷ shelf

abbrev pub at_rest : Central → Removal
at_rest c = record { central = c; head = null; count = 0 }

module _ (obj span : ℕ) (shelf : Shelf) (c : Central) (is : Stocked (at_rest c) shelf [])
    (ne : obj ≢ null) (out : has obj (objects_of shelf) ≡ false) where
  abbrev m : Spans
  m = c.heap.spans

  abbrev given_back : Span
  given_back = record (m span) {
    freelist = obj;
    allocated_count = u32_sub (m span).allocated_count 1;
  }

  abbrev g : Spans
  g = update m span given_back

  g-given_back : (g span).freelist ≡ obj
  g-given_back = ap (λ s. s.freelist) (update_self m span given_back)

  g-unchanged : (s : ℕ) → s ≢ span → (g s).freelist ≡ (m s).freelist
  g-unchanged s other = ap (λ s. s.freelist) (update_ne m span given_back s other)

  g-IsList : IsList g c.list.nonempty_spans (spans_of shelf)
  g-IsList = record {
    chain =
        Chain-frame m g null c.list.nonempty_spans.head (spans_of shelf) (λ a i. links a)
          is.list.chain;
    count = is.list.count;
  }
    where
      links : (a : ℕ) → ((g a).next ≡ (m a).next) × ((g a).prev ≡ (m a).prev)
      links a = elim (Bool-cases (a == span)) [
        | inl e ↦
            let here = ==→eq a span e in
            let same = update_self m span given_back in
            subst (λ b. ((g b).next ≡ (m b).next) × ((g b).prev ≡ (m b).prev)) (sym here)
              (ap (λ s. s.next) same, ap (λ s. s.prev) same)
        | inr f ↦
            let same = update_ne m span given_back a (λ (e : a ≡ span). ground (arith, f, e)) in
            (ap (λ s. s.next) same, ap (λ s. s.prev) same)
      ]

  add_object-kept :
      (m span).freelist ≢ null
      → has span (spans_of shelf) ≡ true
      → Stocked (at_rest (add_object obj span c)) (restock obj span shelf) []
  unfolding add_object
  add_object-kept some_object there =
      let kept : ((m span).freelist == null) ≡ false = ground (arith, some_object) in
      rw kept (record {
        list =
            subst (IsList g c.list.nonempty_spans) (sym (spans_of-restock obj span shelf)) g-IsList;
        free =
            Free-restock m g c.words obj span ne g-given_back g-unchanged shelf
              (Chain-Once m null c.list.nonempty_spans.head shelf is.list.chain) out there is.free;
        got = refl;
        apart = λ a i. refl;
        count = refl;
      })

  add_object-new :
      (m span).freelist ≡ null
      → has span (spans_of shelf) ≡ false
      → span ≢ null
      → Stocked (at_rest (add_object obj span c)) ((span, obj ∷ []) ∷ shelf) []
  unfolding add_object
  add_object-new no_object absent span_ne =
      let l = c.list.nonempty_spans in
      let h = (push span (g, l)).0 in
      let was_full : ((m span).freelist == null) ≡ true = ground (arith, no_object) in
      let (list, links) = push-IsList g l (spans_of shelf) span g-IsList span_ne absent in
      let same : (s : ℕ) → (h s).freelist ≡ (g s).freelist =
        λ s. ap (λ z. z.freelist) (links.bodies s) in
      rw was_full (record {
        list = list;
        free = (
          subst (λ f. Links (update c.words obj (m span).freelist) f (obj ∷ []))
              (sym (same span ∙ g-given_back))
              (Links-cons c.words obj (m span).freelist [] ne no_object refl),
          λ a i. ground (arith, i, out),
          Free-elsewhere m h c.words obj span ne (same span ∙ g-given_back)
              (λ s other. same s ∙ g-unchanged s other) shelf absent out is.free,
        );
        got = refl;
        apart = λ a i. refl;
        count = refl;
      })

  -- An object that is free nowhere comes back to its span, in a list with the spans that have a free
  -- object and no others: it stands in front of the span's objects where the span is in the list, and
  -- else the span comes into the list in front, with that object alone. All other objects stay.
  pub add_object-restocked :
      ((m span).freelist == null) ≡ not (has span (spans_of shelf))
      → span ≢ null
      → Stocked (at_rest (add_object obj span c)) (restocked obj span shelf) []
  add_object-restocked consistent span_ne = elim (Bool-cases (has span (spans_of shelf))) [
    | inl there ↦ rw there (add_object-kept (ground (arith, consistent, there)) there)
    | inr absent ↦ rw absent (add_object-new (ground (arith, consistent, absent)) absent span_ne)
  ]
