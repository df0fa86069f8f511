-- ===== src/PageHeap/Carving.antt =====
-- src/page_heap.rs: how `carve_span` divides a run of pages.
use mathlib.Core.Path.{subst}
use rtmalloc.Base.{
  ℕ, ◌+◌, ◌-◌, ◌≤◌, ◌<◌, ◌≡◌, refl, sym, ap, ◌∙◌, ◌≢◌, ◌⊎◌, inl, inr, arith, Option, none, some,
  ◌>>=◌, leb, ltb, ◌==◌, if◌then◌else◌, Bool-cases, ==→eq,
}
use rtmalloc.Base.Rounding.{usize}
use rtmalloc.Build.{ResolvedConfig}
use rtmalloc.PageHeap.{Backend, split_span, carve_span, hand_out, list_at}
use rtmalloc.PageHeap.Coalescing.{run}
use rtmalloc.PageMap.{PageMap, register_span, register_span_endpoints}
use rtmalloc.Platform.{Os}
use rtmalloc.Span.{SpanState, Span, SpanList, null}
use rtmalloc.Span.Slab.{Slabs, alloc_span}
use rtmalloc.Span.Slab.Writes.{KeepsOthers, alloc_span-KeepsOthers}
use rtmalloc.PageHeap.Splitting.{
  Registered, SameLists, Handed, RestRegistered, Listed, Split, hand_out-Handed, split_span-Split,
}

module _ (cfg : ResolvedConfig) where
  -- The span in use with `pages` pages.
  abbrev InUse : ℕ → ℕ → Backend → Backend → Type 0
  InUse span pages b b' = run (b'.spans span) ≡ ((b.spans span).start_page, pages, SpanState.in_use)

  -- Why the span keeps all its pages, and the OS by then: they are the number asked for, or there is
  -- no memory for the struct of a remainder.
  abbrev IsWhole : ℕ → ℕ → Backend → Os → Type 0
  IsWhole span num_pages b os =
      ((num_pages ≡ (b.spans span).num_pages) × (os ≡ b.os))
      ⊎ ((num_pages < (b.spans span).num_pages)
          × ((s : Slabs) × (alloc_span cfg.page_size b.slabs ≡ some (null, s)) × (os ≡ s.os)))

  -- The struct of the remainder of a span that is too large, and what the page map answers for it.
  abbrev HasRest : ℕ → ℕ → Backend → ℕ → Option (PageMap × Os) → Type 0
  HasRest span num_pages b remainder found =
      (num_pages < (b.spans span).num_pages)
      × (remainder ≢ null)
      × ((s : Slabs) × (alloc_span cfg.page_size b.slabs ≡ some (remainder, s))
          × RestRegistered cfg span remainder num_pages b (b.pagemap, s.os) found)

  -- A panic: the span is too small, `alloc_span` panics, or the page map refuses the end pages of the
  -- remainder or the pages of the span, whole or cut. Else the span, whole or in two parts.
  abbrev pub CarveOutcome : ℕ → ℕ → Backend → Option (ℕ × Backend) → Type 0
  CarveOutcome span num_pages b none =
      ((b.spans span).num_pages < num_pages)
      ⊎ (((num_pages < (b.spans span).num_pages) × (alloc_span cfg.page_size b.slabs ≡ none))
          ⊎ (((remainder : ℕ) × HasRest span num_pages b remainder none)
              ⊎ (((os : Os) × IsWhole span num_pages b os
                    × Registered cfg span (b.spans span).num_pages b (b.pagemap, os) none)
                  ⊎ ((remainder : ℕ) × (s : PageMap × Os) × HasRest span num_pages b remainder
                        (some s)
                      × Registered cfg span num_pages b s none))))
  CarveOutcome span num_pages b (some (r, b')) =
      (r ≡ span)
      × (num_pages ≤ (b.spans span).num_pages)
      × ((InUse span (b.spans span).num_pages b b'
            × ((x : ℕ) → x ≢ span → x ≢ null → run (b'.spans x) ≡ run (b.spans x))
            × ((os : Os) × IsWhole span num_pages b os
                × Registered cfg span (b.spans span).num_pages b (b.pagemap, os)
                    (some (b'.pagemap, b'.os)))
            × SameLists b b')
          ⊎ ((remainder : ℕ) × InUse span num_pages b b'
              × (run (b'.spans remainder) ≡ (
                usize ((b.spans span).start_page + num_pages),
                (b.spans span).num_pages - num_pages,
                SpanState.free,
              ))
              × ((x : ℕ) → x ≢ span → x ≢ remainder → run (b'.spans x) ≡ run (b.spans x))
              × ((s : PageMap × Os) × HasRest span num_pages b remainder (some s)
                  × Registered cfg span num_pages b s (some (b'.pagemap, b'.os)))
              × Listed cfg remainder ((b.spans span).num_pages - num_pages) b b'))

  -- A span that is handed out whole.
  whole :
      (span num_pages : ℕ) (b b1 : Backend) (got : Option (ℕ × Backend))
      → num_pages ≤ (b.spans span).num_pages
      → IsWhole span num_pages b b1.os
      → b1.spans span ≡ b.spans span
      → b1.pagemap ≡ b.pagemap
      → SameLists b b1
      → ((x : ℕ) → x ≢ null → b1.spans x ≡ b.spans x)
      → Handed cfg span b1 got
      → CarveOutcome span num_pages b got
  whole span num_pages b b1 none le why here map lists same e = inr (
      inr (
        inr (
          inl (
            b1.os,
            why,
            subst
                (λ (t : Span).
                  register_span cfg.page_size span t.start_page t.num_pages (b.pagemap, b1.os)
                  ≡ none)
                here
                (subst
                  (λ (m : PageMap).
                    register_span cfg.page_size span (b1.spans span).start_page
                      (b1.spans span).num_pages (m, b1.os)
                    ≡ none)
                  map e),
          ))))
  whole span num_pages b b1 (some (r, b')) le why here map lists same
        (e, in_use, others, there, after) =
      (
        e,
        le,
        inl (
          in_use ∙ ap (λ (s : Span). (s.start_page, s.num_pages, SpanState.in_use)) here,
          (λ x not_span not_null. others x not_span ∙ ap run (same x not_null)),
          (
            b1.os,
            why,
            subst
                (λ (t : Span).
                  register_span cfg.page_size span t.start_page t.num_pages (b.pagemap, b1.os)
                  ≡ some (b'.pagemap, b'.os))
                here
                (subst
                  (λ (m : PageMap).
                    register_span cfg.page_size span (b1.spans span).start_page
                      (b1.spans span).num_pages (m, b1.os)
                    ≡ some (b'.pagemap, b'.os))
                  map there),
          ),
          (after.0 ∙ lists.0, after.1 ∙ lists.1),
        ),
      )

  -- What the page map answers for the span of a front part.
  front_registered :
      (span num_pages : ℕ) (b b2 : Backend) (found : Option (PageMap × Os))
      → (b2.spans span).start_page ≡ (b.spans span).start_page
      → (b2.spans span).num_pages ≡ num_pages
      → Registered cfg span (b2.spans span).num_pages b2 (b2.pagemap, b2.os) found
      → Registered cfg span num_pages b (b2.pagemap, b2.os) found
  front_registered span num_pages b b2 found start pages e =
      sym (
        ap (λ (t : ℕ × ℕ). register_span cfg.page_size span t.0 t.1 (b2.pagemap, b2.os))
          (λ i. (start i, pages i)))
      ∙ e

  -- Lists that stay as they are still have the remainder in front.
  Listed-same :
      (remainder pages : ℕ) (b b2 b' : Backend)
      → SameLists b2 b'
      → Listed cfg remainder pages b b2
      → Listed cfg remainder pages b b'
  Listed-same remainder pages b b2 b' (small, large) listed =
      let same : list_at cfg.max_pages pages b' ≡ list_at cfg.max_pages pages b2 =
        λ i. if leb pages cfg.max_pages then small i pages else large i in
      (
        ap (λ (l : SpanList). l.head) same ∙ listed.0,
        ap (λ (l : SpanList). l.count) same ∙ listed.1,
      )

  in_two :
      (span num_pages remainder : ℕ) (b b2 : Backend) (slabs : Slabs) (got : Option (ℕ × Backend))
      → num_pages < (b.spans span).num_pages
      → remainder ≢ null
      → remainder ≢ span
      → alloc_span cfg.page_size b.slabs ≡ some (remainder, slabs)
      → ((x : ℕ) → x ≢ remainder → slabs.spans x ≡ b.spans x)
      → Split cfg span remainder num_pages (record b { slabs = slabs }) (some b2)
      → Handed cfg span b2 got
      → CarveOutcome span num_pages b got
  in_two span num_pages remainder b b2 slabs got lt some_struct apart struct same
        (front, rest, others, mapped, listed) handed =
      given got handed
    where
      here : slabs.spans span ≡ b.spans span
      here = same span (λ eq. apart (sym eq))

      has_rest : HasRest span num_pages b remainder (some (b2.pagemap, b2.os))
      has_rest = (
        lt,
        some_struct,
        (
          slabs,
          struct,
          subst
              (λ (t : Span).
                register_span_endpoints cfg.page_size remainder (usize (t.start_page + num_pages))
                  (t.num_pages - num_pages) (b.pagemap, slabs.os)
                ≡ some (b2.pagemap, b2.os))
              here mapped,
        ),
      )

      registered :
          (found : Option (PageMap × Os))
          → Registered cfg span (b2.spans span).num_pages b2 (b2.pagemap, b2.os) found
          → Registered cfg span num_pages b (b2.pagemap, b2.os) found
      registered found e =
          front_registered span num_pages b b2 found
            (ap (λ (t : ℕ × ℕ × SpanState). t.0) front ∙ ap (λ (s : Span). s.start_page) here)
            (ap (λ (t : ℕ × ℕ × SpanState). t.1) front) e

      given :
          (got : Option (ℕ × Backend)) → Handed cfg span b2 got → CarveOutcome span num_pages b got
      given none e =
          inr (inr (inr (inr (remainder, (b2.pagemap, b2.os), has_rest, registered none e))))
      given (some (r, b')) (e, in_use, others', there, after) = (
        e,
        omega (arith, lt),
        inr (
          remainder,
          in_use
              ∙ ap (λ (t : ℕ × ℕ × SpanState). (t.0, t.1, SpanState.in_use)) front
              ∙ ap (λ (s : Span). (s.start_page, num_pages, SpanState.in_use)) here,
          others' remainder apart
              ∙ rest
              ∙ ap
                  (λ (s : Span).
                    (usize (s.start_page + num_pages), s.num_pages - num_pages, SpanState.free))
                  here,
          (λ x not_span not_rest.
              others' x not_span ∙ others x not_span not_rest ∙ ap run (same x not_rest)),
          ((b2.pagemap, b2.os), has_rest, registered (some (b'.pagemap, b'.os)) there),
          subst (λ (t : Span). Listed cfg remainder (t.num_pages - num_pages) b b') here
              (Listed-same remainder ((slabs.spans span).num_pages - num_pages) b b2 b' after
                listed),
        ),
      )

  parts_given :
      (span num_pages remainder : ℕ) (b : Backend) (slabs : Slabs) (got : Option Backend)
      → num_pages < (b.spans span).num_pages
      → remainder ≢ null
      → remainder ≢ span
      → alloc_span cfg.page_size b.slabs ≡ some (remainder, slabs)
      → ((x : ℕ) → x ≢ remainder → slabs.spans x ≡ b.spans x)
      → Split cfg span remainder num_pages (record b { slabs = slabs }) got
      → CarveOutcome span num_pages b (got >>= hand_out cfg span)
  parts_given span num_pages remainder b slabs none lt some_struct apart struct same e = inr (
      inr (
        inl (
          remainder,
          (
            lt,
            some_struct,
            (
              slabs,
              struct,
              subst
                  (λ (t : Span).
                    register_span_endpoints cfg.page_size remainder
                      (usize (t.start_page + num_pages)) (t.num_pages - num_pages)
                      (b.pagemap, slabs.os)
                    ≡ none)
                  (same span (λ eq. apart (sym eq))) e,
            ),
          ),
        )))
  parts_given span num_pages remainder b slabs (some b2) lt some_struct apart struct same parts =
      in_two span num_pages remainder b b2 slabs (hand_out cfg span b2) lt some_struct apart struct
        same parts (hand_out-Handed cfg span b2)

  -- For what `alloc_span` answered.
  with_struct :
      (span num_pages : ℕ) (b : Backend) (got : Option (ℕ × Slabs))
      → num_pages < (b.spans span).num_pages
      → ((r : ℕ) (s : Slabs) → alloc_span cfg.page_size b.slabs ≡ some (r, s) → r ≢ span)
      → alloc_span cfg.page_size b.slabs ≡ got
      → KeepsOthers b.slabs got
      → CarveOutcome span num_pages b (do
        (remainder, slabs) ← got
        let b1 = record b { slabs = slabs }
        if remainder == null
            then hand_out cfg span b1
            else split_span cfg span remainder num_pages b1 >>= hand_out cfg span)
  with_struct span num_pages b none lt fresh e same = inr (inl (lt, e))
  with_struct span num_pages b (some (remainder, slabs)) lt fresh e same =
      let b1 : Backend = record b { slabs = slabs } in
      let apart = fresh remainder slabs e in
      elim (Bool-cases (remainder == null)) [
        | inl nothing ↦
            let is_null = ==→eq remainder null nothing in
            rw nothing (
              whole span num_pages b b1 (hand_out cfg span b1) (omega (arith, lt))
                (inr (lt, (slabs, e ∙ ap (λ (r : ℕ). some (r, slabs)) is_null, refl)))
                (same span (λ eq. apart (sym eq))) refl (refl, refl)
                (λ x ne. same x (λ eq. ne (eq ∙ is_null))) (hand_out-Handed cfg span b1))
        | inr some_struct ↦ rw some_struct (
            parts_given span num_pages remainder b slabs
              (split_span cfg span remainder num_pages b1) lt (ground (arith, some_struct)) apart e
              same (split_span-Split cfg span remainder num_pages b1 apart))
      ]

  -- `carve_span` gives the span, in use from its old first page on, with its pages registered in the
  -- page map. It keeps all its pages, and the lists stay as they are, only where they are the
  -- number asked for or there is no memory for another struct. Else it has that number, and the rest,
  -- from the page behind on, is a free span of its own, in front in the list of its size, with its end
  -- pages registered. No other run changes, that of null aside. It panics only if the span is too small, or if that very
  -- call of `alloc_span` or of the page map does. The condition is that a struct which `alloc_span`
  -- gives is not the span's.
  pub carve_span-Outcome :
      (span num_pages : ℕ) (b : Backend)
      → ((r : ℕ) (s : Slabs) → alloc_span cfg.page_size b.slabs ≡ some (r, s) → r ≢ span)
      → CarveOutcome span num_pages b (carve_span cfg span num_pages b)
  unfolding carve_span
  carve_span-Outcome span num_pages b fresh =
      let total = (b.spans span).num_pages in
      elim (Bool-cases (leb num_pages total)) [
        | inr small ↦ rw small (inl (ground (arith, small)))
        | inl le ↦ elim (Bool-cases (ltb num_pages total)) [
          | inl more ↦
              rw (le, more)
                (with_struct span num_pages b (alloc_span cfg.page_size b.slabs)
                  (ground (arith, more)) fresh refl (alloc_span-KeepsOthers cfg.page_size b.slabs))
          | inr exact ↦
              rw (le, exact)
                (whole span num_pages b b (hand_out cfg span b) (ground (arith, le))
                  (inl (ground (arith, le, exact), refl)) refl refl (refl, refl) (λ x ne. refl)
                  (hand_out-Handed cfg span b))
        ]
      ]
