-- ===== src/Span/Slab/Ends.antt =====
-- src/span.rs: how `alloc_span` ends, and what it does after `dealloc_span`.
use rtmalloc.Base.{
  ℕ, ◌+◌, ◌%◌, ◌^◌, ◌≤◌, ◌<◌, ◌≡◌, ◌≢◌, refl, ◌∙◌, inl, inr, true, false, some, arith, leb, ◌==◌,
  if◌then◌else◌, update, update_self, update_ne, Bool-cases, ==→eq, ne→==, leb→le, le→leb,
}
use rtmalloc.Base.Rounding.{usize, align_up}
use rtmalloc.Platform.{page_alloc}
use rtmalloc.Span.{null, set_next}
use rtmalloc.Span.Slab.{
  Slabs, span_size, span_align, inner_alloc_span, inner_dealloc_span, alloc_span, dealloc_span,
  zeroed,
}

module _ (page_size : ℕ) (s : Slabs) where
  -- The four ways in which the inner allocation ends.
  data Outcome (r : ℕ × Slabs) : Type 0 where
    reused :
        s.slab.free_list ≢ null
        → r ≡ (
          s.slab.free_list,
          record s { slab = record (s.slab) { free_list = (s.spans s.slab.free_list).next } },
        )
        → Outcome r
    bumped :
        s.slab.free_list ≡ null
        → usize (align_up s.slab.bump_ptr span_align + span_size) ≤ s.slab.bump_end
        → r ≡ (
          align_up s.slab.bump_ptr span_align,
          record s {
            slab = record (s.slab) {
              bump_ptr = usize (align_up s.slab.bump_ptr span_align + span_size);
            };
          },
        )
        → Outcome r
    refused :
        s.slab.free_list ≡ null
        → r ≡ (null, record s { os = (page_alloc page_size page_size s.os).1 })
        → Outcome r
    renewed :
        s.slab.free_list ≡ null
        → (page_alloc page_size page_size s.os).0 ≢ null
        → r ≡ (
          (page_alloc page_size page_size s.os).0,
          record s {
            slab = record (s.slab) {
              bump_ptr = (page_alloc page_size page_size s.os).0 + span_size;
              bump_end = (page_alloc page_size page_size s.os).0 + page_size;
            };
            os = (page_alloc page_size page_size s.os).1;
          },
        )
        → Outcome r

  module _ (room : span_size ≤ page_size)
      (aligned : (page_alloc page_size page_size s.os).0 % span_align ≡ 0)
      (low : (page_alloc page_size page_size s.os).0 + page_size + span_align < 2 ^ 64) where
    page-aligned :
        align_up (page_alloc page_size page_size s.os).0 span_align
        ≡ (page_alloc page_size page_size s.os).0
    page-aligned = omega arith

    new_ptr :
        usize ((page_alloc page_size page_size s.os).0 + span_size)
        ≡ (page_alloc page_size page_size s.os).0 + span_size
    new_ptr = omega arith

    new_end :
        usize ((page_alloc page_size page_size s.os).0 + page_size)
        ≡ (page_alloc page_size page_size s.os).0 + page_size
    new_end = omega arith

    new_fits :
        leb
          ((page_alloc page_size page_size s.os).0 + span_size)
          ((page_alloc page_size page_size s.os).0 + page_size)
        ≡ true
    new_fits = le→leb _ _ (omega arith)

    inner_alloc_span-Outcome :
        (r : ℕ × Slabs) × (inner_alloc_span page_size 2 s ≡ some r) × Outcome r
    unfolding inner_alloc_span
    inner_alloc_span-Outcome = elim (Bool-cases (s.slab.free_list == null)) [
      | inr some_spare ↦ (_, rw some_spare, reused (ground arith) refl)
      | inl no_spare ↦
          elim (Bool-cases
            (leb (usize (align_up s.slab.bump_ptr span_align + span_size)) s.slab.bump_end)) [
              | inl fits ↦
                  (_, rw (no_spare, fits), bumped (==→eq _ _ no_spare) (leb→le _ _ fits) refl)
              | inr full ↦ elim (Bool-cases ((page_alloc page_size page_size s.os).0 == null)) [
                | inl no_page ↦ (_, rw (no_spare, full, no_page), refused (==→eq _ _ no_spare) refl)
                | inr some_page ↦ (
                  _,
                  rw (no_spare, full, some_page, page-aligned, new_ptr, new_end, new_fits),
                  renewed (==→eq _ _ no_spare) (ground arith) refl,
                )
              ]
            ]
    ]

-- What `alloc_span` answers is what the inner allocation answers, with the struct zeroed.
abbrev cleared : ℕ × Slabs → ℕ × Slabs
cleared (span, s) =
    (span, if span == null then s else record s { spans = update s.spans span zeroed })

-- `alloc_span` ends within its two levels, whatever the state of the slab, if the page that the OS
-- would give is aligned, has room for a span and lies below 2^64.
pub alloc_span-total :
    (page_size : ℕ) (s : Slabs)
    → span_size ≤ page_size
    → (page_alloc page_size page_size s.os).0 % span_align ≡ 0
    → (page_alloc page_size page_size s.os).0 + page_size + span_align < 2 ^ 64
    → (r : ℕ × Slabs) × (alloc_span page_size s ≡ some r)
unfolding alloc_span
alloc_span-total page_size s room aligned low =
    let (r, e, _) = inner_alloc_span-Outcome page_size s room aligned low in (cleared r, rw e)

-- A struct that is recycled is the next one to be given out, all zero, and the slab, the system
-- and every other struct are then as they were before.
pub alloc_span-dealloc_span :
    (page_size span : ℕ) (s : Slabs)
    → span ≢ null
    → (r : Slabs) × (alloc_span page_size (dealloc_span span s) ≡ some (span, r))
      × (r.spans span ≡ zeroed)
      × ((q : ℕ) → q ≢ span → r.spans q ≡ s.spans q)
      × (r.slab ≡ s.slab)
      × (r.os ≡ s.os)
unfolding alloc_span dealloc_span inner_alloc_span inner_dealloc_span
alloc_span-dealloc_span page_size span s ne =
    let some_span : (span == null) ≡ false = ne→== span null ne in
    let linked = set_next s.spans span s.slab.free_list in
    (
      record s { spans = update linked span zeroed },
      rw (
        some_span,
        update_self s.spans span (record (s.spans span) { next = s.slab.free_list }),
        some_span,
      ),
      update_self linked span zeroed,
      λ q other.
          update_ne linked span zeroed q other
          ∙ update_ne s.spans span (record (s.spans span) { next = s.slab.free_list }) q other,
      refl,
      refl,
    )
