-- ===== src/PageHeap/Merging.antt =====
-- src/page_heap.rs: the run that the two merges of `deallocate_span` leave.
use rtmalloc.Base.{ℕ, ◌+◌, ◌-◌, ◌^◌, ◌<◌, ◌≡◌, refl, sym, ap, ◌∙◌, ◌≢◌, ◌⊎◌, inl, inr, true, arith}
use mathlib.Core.Path.{subst}
use rtmalloc.Base.Rounding.{usize}
use rtmalloc.Build.{ResolvedConfig}
use rtmalloc.PageHeap.{Backend, coalesce_left, coalesce_right, is_free}
use rtmalloc.PageHeap.Coalescing.{
  run, LeftOutcome, RightOutcome, FitsLeft, FitsRight, coalesce_left-Outcome,
  coalesce_right-Outcome,
}
use rtmalloc.PageHeap.Counting.{count_at, in_list}
use rtmalloc.PageMap
use rtmalloc.PageMap.{PageMap, register_span_endpoints}
use rtmalloc.Span.{SpanState, null, end_page}

abbrev pub left_of : ℕ → Backend → ℕ
left_of span b = PageMap.get b.pagemap ((b.spans span).start_page - 1)

abbrev pub right_of : ℕ → Backend → ℕ
right_of span b = PageMap.get b.pagemap (end_page (b.spans span))

module _ (cfg : ResolvedConfig) where
  -- `span` merged into `kept` or not, by the neighbour on the left, whose `before` pages came with it.
  pub record IsLeftFreed (left : ℕ) (b b' : Backend) (span kept before : ℕ) : Type 0 where
    pub state : (b'.spans kept).state ≡ SpanState.free
    pub first : (b'.spans kept).start_page ≡ (b.spans kept).start_page
    pub start : usize ((b'.spans kept).start_page + before) ≡ usize (b.spans span).start_page
    pub pages : (b'.spans kept).num_pages ≡ usize (before + (b.spans span).num_pages)
    pub gone_left : ℕ → ℕ
    pub merged_left :
        ((kept ≡ span) × (before ≡ 0) × (¬ FitsLeft left span b) × ((n : ℕ) → gone_left n ≡ 0))
        ⊎ ((kept ≡ left)
            × (before ≡ (b.spans left).num_pages)
            × FitsLeft left span b
            × ((n : ℕ) → gone_left n ≡ in_list cfg n (b.spans left).num_pages))

  -- `span` freed and merged into `kept`, with the pages of the neighbours that fit, and of no others;
  -- `gone_left` and `gone_right` say from which list the neighbour went.
  pub record IsFreed (left right : ℕ) (b b' : Backend) (span kept before after : ℕ) : Type 0 where
    pub state : (b'.spans kept).state ≡ SpanState.free
    pub first : (b'.spans kept).start_page ≡ (b.spans kept).start_page
    pub start : usize ((b'.spans kept).start_page + before) ≡ usize (b.spans span).start_page
    pub pages : (b'.spans kept).num_pages ≡ usize (before + (b.spans span).num_pages + after)
    pub gone_left : ℕ → ℕ
    pub merged_left :
        ((kept ≡ span) × (before ≡ 0) × (¬ FitsLeft left span b) × ((n : ℕ) → gone_left n ≡ 0))
        ⊎ ((kept ≡ left)
            × (before ≡ (b.spans left).num_pages)
            × FitsLeft left span b
            × ((n : ℕ) → gone_left n ≡ in_list cfg n (b.spans left).num_pages))
    pub gone_right : ℕ → ℕ
    pub merged_right :
        ((after ≡ 0) × (¬ FitsRight right span b) × ((n : ℕ) → gone_right n ≡ 0))
        ⊎ ((after ≡ (b.spans right).num_pages)
            × FitsRight right span b
            × ((n : ℕ) → gone_right n ≡ in_list cfg n (b.spans right).num_pages))

  is_free-eq : (s : SpanState) → is_free cfg s ≡ true → s ≡ SpanState.free
  is_free-eq SpanState.free e = refl
  is_free-eq SpanState.in_use e = cc

  -- The state of the page map and the OS is as it was before the merges.
  abbrev pub Merged : ℕ → ℕ → Backend → ℕ → ℕ × Backend → Type 0
  Merged left right b span (kept, b') =
      (before after : ℕ) × (is : IsFreed left right b b' span kept before after) × ((n : ℕ)
        → usize (count_at cfg n b' + is.gone_left n + is.gone_right n) ≡ usize (count_at cfg n b))
      × (b'.pagemap ≡ b.pagemap)
      × (b'.os ≡ b.os)

  not_right :
      (left right span kept before : ℕ) (b b1 : Backend)
      → IsLeftFreed left b b1 span kept before
      → ¬ FitsRight right span b
      → IsFreed left right b b1 span kept before 0
  not_right left right span kept before b b1 is other = record {
    state = is.state;
    first = is.first;
    start = is.start;
    pages = omega (arith, is.pages);
    merged_left = is.merged_left;
    gone_left = is.gone_left;
    gone_right = λ n. 0;
    merged_right = inl (refl, other, λ n. refl);
  }

  -- Whether a span fits on the right does not depend on a merge to the left.
  FitsRight-merged :
      (right span kept : ℕ) (b b1 : Backend)
      → (right ≡ null) ⊎ (run (b1.spans right) ≡ run (b.spans right))
      → end_page (b1.spans kept) ≡ end_page (b.spans span)
      → FitsRight right span b
      → FitsRight right kept b1
  FitsRight-merged right span kept b b1 (inl nothing) ends (some_span, free, begins) =
      absurd (some_span nothing)
  FitsRight-merged right span kept b b1 (inr same) ends (some_span, free, begins) =
      (some_span, ap (λ r. r.2) same ∙ free, ap (λ r. r.0) same ∙ begins ∙ sym ends)

  -- The merge to the right of a span that was merged to the left or not.
  right_step :
      (left span : ℕ) (b : Backend) (kept before : ℕ) (b1 : Backend)
      → let right = right_of kept b1 in
        (is : IsLeftFreed left b b1 span kept before)
        → ((n : ℕ) → usize (count_at cfg n b1 + is.gone_left n) ≡ usize (count_at cfg n b))
        → b1.pagemap ≡ b.pagemap
        → b1.os ≡ b.os
        → (right ≡ null) ⊎ (run (b1.spans right) ≡ run (b.spans right))
        → end_page (b1.spans kept) ≡ end_page (b.spans span)
        → (out : ℕ × Backend) → RightOutcome cfg kept b1 out
        → Merged left right b span out
  unfolding not_right
  right_step left span b kept before b1 is counts map os same ends (kept', b2)
        (e, inl (stays, other)) =
      let right = right_of kept b1 in
      subst (λ (k : ℕ). Merged left right b span (k, b2)) (sym e)
        (subst (λ (c : Backend). Merged left right b span (kept, c)) (sym stays)
          (
            before,
            0,
            not_right left right span kept before b b1 is
                (λ fits. other (FitsRight-merged right span kept b b1 same ends fits)),
            (λ n. omega (arith, counts n)),
            map,
            os,
          ))
  right_step left span b kept before b1 is counts map os (inl nothing) ends (kept', b2)
        (e, inr (some_span, free, begins, grew, taken)) =
      absurd (some_span nothing)
  right_step left span b kept before b1 is counts map os (inr same) ends (kept', b2)
        (e, inr (some_span, free, begins, grew, taken)) =
      let right = right_of kept b1 in
      subst (λ (k : ℕ). Merged left right b span (k, b2)) (sym e)
        (
          before,
          (b.spans right).num_pages,
          record {
            state = grew.state ∙ is.state;
            first = grew.start ∙ is.first;
            start = ap (λ n. usize (n + before)) grew.start ∙ is.start;
            pages = omega (arith, grew.pages, is.pages, ap (λ r. r.1) same);
            gone_left = is.gone_left;
            gone_right = λ n. in_list cfg n (b1.spans right).num_pages;
            merged_left = is.merged_left;
            merged_right = inr (
              refl,
              (
                some_span,
                sym (ap (λ r. r.2) same) ∙ is_free-eq (b1.spans right).state free,
                sym (ap (λ r. r.0) same) ∙ begins ∙ ends,
              ),
              λ n. ap (λ (m : ℕ × ℕ × SpanState). in_list cfg n m.1) same,
            );
          },
          (λ n. omega (arith, counts n, taken n)),
          grew.pagemap ∙ map,
          grew.os ∙ os,
        )

  -- The merge to the left of a span that is marked free.
  abbrev LeftMerged : ℕ → Backend → ℕ × Backend → Type 0
  LeftMerged span b (kept, b1) =
      (before : ℕ) × (is : IsLeftFreed (left_of span b) b b1 span kept before) × ((n : ℕ)
        → usize (count_at cfg n b1 + is.gone_left n) ≡ usize (count_at cfg n b))
      × (end_page (b1.spans kept) ≡ end_page (b.spans span))
      × (b1.pagemap ≡ b.pagemap)
      × (b1.os ≡ b.os)
      × ((x : ℕ) → x ≢ kept → run (b1.spans x) ≡ run (b.spans x))
      × ((kept ≡ span) ⊎ (kept ≡ left_of span b))

  left_step :
      (span : ℕ) (b : Backend)
      → (b.spans span).state ≡ SpanState.free
      → (b.spans span).num_pages < 2 ^ 64
      → (out : ℕ × Backend) → LeftOutcome cfg span b out
      → LeftMerged span b out
  left_step span b free small (kept, b1) (inl (e, stays, other)) =
      subst (λ (k : ℕ). LeftMerged span b (k, b1)) (sym e)
        (subst (λ (c : Backend). LeftMerged span b (span, c)) (sym stays)
          (
            0,
            record {
              state = free;
              first = refl;
              start = omega arith;
              pages = omega (arith, small);
              gone_left = λ n. 0;
              merged_left = inl (refl, refl, other, λ n. refl);
            },
            (λ n. omega arith),
            refl,
            refl,
            refl,
            λ x ne. refl,
            inl refl,
          ))
  left_step span b free small (kept, b1) (inr (at, later, some_span, was_free, ends, grew, taken)) =
      (
        (b.spans kept).num_pages,
        record {
          state = grew.state ∙ is_free-eq (b.spans kept).state was_free;
          first = grew.start;
          start = ap (λ n. usize (n + (b.spans kept).num_pages)) grew.start ∙ omega (arith, ends);
          pages = grew.pages;
          gone_left = λ n. in_list cfg n (b.spans kept).num_pages;
          merged_left = inr (
            at,
            ap (λ (k : ℕ). (b.spans k).num_pages) at,
            (
              later,
              (λ e. some_span (at ∙ e)),
              ap (λ (k : ℕ). (b.spans k).state) (sym at) ∙ is_free-eq (b.spans kept).state was_free,
              ap (λ (k : ℕ). end_page (b.spans k)) (sym at) ∙ ends,
            ),
            λ n. ap (λ (k : ℕ). in_list cfg n (b.spans k).num_pages) at,
          );
        },
        taken,
        omega (arith, grew.start, grew.pages, ends),
        grew.pagemap,
        grew.os,
        grew.others,
        inr at,
      )

  pub coalesced :
      (span : ℕ) (b : Backend)
      → (b.spans span).state ≡ SpanState.free
      → (b.spans span).num_pages < 2 ^ 64
      → right_of span b ≢ span
      → (right_of span b ≡ null) ⊎ (right_of span b ≢ left_of span b)
      → let (kept, b1) = coalesce_left cfg span b in
        Merged (left_of span b) (right_of span b) b span (coalesce_right cfg kept b1)
  coalesced span b free small other apart =
      let (kept, b1) = coalesce_left cfg span b in
      let (before, is, counts, ends, map, os, others, where_kept) =
        left_step span b free small (coalesce_left cfg span b) (coalesce_left-Outcome cfg span b) in
      let at : right_of kept b1 ≡ right_of span b =
        ap (λ (m : PageMap). PageMap.get m (end_page (b1.spans kept))) map
        ∙ ap (λ n. PageMap.get b.pagemap n) ends in
      let kept_not : right_of span b ≢ left_of span b → right_of span b ≢ kept =
        λ ne e. elim where_kept [ inl s ↦ other (e ∙ s) | inr l ↦ ne (e ∙ l) ] in
      let unchanged : (right_of kept b1 ≡ null)
          ⊎ (run (b1.spans (right_of kept b1)) ≡ run (b.spans (right_of kept b1))) =
        elim apart [
          | inl nothing ↦ inl (at ∙ nothing)
          | inr ne ↦ inr (others (right_of kept b1) (λ e. kept_not ne (sym at ∙ e)))
        ] in
      subst (λ (r : ℕ). Merged (left_of span b) r b span (coalesce_right cfg kept b1)) at
        (right_step (left_of span b) span b kept before b1 is counts map os unchanged ends
          (coalesce_right cfg kept b1) (coalesce_right-Outcome cfg kept b1))
