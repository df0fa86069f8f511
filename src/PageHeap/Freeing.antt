-- ===== src/PageHeap/Freeing.antt =====
-- src/page_heap.rs: the run that `deallocate_span` leaves in the free lists.
use rtmalloc.Base.{
  ℕ, ◌+◌, ◌^◌, ◌<◌, ◌≡◌, sym, ap, ◌∙◌, ◌≢◌, ◌⊎◌, arith, Option, none, some, ◌>>=◌, update_self,
}
use rtmalloc.Base.Rounding.{usize}
use rtmalloc.Build.{ResolvedConfig}
use rtmalloc.PageHeap.{
  Backend, write, insert_free, coalesce_left, coalesce_right, list_at, on_pagemap, deallocate_span,
}
use rtmalloc.PageHeap.Coalescing.{run}
use rtmalloc.PageHeap.Counting.{count_at, in_list}
use rtmalloc.PageHeap.Inserting.{
  insert_free-run, insert_free-head, insert_free-kept, insert_free-count_at,
}
use rtmalloc.PageMap.{PageMap, register_span_endpoints}
use rtmalloc.Platform.{Os}
use rtmalloc.Span.{SpanState, null}
use rtmalloc.PageHeap.Merging.{IsFreed, left_of, right_of, coalesced}

module _ (cfg : ResolvedConfig) where
  -- The span as `deallocate_span` marks it before it merges.
  abbrev pub marked : ℕ → Backend → Backend
  marked span b =
      write span
        (λ s. record s {
          state = SpanState.free;
          size_class = 0;
          freelist = null;
          allocated_count = 0;
          total_count = 0;
        })
        b

  -- The merged span at the head of the list of its size, and its end pages in the page map; or the
  -- panic, where the page map refuses the end pages of the merged span.
  abbrev pub FreedTo : ℕ → Backend → Option Backend → Type 0
  FreedTo span b none =
      (kept before after : ℕ) × (b' : Backend) × IsFreed cfg (left_of span b) (right_of span b) b b'
        span kept before after
      × (register_span_endpoints cfg.page_size kept (b'.spans kept).start_page
            (b'.spans kept).num_pages (b.pagemap, b.os)
          ≡ none)
  FreedTo span b (some b') =
      (kept before after : ℕ) × (is : IsFreed cfg (left_of span b) (right_of span b) b b' span kept
        before after)
      × ((n : ℕ)
          → usize (count_at cfg n b' + is.gone_left n + is.gone_right n)
            ≡ usize (count_at cfg n b + in_list cfg n (b'.spans kept).num_pages))
      × (register_span_endpoints cfg.page_size kept (b'.spans kept).start_page
            (b'.spans kept).num_pages (b.pagemap, b.os)
          ≡ some (b'.pagemap, b'.os))
      × ((list_at cfg.max_pages (b'.spans kept).num_pages b').head ≡ kept)

  kept_run :
      (left right span kept before after : ℕ) (b b1 b' : Backend)
      → run (b'.spans kept) ≡ run (b1.spans kept)
      → IsFreed cfg left right b b1 span kept before after
      → IsFreed cfg left right b b' span kept before after
  kept_run left right span kept before after b b1 b' same is = record {
    state = ap (λ r. r.2) same ∙ is.state;
    first = ap (λ r. r.0) same ∙ is.first;
    start = ap (λ r. usize (r.0 + before)) same ∙ is.start;
    pages = ap (λ r. r.1) same ∙ is.pages;
    gone_left = is.gone_left;
    gone_right = is.gone_right;
    merged_left = is.merged_left;
    merged_right = is.merged_right;
  }

  -- The rest of `deallocate_span` for what the page map answered.
  finish :
      (span kept before after : ℕ) (b b3 : Backend) (found : Option (PageMap × Os))
      → register_span_endpoints cfg.page_size kept
          (b3.spans kept).start_page
          (b3.spans kept).num_pages
          (b.pagemap, b.os)
        ≡ found
      → (is : IsFreed cfg (left_of span b) (right_of span b) b b3 span kept before after)
      → ((n : ℕ)
          → usize (count_at cfg n b3 + is.gone_left n + is.gone_right n) ≡ usize (count_at cfg n b))
      → FreedTo span b (do b4 ← on_pagemap (λ s. found) b3; some (insert_free cfg kept b4))
  unfolding kept_run insert_free
  finish span kept before after b b3 none e is counts = (kept, before, after, b3, is, e)
  finish span kept before after b b3 (some (map, os)) e is counts =
      let b4 : Backend = record b3 { slabs = record (b3.slabs) { os = os }; pagemap = map } in
      let b' = insert_free cfg kept b4 in
      let same : run (b'.spans kept) ≡ run (b3.spans kept) = insert_free-run cfg kept b4 kept in
      (
        kept,
        before,
        after,
        kept_run (left_of span b) (right_of span b) span kept before after b b3 b' same is,
        (λ n.
            let list : in_list cfg n (b'.spans kept).num_pages
                ≡ in_list cfg n (b3.spans kept).num_pages =
              ap (λ (r : ℕ × ℕ × SpanState). in_list cfg n r.1) same in
            omega (arith, list, counts n, insert_free-count_at cfg kept b4 n)),
        ap
              (λ (r : ℕ × ℕ × SpanState).
                register_span_endpoints cfg.page_size kept r.0 r.1 (b.pagemap, b.os))
              same
            ∙ e
            ∙ insert_free-kept cfg kept b4,
        ap (λ (r : ℕ × ℕ × SpanState). (list_at cfg.max_pages r.1 b').head) same
            ∙ insert_free-head cfg kept b4,
      )

  -- `deallocate_span` puts at the head of the list of its size one free span, and registers its first
  -- and last page. It covers the pages of the freed span, those of the neighbour that the page map
  -- names on the left if and only if that is free and ends where the span starts, and those of the
  -- neighbour on the right if and only if that is free and starts where the span ends. Of the lists,
  -- that of its size counts one span more, and that of each merged neighbour one less. There is a
  -- panic only if the page map refuses these two pages. The conditions: the pages fit the word, the
  -- neighbour on the right is not the span itself, and is none or not that on the left. The
  -- neighbours are as they are once the span is marked free.
  pub deallocate_span-FreedTo :
      (span : ℕ) (b : Backend)
      → (b.spans span).num_pages < 2 ^ 64
      → right_of span (marked span b) ≢ span
      → (right_of span (marked span b) ≡ null)
        ⊎ (right_of span (marked span b) ≢ left_of span (marked span b))
      → FreedTo span (marked span b) (deallocate_span cfg span b)
  unfolding deallocate_span
  deallocate_span-FreedTo span b small other apart =
      let b0 = marked span b in
      let (kept, b1) = coalesce_left cfg span b0 in
      let (kept2, b2) = coalesce_right cfg kept b1 in
      let here = update_self b.spans span (record (b.spans span) {
        state = SpanState.free;
        size_class = 0;
        freelist = null;
        allocated_count = 0;
        total_count = 0;
      }) in
      let (before, after, is, counts, map, os) =
        coalesced cfg span b0 (ap (λ s. s.state) here)
          (omega (arith, ap (λ s. s.num_pages) here, small)) other apart in
      let register : PageMap × Os → Option (PageMap × Os) =
        register_span_endpoints cfg.page_size kept2 (b2.spans kept2).start_page
          (b2.spans kept2).num_pages in
      finish span kept2 before after b0 b2 (register (b2.pagemap, b2.os))
        (ap (λ (m : PageMap). register (m, b0.os)) (sym map)
          ∙ ap (λ (o : Os). register (b2.pagemap, o)) (sym os))
        is counts
