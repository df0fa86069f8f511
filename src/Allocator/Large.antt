-- ===== src/Allocator/Large.antt =====
-- src/allocator.rs: `alloc_large`, which takes whole pages and, for an alignment above a page, cuts
-- an aligned run out of a longer one.
use rtmalloc.Base.{ℕ, ◌+◌, ◌/◌, Option, some, ltb, ◌==◌, if◌then◌else◌, ◌>>=◌}
use rtmalloc.Base.Rounding.{usize, usize_sub, div_ceil, align_up}
use rtmalloc.Build.{ResolvedConfig}
use rtmalloc.PageHeap.{Backend, write, on_pagemap, allocate_span, deallocate_span}
use rtmalloc.PageMap.{register_span, unregister_span}
use rtmalloc.Span.{null, start_addr}
use rtmalloc.Span.Slab.{alloc_span}

pub record Layout : Type 0 where
  pub size : ℕ
  pub align : ℕ

-- The run that is cut out: its address, and the pages before, in and after it.
pub record Cut : Type 0 where
  pub aligned_addr : ℕ
  pub prefix_pages : ℕ
  pub size_pages : ℕ
  pub suffix_pages : ℕ

module _ (cfg : ResolvedConfig) where
  abbrev pub size_pages_of : Layout → ℕ
  size_pages_of layout = div_ceil layout.size cfg.page_size

  abbrev pub total_pages_of : Layout → ℕ
  total_pages_of layout = usize_sub (usize (size_pages_of layout + layout.align / cfg.page_size)) 1

  unfoldable pub cut_at : Layout → ℕ → Cut
  cut_at layout addr =
      let aligned = align_up addr layout.align in
      let prefix = usize_sub aligned addr / cfg.page_size in
      record {
        aligned_addr = aligned;
        prefix_pages = prefix;
        size_pages = size_pages_of layout;
        suffix_pages = usize_sub (usize_sub (total_pages_of layout) prefix) (size_pages_of layout);
      }

  -- A prefix or suffix goes back to the heap under a struct of its own; without one it is lost.
  unfoldable pub give_back : ℕ → ℕ → Backend → Option Backend
  give_back start_page num_pages b =
      if ltb 0 num_pages
      then (do
        (span, slabs) ← alloc_span cfg.page_size b.slabs
        let b1 = record b { slabs = slabs }
        let freed =
            deallocate_span cfg span
              (write span (λ s. record s { start_page = start_page; num_pages = num_pages }) b1)
        if span == null then some b1 else freed)
      else some b

  unfoldable pub trim_span : ℕ → Cut → Backend → Option Backend
  unfolding give_back
  trim_span span cut b = do
    b1 ←
        on_pagemap
          (unregister_span cfg.page_size (b.spans span).start_page (b.spans span).num_pages) b
    b2 ← give_back (b1.spans span).start_page cut.prefix_pages b1
    let b3 =
        write span
          (λ s. record s {
            start_page = usize (s.start_page + cut.prefix_pages);
            num_pages = cut.size_pages;
            size_class = 0;
          })
          b2
    let s = b3.spans span
    b4 ← on_pagemap (register_span cfg.page_size span s.start_page s.num_pages) b3
    give_back (usize ((b4.spans span).start_page + cut.size_pages)) cut.suffix_pages b4

  unfoldable pub alloc_large : Layout → Backend → Option (ℕ × Backend)
  unfolding cut_at trim_span
  alloc_large layout b = do
    let over = ltb cfg.page_size layout.align
    (span, b1) ← allocate_span cfg (if over then total_pages_of layout else size_pages_of layout) b
    let s = b1.spans span
    let addr = start_addr cfg.page_shift s
    let cut = cut_at layout addr
    let whole = (do
      b2 ←
          on_pagemap (register_span cfg.page_size span s.start_page s.num_pages)
            (write span (λ t. record t { size_class = 0 }) b1)
      some (addr, b2))
    let trimmed = (do b2 ← trim_span span cut b1; some (cut.aligned_addr, b2))
    if span == null then some (null, b1) else if over then trimmed else whole
