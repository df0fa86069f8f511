-- ===== src/PageHeap.antt =====
-- src/page_heap.rs: the back-end, which hands out runs of pages and merges free neighbours. The
-- state holds what the methods reach: the `Span` structs with their slab and the OS, the page map,
-- and the free lists. `none` is a panic: a failed assertion of the method or of the page map.
pub mod BestFit
pub mod Buckets
pub mod Coalescing
pub mod Freeing
pub mod Counting
pub mod Merging
pub mod Inserting
pub mod Carving
pub mod Splitting
use rtmalloc.Base.{
  ℕ, zero, suc, ◌+◌, ◌-◌, ◌*◌, ◌/◌, ◌%◌, ◌^◌, Bool, true, false, not, ◌&&◌, ◌||◌, Option, none,
  some, ltb, leb, ◌==◌, if◌then◌else◌, assert, ◌>>=◌, ◌>>◌, update, max,
}
use rtmalloc.Base.Rounding.{usize}
use rtmalloc.Build.{ResolvedConfig}
use rtmalloc.PageMap
use rtmalloc.PageMap.{PageMap, register_span, register_span_endpoints}
use rtmalloc.Platform.{Os, page_alloc, page_dealloc}
use rtmalloc.Span
use rtmalloc.Span.{SpanState, Span, Spans, SpanList, null, is_empty, end_page}
use rtmalloc.Span.Slab.{Slabs, SpanSlab, alloc_span, dealloc_span}

pub record Backend : Type 0 where
  pub slabs : Slabs
  pub open slabs use *
  pub pagemap : PageMap
  pub free_lists : ℕ → SpanList
  pub large_spans : SpanList

-- `(*span).f = …` for the fields that `change` sets.
abbrev pub write : ℕ → (Span → Span) → Backend → Backend
write span change b = record b {
  slabs = record (b.slabs) { spans = update b.spans span (change (b.spans span)) };
}

abbrev pub set_state : SpanState → Span → Span
set_state state s = record s { state = state }

-- A method of the page map, on the part of the state that it reaches.
abbrev pub on_pagemap : (PageMap × Os → Option (PageMap × Os)) → Backend → Option Backend
on_pagemap f b = do
  (map, os) ← f (b.pagemap, b.os)
  some (record b { slabs = record (b.slabs) { os = os }; pagemap = map })

-- A list of the heap by the number of pages of its spans, and its replacement.
abbrev pub list_at : ℕ → ℕ → Backend → SpanList
list_at max_pages n b = if leb n max_pages then b.free_lists n else b.large_spans

abbrev pub put_list : ℕ → ℕ → Spans × SpanList → Backend → Backend
put_list max_pages n (m, l) b = record b {
  slabs = record (b.slabs) { spans = m };
  free_lists = if leb n max_pages then update b.free_lists n l else b.free_lists;
  large_spans = if leb n max_pages then b.large_spans else l;
}

-- The walk of `find_best_large_span`, on fuel; `none` if that runs out.
unfoldable pub best_walk : ℕ → Spans → ℕ → ℕ → ℕ → ℕ → Option ℕ
best_walk zero m num_pages best best_pages current = none
best_walk (suc fuel) m num_pages best best_pages current =
    let n = (m current).num_pages in
    let better = best_walk fuel m num_pages current n (m current).next in
    let worse = best_walk fuel m num_pages best best_pages (m current).next in
    if current == null
    then some best
    else if leb num_pages n && ltb n best_pages
    then if n == num_pages then some current else better
    else worse

module _ (cfg : ResolvedConfig) where
  -- The fuel is one round more than the list counts.
  unfoldable pub find_best_large_span : ℕ → Backend → Option ℕ
  find_best_large_span num_pages b =
      best_walk (b.large_spans.count + 1) b.spans num_pages null (2 ^ 64 - 1) b.large_spans.head

  unfoldable pub insert_free : ℕ → Backend → Backend
  insert_free span b =
      let n = (b.spans span).num_pages in
      put_list cfg.max_pages n (Span.push span (b.spans, list_at cfg.max_pages n b)) b

  -- The removal from the list of its size that both coalescing methods write out.
  unfoldable pub remove_free : ℕ → Backend → Backend
  remove_free span b =
      let n = (b.spans span).num_pages in
      put_list cfg.max_pages n (Span.remove span (b.spans, list_at cfg.max_pages n b)) b

  abbrev pub register : ℕ → Backend → Option Backend
  register span b =
      on_pagemap
        (register_span cfg.page_size span (b.spans span).start_page (b.spans span).num_pages) b

  abbrev pub register_endpoints : ℕ → Backend → Option Backend
  register_endpoints span b =
      on_pagemap
        (register_span_endpoints cfg.page_size span (b.spans span).start_page
          (b.spans span).num_pages)
        b

  -- `(*span).state = InUse; pagemap.register_span(span); span`.
  abbrev pub hand_out : ℕ → Backend → Option (ℕ × Backend)
  hand_out span b = do
    b' ← register span (write span (set_state SpanState.in_use) b)
    some (span, b')

  -- The split itself, for a remainder whose struct was allocated.
  unfoldable pub split_span : ℕ → ℕ → ℕ → Backend → Option Backend
  unfolding insert_free
  split_span span remainder num_pages b = do
    let s = b.spans span
    let b1 =
        write remainder
          (λ r. record r {
            start_page = usize (s.start_page + num_pages);
            num_pages = s.num_pages - num_pages;
            state = SpanState.free;
          })
          b
    let b2 = write span (λ t. record t { num_pages = num_pages }) b1
    b3 ← register_endpoints remainder b2
    some (insert_free remainder b3)

  unfoldable pub carve_span : ℕ → ℕ → Backend → Option (ℕ × Backend)
  unfolding split_span
  carve_span span num_pages b = do
    let total = (b.spans span).num_pages
    assert (leb num_pages total)
    if ltb num_pages total
        then (do
          (remainder, slabs) ← alloc_span cfg.page_size b.slabs
          let b1 = record b { slabs = slabs }
          if remainder == null
              then hand_out span b1
              else split_span span remainder num_pages b1 >>= hand_out span)
        else hand_out span b

  -- A new span over pages from the OS; null and the pages returned if there is no struct for it.
  unfoldable pub new_os_span : ℕ → ℕ → ℕ → Backend → Option (ℕ × Backend)
  new_os_span ptr pages alloc_size b = do
    (span, slabs) ← alloc_span cfg.page_size b.slabs
    let b1 = record b { slabs = slabs }
    if span == null
        then some (
          null,
          record b1 { slabs = record (b1.slabs) { os = page_dealloc ptr alloc_size b1.os } },
        )
        else some (
          span,
          write span
              (λ s. record s {
                start_page = ptr / 2 ^ cfg.page_shift;
                num_pages = pages;
                state = SpanState.in_use;
              })
              b1,
        )

  unfoldable pub grow_heap_exact : ℕ → Backend → Option (ℕ × Backend)
  unfolding new_os_span
  grow_heap_exact num_pages b = do
    let alloc_size = usize (num_pages * cfg.page_size)
    let (ptr, os) = page_alloc cfg.page_size alloc_size b.os
    let b1 = record b { slabs = record (b.slabs) { os = os } }
    if ptr == null then some (null, b1) else (do
      (span, b2) ← new_os_span ptr num_pages alloc_size b1
      if span == null then some (null, b2) else (do b3 ← register span b2; some (span, b3)))

  unfoldable pub grow_heap : ℕ → Backend → Option (ℕ × Backend)
  unfolding carve_span grow_heap_exact
  grow_heap num_pages b = do
    let alloc_pages = max num_pages 128
    let alloc_size = usize (alloc_pages * cfg.page_size)
    let (ptr, os) = page_alloc cfg.page_size alloc_size b.os
    let b1 = record b { slabs = record (b.slabs) { os = os } }
    if ptr == null
        then if ltb num_pages alloc_pages then grow_heap_exact num_pages b1 else some (null, b1)
        else (do
          (span, b2) ← new_os_span ptr alloc_pages alloc_size b1
          if span == null then some (null, b2) else carve_span span num_pages b2)

  -- The first list from `n` on that is not empty, for the rounds left of the loop.
  unfoldable pub first_bucket : ℕ → ℕ → Backend → Option ℕ
  first_bucket zero n b = none
  first_bucket (suc rounds) n b =
      let rest = first_bucket rounds (n + 1) b in if is_empty (b.free_lists n) then rest else some n

  -- The search of the exact lists, from `num_pages` to `MAX_PAGES`.
  abbrev pub bucket_for : ℕ → Backend → Option ℕ
  bucket_for num_pages b = first_bucket (cfg.max_pages + 1 - num_pages) num_pages b

  unfoldable pub allocate_span : ℕ → Backend → Option (ℕ × Backend)
  unfolding first_bucket find_best_large_span carve_span grow_heap
  allocate_span num_pages b = do
    assert (ltb 0 num_pages)
    elim (bucket_for num_pages b) [
      | some n ↦
          let (span, m, l) = Span.pop (b.spans, b.free_lists n) in
          carve_span span num_pages (record b {
            slabs = record (b.slabs) { spans = m };
            free_lists = update b.free_lists n l;
          })
      | none ↦ (do
        best ← find_best_large_span num_pages b
        if best == null
            then grow_heap num_pages b
            else (let (m, l) = Span.remove best (b.spans, b.large_spans) in
                carve_span best num_pages
                  (record b { slabs = record (b.slabs) { spans = m }; large_spans = l })))
    ]

  -- The tests of `coalesce_left` and `coalesce_right` on the span found beside; a null is no span.
  abbrev pub is_free : SpanState → Bool
  is_free SpanState.free = true
  is_free SpanState.in_use = false

  unfoldable pub coalesce_left : ℕ → Backend → ℕ × Backend
  unfolding remove_free
  coalesce_left span b =
      let start = (b.spans span).start_page in
      let left = PageMap.get b.pagemap (start - 1) in
      let l = b.spans left in
      if start == 0
        || left == null
        || not (is_free l.state)
        || not (usize (l.start_page + l.num_pages) == start)
      then (span, b)
      else let b1 = remove_free left b in
        let b2 =
          write left (λ t. record t { num_pages = usize (t.num_pages + (b1.spans span).num_pages) })
            b1 in
        (left, record b2 { slabs = dealloc_span span b2.slabs })

  unfoldable pub coalesce_right : ℕ → Backend → ℕ × Backend
  unfolding remove_free
  coalesce_right span b =
      let end = end_page (b.spans span) in
      let right = PageMap.get b.pagemap end in
      let r = b.spans right in
      if right == null || not (is_free r.state) || not (r.start_page == end)
      then (span, b)
      else let b1 = remove_free right b in
        let b2 =
          write span
            (λ t. record t { num_pages = usize (t.num_pages + (b1.spans right).num_pages) }) b1 in
        (span, record b2 { slabs = dealloc_span right b2.slabs })

  unfoldable pub deallocate_span : ℕ → Backend → Option Backend
  unfolding coalesce_left coalesce_right insert_free
  deallocate_span span b = do
    let b1 =
        write span
          (λ s. record s {
            state = SpanState.free;
            size_class = 0;
            freelist = null;
            allocated_count = 0;
            total_count = 0;
          })
          b
    let (span1, b2) = coalesce_left span b1
    let (span2, b3) = coalesce_right span1 b2
    b4 ← register_endpoints span2 b3
    some (insert_free span2 b4)
