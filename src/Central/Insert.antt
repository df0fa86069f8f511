-- ===== src/Central/Insert.antt =====
-- src/central_free_list.rs: the return of objects to their spans, in the two forms of the source.
use rtmalloc.Base.{
  ℕ, zero, suc, ◌+◌, ◌/◌, ◌^◌, Bool, ◌&&◌, List, [], ◌∷◌, ◌++◌, Option, some, ltb, ◌==◌,
  if◌then◌else◌, ◌>>=◌, update, length,
}
use rtmalloc.Base.Rounding.{usize, u32_sub, usize_sub}
use rtmalloc.Build.{ResolvedConfig}
use rtmalloc.Central.{Central, push_nonempty, remove_nonempty, write_span}
use rtmalloc.PageHeap.{deallocate_span}
use rtmalloc.PageMap
use rtmalloc.Span.{null}

-- The object goes in front of the span's list, and the span into the list if it had none.
unfoldable pub add_object : ℕ → ℕ → Central → Central
add_object obj span c =
    let was_full = (c.heap.spans span).freelist == null in
    let c1 =
      write_span span
        (λ s. record s { freelist = obj; allocated_count = u32_sub s.allocated_count 1 })
        (record c {
          words = update c.words obj (c.heap.spans span).freelist;
          list = record (c.list) { num_free = usize (c.list.num_free + 1) };
        }) in
    if was_full then push_nonempty span c1 else c1

-- The test of a span whose objects are all free; one span at least is kept.
abbrev pub is_surplus : ℕ → Central → Bool
is_surplus span c = ((c.heap.spans span).allocated_count == 0) && ltb 1 c.list.nonempty_spans.count

-- A surplus span leaves the list, and its objects the count.
unfoldable pub detach_span : ℕ → Central → Central
detach_span span c =
    let c1 = remove_nonempty span c in
    write_span span (λ s. record s { freelist = null })
      (record c1 {
        list = record (c1.list) {
          num_free = usize_sub c1.list.num_free (c1.heap.spans span).total_count;
        };
      })

module _ (cfg : ResolvedConfig) where
  abbrev pub span_of : ℕ → Central → ℕ
  span_of obj c = PageMap.get c.heap.pagemap (obj / 2 ^ cfg.page_shift)

  abbrev pub return_span : ℕ → Central → Option Central
  return_span span c = do heap ← deallocate_span cfg span c.heap; some (record c { heap = heap })

  -- `insert_range`, for the objects that remain to be inserted.
  unfoldable pub insert_range : ℕ → ℕ → Central → Option Central
  unfolding add_object detach_span
  insert_range head zero c = some c
  insert_range head (suc remaining) c =
      let next = c.words head in
      let span = span_of head c in
      let skipped = insert_range next remaining c in
      let c1 = add_object head span c in
      let kept = insert_range next remaining c1 in
      let freed = (do
        c2 ← return_span span (detach_span span c1)
        insert_range next remaining c2) in
      if head == null
      then some c
      else if span == null
      then skipped
      else if is_surplus span c1
      then freed
      else kept

  abbrev pub max_freed : ℕ
  max_freed = 8

  -- Phase 1 of `insert_range_dropping_lock`: the spans kept for phase 2, and the state.
  unfoldable pub insert_deferring : ℕ → ℕ → List ℕ → Central → Option (List ℕ × Central)
  unfolding add_object detach_span
  insert_deferring head zero freed_spans c = some (freed_spans, c)
  insert_deferring head (suc remaining) freed_spans c =
      let next = c.words head in
      let span = span_of head c in
      let skipped = insert_deferring next remaining freed_spans c in
      let c1 = add_object head span c in
      let kept = insert_deferring next remaining freed_spans c1 in
      let c2 = detach_span span c1 in
      let deferred = insert_deferring next remaining (freed_spans ++ span ∷ []) c2 in
      let freed = (do c3 ← return_span span c2; insert_deferring next remaining freed_spans c3) in
      if head == null
      then some (freed_spans, c)
      else if span == null
      then skipped
      else if is_surplus span c1
      then if ltb (length freed_spans) max_freed then deferred else freed
      else kept

  -- Phase 2.
  unfoldable pub return_spans : List ℕ → Central → Option Central
  return_spans [] c = some c
  return_spans (span ∷ spans) c = return_span span c >>= return_spans spans

  unfoldable pub insert_range_dropping_lock : ℕ → ℕ → Central → Option Central
  unfolding insert_deferring return_spans
  insert_range_dropping_lock head count c = do
    (freed_spans, c1) ← insert_deferring head count [] c
    return_spans freed_spans c1
