-- ===== src/PageHeap/Inserting.antt =====
-- src/page_heap.rs: what putting a span into the list of its size changes.
use rtmalloc.Base.Rounding.{usize}
use rtmalloc.Base.{arith, ◌+◌, ℕ, ◌≡◌, refl, ap, inl, inr, Option, some}
use rtmalloc.Build.{ResolvedConfig}
use rtmalloc.PageHeap.{Backend, insert_free, list_at}
use rtmalloc.PageHeap.Coalescing.{run, run-push}
use rtmalloc.PageHeap.Counting.{list_at-put_list, count_at, in_list, count_at-put_list}
use rtmalloc.PageMap.{PageMap}
use rtmalloc.Platform.{Os}
use rtmalloc.Span
use rtmalloc.Span.{SpanState, Spans, SpanList, null, end_page}

module _ (cfg : ResolvedConfig) where
  pub insert_free-run :
      (span : ℕ) (b : Backend) (x : ℕ) → run ((insert_free cfg span b).spans x) ≡ run (b.spans x)
  unfolding insert_free
  insert_free-run span b x =
      run-push span b.spans (list_at cfg.max_pages (b.spans span).num_pages b) x

  pub insert_free-list_at :
      (span : ℕ) (b : Backend)
      → let n = (b.spans span).num_pages in
        list_at cfg.max_pages n (insert_free cfg span b)
        ≡ (Span.push span (b.spans, list_at cfg.max_pages n b)).1
  unfolding insert_free
  insert_free-list_at span b =
      let n = (b.spans span).num_pages in
      let (m, l) = Span.push span (b.spans, list_at cfg.max_pages n b) in
      list_at-put_list cfg n m l b

  pub insert_free-head :
      (span : ℕ) (b : Backend)
      → (list_at cfg.max_pages (b.spans span).num_pages (insert_free cfg span b)).head ≡ span
  unfolding Span.push
  insert_free-head span b = ap (λ (l : SpanList). l.head) (insert_free-list_at span b)

  pub insert_free-kept :
      (span : ℕ) (b : Backend)
      → let b' = insert_free cfg span b in
        let before : Option (PageMap × Os) = some (b.pagemap, b.os) in
        before ≡ some (b'.pagemap, b'.os)
  unfolding insert_free
  insert_free-kept span b = refl

  -- The list of its size counts one span more.
  pub insert_free-count_at :
      (span : ℕ) (b : Backend) (n : ℕ)
      → usize (count_at cfg n (insert_free cfg span b))
        ≡ usize (count_at cfg n b + in_list cfg n (b.spans span).num_pages)
  unfolding insert_free Span.push
  insert_free-count_at span b n =
      let m = (b.spans span).num_pages in
      let (s, l) = Span.push span (b.spans, list_at cfg.max_pages m b) in
      elim (count_at-put_list cfg m s l b n) [
        | inl (one, old, now) ↦ omega (arith, one, old, now)
        | inr (zero_here, now) ↦ omega (arith, zero_here, now)
      ]
