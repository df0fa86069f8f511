-- ===== src/Tests/Heap.antt =====
-- A page map with one span, and a heap with one large span.
use rtmalloc.Base.{
  ℕ, ◌-◌, ◌^◌, ◌≤◌, ◌<◌, ◌≡◌, ◌⊎◌, inl, refl, ap, true, [], ◌∷◌, Option, none, some, arith, ◌==◌,
  if◌then◌else◌, update,
}
use rtmalloc.Build.{ResolvedConfig}
use rtmalloc.PageHeap.{
  Backend, find_best_large_span, bucket_for, deallocate_span, coalesce_left, carve_span,
}
use rtmalloc.PageHeap.Freeing.{FreedTo, marked, deallocate_span-FreedTo}
use rtmalloc.PageHeap.BestFit.{find_best_large_span_fits}
use rtmalloc.PageHeap.Carving.{CarveOutcome, carve_span-Outcome}
use rtmalloc.PageHeap.Buckets.{Found, bucket_for-smallest}
use rtmalloc.PageMap.{
  set_pages, ensure_node, PageMap, new, get, set, register_span, register_span_endpoints,
  unregister_span,
}
use rtmalloc.PageMap.Ranges.{get-register_span}
use rtmalloc.Platform.{Os, page_alloc, trim}
use rtmalloc.Span.{Spans, SpanState, null, empty}
use rtmalloc.Span.Chain.{has}
use rtmalloc.Span.Ops.{IsList}
use rtmalloc.Span.Slab.{Slabs, new_slab, zeroed, alloc_span, inner_alloc_span}

abbrev page_bytes : ℕ
page_bytes = 4096

-- Answers for the nodes of the page map.
abbrev roomy : Os
roomy = record {
  answers = 1048576 ∷ 2097152 ∷ 3145728 ∷ 4194304 ∷ [];
  unmapped = [];
  unneeded = [];
  mapped = [];
}

abbrev result : Option (PageMap × Os) → PageMap × Os
result none = (new, roomy)
result (some s) = s

abbrev registered : PageMap × Os
registered = result (register_span page_bytes 64 5 3 (new, roomy))

registered-eq : register_span page_bytes 64 5 3 (new, roomy) ≡ some registered
unfolding register_span register_span_endpoints unregister_span set_pages set ensure_node page_alloc
    trim update
registered-eq = refl

abbrev ends : PageMap × Os
ends = result (register_span_endpoints page_bytes 64 5 3 (new, roomy))

ends-eq : register_span_endpoints page_bytes 64 5 3 (new, roomy) ≡ some ends
unfolding register_span register_span_endpoints unregister_span set_pages set ensure_node page_alloc
    trim update
ends-eq = refl

abbrev cleared : PageMap × Os
cleared = result (unregister_span page_bytes 5 3 (new, roomy))

cleared-eq : unregister_span page_bytes 5 3 (new, roomy) ≡ some cleared
unfolding register_span register_span_endpoints unregister_span set_pages set ensure_node page_alloc
    trim update
cleared-eq = refl

get-register_span_example : get registered.0 6 ≡ 64
get-register_span_example =
    get-register_span page_bytes 64 5 3 (new, roomy) registered (omega arith) registered-eq 6

abbrev pub small_config : ResolvedConfig
small_config = record {
  page_size = 4096;
  page_shift = 12;
  thread_cache_size = 33554432;
  min_per_thread_cache = 524288;
  steal_amount = 65536;
  max_free_list_length = 8192;
  max_overages = 3;
  max_transfer_slots = 64;
  max_pages = 128;
}

-- A large span of 200 pages at 64, and one of 3 pages in the list of its size.
abbrev heap_spans : Spans
heap_spans p = record zeroed { num_pages = if p == 64 then 200 else 3 }

abbrev pub some_heap : Backend
some_heap = record {
  slabs = record { spans = heap_spans; slab = new_slab; os = roomy };
  pagemap = new;
  free_lists = λ n. if n == 3 then record { head = 128; count = 1 } else empty;
  large_spans = record { head = 64; count = 1 };
}

some_heap-IsList : IsList heap_spans some_heap.large_spans (64 ∷ [])
some_heap-IsList = record {
  chain = (refl, λ e. absurd (omega arith), refl, refl, refl);
  count = refl;
}

bounded : (x : ℕ) → has x (64 ∷ []) ≡ true → (heap_spans x).num_pages < 2 ^ 64 - 1
bounded x i = ground arith

find_best_large_span_fits_example :
    (r : ℕ) × (find_best_large_span small_config 150 some_heap ≡ some r)
    × (((r ≡ null) × ((x : ℕ) → has x (64 ∷ []) ≡ true → (heap_spans x).num_pages < 150))
        ⊎ ((has r (64 ∷ []) ≡ true)
            × (150 ≤ (heap_spans r).num_pages)
            × ((x : ℕ)
                → has x (64 ∷ []) ≡ true
                → 150 ≤ (heap_spans x).num_pages
                → (heap_spans r).num_pages ≤ (heap_spans x).num_pages)))
find_best_large_span_fits_example =
    find_best_large_span_fits small_config 150 some_heap (64 ∷ []) some_heap-IsList (omega arith)
      bounded

bucket_for-smallest_example : Found some_heap 2 129 (bucket_for small_config 2 some_heap)
bucket_for-smallest_example = bucket_for-smallest small_config 2 some_heap (omega arith)

-- Pages 5 to 7 are free, and the two behind them are freed.
abbrev pub beside : Backend
beside = record some_heap {
  slabs = record (some_heap.slabs) {
    spans = λ p.
        if p == 64
        then record zeroed { start_page = 5; num_pages = 3 }
        else record zeroed { start_page = 8; num_pages = 2; state = SpanState.in_use };
  };
  pagemap = registered.0;
}

deallocate_span-FreedTo_example :
    FreedTo small_config 128
      (marked small_config 128 beside)
      (deallocate_span small_config 128 beside)
unfolding register_span register_span_endpoints unregister_span set_pages set ensure_node page_alloc
    trim update get
deallocate_span-FreedTo_example =
    deallocate_span-FreedTo small_config 128 beside (omega arith) (λ e. absurd (omega arith))
      (inl refl)

-- They go to the span at 64.
merged_into : (coalesce_left small_config 128 (marked small_config 128 beside)).0 ≡ 64
unfolding coalesce_left update get register_span set_pages set ensure_node page_alloc trim
merged_into = refl

-- One page is carved from the three at 64; the struct of the rest comes from a new slab.
abbrev struct_of : Option (ℕ × Slabs) → ℕ
struct_of none = 0
struct_of (some (r, s)) = r

carve_span-Outcome_example :
    CarveOutcome small_config 64 1 beside (carve_span small_config 64 1 beside)
unfolding alloc_span inner_alloc_span page_alloc trim
carve_span-Outcome_example =
    carve_span-Outcome small_config 64 1 beside
      (λ r s e q. absurd (omega (arith, ap struct_of e, q)))
