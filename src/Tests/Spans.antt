-- ===== src/Tests/Spans.antt =====
-- Span lists of two spans, a free list of two structs, and a mapping that is trimmed.
use rtmalloc.Base.{ℕ, ◌+◌, ◌%◌, ◌≤◌, ◌≡◌, ◌≢◌, refl, false, not, ◌&&◌, ◌||◌, [], ◌∷◌, some, arith}
use rtmalloc.Platform.{Os, page_alloc}
use rtmalloc.Platform.Trim.{page_alloc_trims, in_block, in_blocks}
use rtmalloc.Span.{Spans, SpanList, null, empty, push, remove}
use rtmalloc.Span.Ops.{IsList, Relinked, push-IsList}
use rtmalloc.Span.Unlink.{remove-IsList}
use rtmalloc.Span.Slab.{Slabs, new_slab, alloc_span, dealloc_span, zeroed}
use rtmalloc.Span.Slab.Ends.{alloc_span-total, alloc_span-dealloc_span}

abbrev no_spans : Spans
no_spans p = zeroed

no_spans-IsList : IsList no_spans empty []
no_spans-IsList = record { chain = refl; count = refl }

abbrev one : Spans × SpanList
one = push 64 (no_spans, empty)

abbrev two : Spans × SpanList
two = push 128 one

two-IsList : IsList two.0 two.1 (128 ∷ 64 ∷ [])
two-IsList = (push-IsList one.0 one.1 (64 ∷ []) 128 one-IsList (λ e. cc) refl).0
  where
    one-IsList : IsList one.0 one.1 (64 ∷ [])
    one-IsList = (push-IsList no_spans empty [] 64 no_spans-IsList (λ e. cc) refl).0

remove-IsList_example :
    IsList (remove 64 two).0 (remove 64 two).1 (128 ∷ [])
    × Relinked (128 ∷ 64 ∷ []) two.0 (remove 64 two).0
    × (((remove 64 two).0 64).next ≡ null)
    × (((remove 64 two).0 64).prev ≡ null)
remove-IsList_example = remove-IsList two.0 two.1 (128 ∷ 64 ∷ []) 64 two-IsList refl

abbrev some_os : Os
some_os = record { answers = 10000 ∷ []; unmapped = []; unneeded = []; mapped = [] }

abbrev fresh : Slabs
fresh = record { spans = no_spans; slab = new_slab; os = some_os }

alloc_span-total_example : (r : ℕ × Slabs) × (alloc_span 4096 fresh ≡ some r)
unfolding page_alloc
alloc_span-total_example = alloc_span-total 4096 fresh (omega arith) refl (omega arith)

alloc_span-dealloc_span_example :
    (r : Slabs) × (alloc_span 4096 (dealloc_span 64 fresh) ≡ some (64, r))
    × (r.spans 64 ≡ zeroed)
    × ((q : ℕ) → q ≢ 64 → r.spans q ≡ no_spans q)
    × (r.slab ≡ new_slab)
    × (r.os ≡ some_os)
alloc_span-dealloc_span_example = alloc_span-dealloc_span 4096 64 fresh (λ e. cc)

page_alloc_trims_example :
    let (p, os') = page_alloc 4096 8192 some_os in
    (p % 4096 ≡ 0)
    × (10000 ≤ p)
    × (p + 8192 ≤ 10000 + 8192 + 4096)
    × (os'.answers ≡ [])
    × (os'.mapped ≡ 12288 ∷ [])
    × ((b : ℕ)
        → in_blocks b (os'.unmapped)
          ≡ ((in_block 10000 (8192 + 4096) b && not (in_block p 8192 b)) || false))
page_alloc_trims_example =
    page_alloc_trims 4096 8192 10000 [] some_os (omega arith) (omega arith) refl
      (λ e. absurd (omega arith))
