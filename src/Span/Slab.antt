-- ===== src/Span/Slab.antt =====
-- The slab allocator for `Span` structs of src/span.rs: a free list of recycled structs, and bump
-- allocation in slabs of one page from the OS.
pub mod Ends
pub mod Writes
use rtmalloc.Base.{
  ℕ, zero, suc, ◌+◌, ◌-◌, ◌%◌, ◌^◌, Option, none, some, ltb, leb, ◌==◌, if◌then◌else◌, update,
  ◌>>=◌,
}
use rtmalloc.Base.Rounding.{usize, align_up}
use rtmalloc.Platform.{Os, page_alloc}
use rtmalloc.Span.{SpanState, Span, Spans, null, set_next}

pub record SpanSlab : Type 0 where
  pub free_list : ℕ
  pub bump_ptr : ℕ
  pub bump_end : ℕ

-- The slab with the memory and the system that it works on.
pub record Slabs : Type 0 where
  pub spans : Spans
  pub slab : SpanSlab
  pub os : Os

abbrev pub new_slab : SpanSlab
new_slab = record { free_list = null; bump_ptr = null; bump_end = null }

-- `size_of::<Span>()` and `align_of::<Span>()` of the `repr(C)` struct on a 64-bit target.
abbrev pub span_size : ℕ
span_size = 64

abbrev pub span_align : ℕ
span_align = 8

-- `SpanSlabInner::alloc_span`, with the depth of the recursion; `none` if that is reached.
unfoldable pub inner_alloc_span : ℕ → ℕ → Slabs → Option (ℕ × Slabs)
inner_alloc_span page_size zero s = none
inner_alloc_span page_size (suc depth) s =
    let aligned = align_up s.slab.bump_ptr span_align in
    let end = usize (aligned + span_size) in
    let (page, os') = page_alloc page_size page_size s.os in
    let again = inner_alloc_span page_size depth (record s {
      slab = record (s.slab) { bump_ptr = page; bump_end = usize (page + page_size) };
      os = os';
    }) in
    if s.slab.free_list == null
    then if leb end s.slab.bump_end
      then some (aligned, record s { slab = record (s.slab) { bump_ptr = end } })
      else if page == null
      then some (null, record s { os = os' })
      else again
    else some (
      s.slab.free_list,
      record s { slab = record (s.slab) { free_list = (s.spans s.slab.free_list).next } },
    )

unfoldable pub inner_dealloc_span : ℕ → Slabs → Slabs
inner_dealloc_span span s = record s {
  spans = set_next s.spans span s.slab.free_list;
  slab = record (s.slab) { free_list = span };
}

-- What `write_bytes(span, 0, size_of::<Span>())` leaves.
abbrev pub zeroed : Span
zeroed = record {
  start_page = 0;
  num_pages = 0;
  size_class = 0;
  state = SpanState.free;
  allocated_count = 0;
  total_count = 0;
  freelist = null;
  prev = null;
  next = null;
}

-- Two levels: the call, and the one that it makes on a new slab.
unfoldable pub alloc_span : ℕ → Slabs → Option (ℕ × Slabs)
alloc_span page_size s = do
  (span, s') ← inner_alloc_span page_size 2 s
  some (span, if span == null then s' else record s' { spans = update s'.spans span zeroed })

unfoldable pub dealloc_span : ℕ → Slabs → Slabs
dealloc_span = inner_dealloc_span
