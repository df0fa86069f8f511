-- ===== src/Span/Slab/Writes.antt =====
-- src/span.rs: what allocating a struct leaves alone.
use rtmalloc.Base.{
  ℕ, zero, suc, ◌+◌, ◌≡◌, refl, ap, ◌∙◌, ◌≢◌, inl, inr, Bool, true, false, Option, none, some,
  ◌>>=◌, leb, ◌==◌, if◌then◌else◌, Bool-cases, update, update_ne,
}
use rtmalloc.Base.Rounding.{usize, align_up}
use rtmalloc.Platform.{page_alloc}
use rtmalloc.Span.{Spans, null}
use rtmalloc.Span.Slab.{Slabs, zeroed, span_size, span_align, inner_alloc_span, alloc_span}

-- Allocating a struct writes no other one.
KeepsAll : Slabs → Option (ℕ × Slabs) → Type 0
KeepsAll s none = Unit
KeepsAll s (some (r, s')) = s'.spans ≡ s.spans

some-KeepsAll : (s : Slabs) (r : ℕ) (s' : Slabs) → s'.spans ≡ s.spans → KeepsAll s (some (r, s'))
unfolding KeepsAll
some-KeepsAll s r s' e = e

none-KeepsAll : (s : Slabs) → KeepsAll s none
unfolding KeepsAll
none-KeepsAll s = tt

-- From one state to another with the same structs.
same-KeepsAll :
    (s s1 : Slabs) (got : Option (ℕ × Slabs))
    → s1.spans ≡ s.spans
    → KeepsAll s1 got
    → KeepsAll s got
unfolding KeepsAll
same-KeepsAll s s1 none e is = tt
same-KeepsAll s s1 (some (r, s')) e is = is ∙ e

either-KeepsAll :
    (s : Slabs) (t : Bool) (a c : Option (ℕ × Slabs))
    → KeepsAll s a
    → KeepsAll s c
    → KeepsAll s (if t then a else c)
either-KeepsAll s true a c ka kc = ka
either-KeepsAll s false a c ka kc = kc

inner_alloc_span-KeepsAll :
    (page_size depth : ℕ) (s : Slabs) → KeepsAll s (inner_alloc_span page_size depth s)
unfolding inner_alloc_span
inner_alloc_span-KeepsAll page_size zero s = none-KeepsAll s
inner_alloc_span-KeepsAll page_size (suc depth) s =
    let aligned = align_up s.slab.bump_ptr span_align in
    let end = usize (aligned + span_size) in
    let (page, os') = page_alloc page_size page_size s.os in
    let bumped : Slabs = record s { slab = record (s.slab) { bump_ptr = end } } in
    let failed : Slabs = record s { os = os' } in
    let grown : Slabs = record s {
      slab = record (s.slab) { bump_ptr = page; bump_end = usize (page + page_size) };
      os = os';
    } in
    let again = inner_alloc_span page_size depth grown in
    let popped : Slabs = record s {
      slab = record (s.slab) { free_list = (s.spans s.slab.free_list).next };
    } in
    either-KeepsAll s (s.slab.free_list == null)
      (if leb end s.slab.bump_end
        then some (aligned, bumped)
        else if page == null
        then some (null, failed)
        else again)
      (some (s.slab.free_list, popped))
      (either-KeepsAll s (leb end s.slab.bump_end) (some (aligned, bumped))
        (if page == null then some (null, failed) else again) (some-KeepsAll s aligned bumped refl)
        (either-KeepsAll s (page == null) (some (null, failed)) again
          (some-KeepsAll s null failed refl)
          (same-KeepsAll s grown again refl (inner_alloc_span-KeepsAll page_size depth grown))))
      (some-KeepsAll s s.slab.free_list popped refl)

abbrev pub KeepsOthers : Slabs → Option (ℕ × Slabs) → Type 0
KeepsOthers s none = Unit
KeepsOthers s (some (r, s')) = (x : ℕ) → x ≢ r → s'.spans x ≡ s.spans x

pub alloc_span-KeepsOthers : (page_size : ℕ) (s : Slabs) → KeepsOthers s (alloc_span page_size s)
unfolding alloc_span KeepsAll
alloc_span-KeepsOthers page_size s =
    cleared (inner_alloc_span page_size 2 s) (inner_alloc_span-KeepsAll page_size 2 s)
  where
    cleared :
        (got : Option (ℕ × Slabs))
        → KeepsAll s got
        → KeepsOthers s (do
          (span, s') ← got
          some (
            span,
            if span == null then s' else record s' { spans = update s'.spans span zeroed },
          ))
    cleared none is = tt
    cleared (some (span, s')) is = λ x ne. elim (Bool-cases (span == null)) [
      | inl nothing ↦ rw nothing (ap (λ (m : Spans). m x) is)
      | inr some_span ↦
          rw some_span (update_ne s'.spans span zeroed x ne ∙ ap (λ (m : Spans). m x) is)
    ]
