-- ===== src/Ffi.antt =====
-- src/ffi.rs: the C functions over `RtMalloc`. `Layout::from_size_align_unchecked` makes a layout of
-- its two arguments, and a pointer that a function writes through is kept as the word it points at.
pub mod Errors
use rtmalloc.Allocator.{Thread, Fill, alloc, alloc_zeroed, dealloc, realloc, Copy, span_at}
use rtmalloc.Allocator.Large.{Layout}
use rtmalloc.Base.{
  ℕ, zero, suc, ◌+◌, ◌-◌, ◌*◌, ◌/◌, ◌%◌, ◌^◌, Bool, true, false, not, ◌&&◌, ◌||◌, List, Option,
  none, some, ltb, leb, ◌==◌, if◌then◌else◌, ◌>>=◌,
}
use rtmalloc.Base.Rounding.{usize, align_up}
use rtmalloc.Build.{ResolvedConfig}
use rtmalloc.SizeClass.{SizeClassInfo, class_to_size}
use rtmalloc.Span.{null}

-- `MIN_ALIGN`, where a `usize` has 8 bytes.
abbrev pub min_align : ℕ
min_align = 16

abbrev pub einval : ℕ
einval = 22

abbrev pub enomem : ℕ
enomem = 12

-- `is_power_of_two`: 2 to the power of one of the `n` exponents from 0 on.
unfoldable pub is_power_below : ℕ → ℕ → Bool
is_power_below zero x = false
is_power_below (suc n) x = x == 2 ^ n || is_power_below n x

abbrev pub is_power_of_two : ℕ → Bool
is_power_of_two x = is_power_below 64 x

-- `Layout::from_size_align_unchecked`.
abbrev pub layout : ℕ → ℕ → Layout
layout size align = record { size = size; align = align }

module _ (cfg : ResolvedConfig) (classes : List SizeClassInfo) (fuel : ℕ) where
  unfoldable pub rtmalloc_alloc : ℕ → ℕ → Thread → Option (ℕ × Thread)
  rtmalloc_alloc size align t = alloc cfg classes fuel (layout size align) t

  unfoldable pub rtmalloc_dealloc : ℕ → ℕ → ℕ → Thread → Option Thread
  rtmalloc_dealloc ptr size align t = dealloc cfg classes fuel ptr (layout size align) t

  unfoldable pub rtmalloc_realloc : ℕ → ℕ → ℕ → ℕ → Thread → Option (ℕ × Option Copy × Thread)
  rtmalloc_realloc ptr size align new_size t =
      realloc cfg classes fuel ptr (layout size align) new_size t

  -- `malloc_usable_size`.
  unfoldable pub usable_size : ℕ → Thread → ℕ
  usable_size ptr t =
      let span = span_at cfg classes fuel ptr t in
      let s = t.process.middle.heap.spans span in
      if ptr == null
      then 0
      else if span == null
      then 0
      else if not (s.size_class == 0)
      then class_to_size classes s.size_class
      else usize (s.num_pages * cfg.page_size)

  unfoldable pub malloc : ℕ → Thread → Option (ℕ × Thread)
  malloc size t =
      if size == 0 then some (min_align, t) else alloc cfg classes fuel (layout size min_align) t

  unfoldable pub free : ℕ → Thread → Option Thread
  free ptr t =
      if ptr == null || leb ptr min_align
      then some t
      else dealloc cfg classes fuel ptr (layout min_align min_align) t

  -- The function `realloc` of the C library.
  unfoldable pub c_realloc : ℕ → ℕ → Thread → Option (ℕ × Option Copy × Thread)
  unfolding malloc free
  c_realloc ptr new_size t =
      let fresh = (do (p, t1) ← malloc new_size t; some (p, none, t1)) in
      let freed = (do t1 ← free ptr t; some (null, none, t1)) in
      if ptr == null || leb ptr min_align
      then fresh
      else if new_size == 0
      then freed
      else realloc cfg classes fuel ptr (layout min_align min_align) new_size t

  unfoldable pub calloc : ℕ → ℕ → Thread → Option (ℕ × Option Fill × Thread)
  calloc count size t =
      let total = count * size in
      if leb (2 ^ 64) total
      then some (null, none, t)
      else if total == 0
      then some (min_align, none, t)
      else alloc_zeroed cfg classes fuel (layout total min_align) t

  -- The code, and the word at `memptr`.
  unfoldable pub posix_memalign : ℕ → ℕ → ℕ → Thread → Option (ℕ × ℕ × Thread)
  posix_memalign memptr align size t =
      let asked = (do
        (ptr, t1) ← alloc cfg classes fuel (layout size align) t
        some (if ptr == null then (enomem, memptr, t1) else (0, ptr, t1))) in
      if not (is_power_of_two align) || ltb align 8
      then some (einval, memptr, t)
      else if size == 0
      then some (0, null, t)
      else asked

  unfoldable pub aligned_alloc : ℕ → ℕ → Thread → Option (ℕ × Thread)
  aligned_alloc align size t =
      if not (is_power_of_two align) || (ltb 0 size && not (size % align == 0))
      then some (null, t)
      else if size == 0
      then some (align, t)
      else alloc cfg classes fuel (layout size align) t

  unfoldable pub memalign : ℕ → ℕ → Thread → Option (ℕ × Thread)
  memalign align size t =
      if not (is_power_of_two align) || size == 0
      then some (null, t)
      else alloc cfg classes fuel (layout size align) t

  unfoldable pub pvalloc : ℕ → Thread → Option (ℕ × Thread)
  unfolding memalign
  pvalloc size t = memalign cfg.page_size (align_up size cfg.page_size) t

  unfoldable pub valloc : ℕ → Thread → Option (ℕ × Thread)
  unfolding memalign
  valloc size t = memalign cfg.page_size size t
