-- ===== src/Allocator/Variants.antt =====
-- src/allocator.rs: the paths of small objects in the builds with the feature `percpu`, over the
-- per-CPU cache, and in those with no cache of a thread, over the central lists.
pub mod RoundTrip
use rtmalloc.Allocator.{Route, route, alloc_from_central, dealloc_to_central}
use rtmalloc.Allocator.Large.{Layout, alloc_large}
use rtmalloc.Base.{
  ℕ, ◌/◌, ◌^◌, Bool, true, false, ◌||◌, List, Option, none, some, ◌==◌, if◌then◌else◌, ◌>>=◌,
}
use rtmalloc.Build.{ResolvedConfig}
use rtmalloc.CpuCache.{Cpus}
use rtmalloc.CpuCache.Front
use rtmalloc.PageHeap.{Backend, deallocate_span}
use rtmalloc.PageMap
use rtmalloc.SizeClass.{SizeClassInfo}
use rtmalloc.Span.{null}
use rtmalloc.TransferCache.{Middle}

module _ (cfg : ResolvedConfig) (classes : List SizeClassInfo) (fuel : ℕ) where
  -- `alloc` and `dealloc` over a state that has the shared tiers in it, for what the build does with a
  -- small object.
  module _ (State : Type 0) (middle : State → Middle) (with_middle : State → Middle → State)
      (alloc_small : ℕ → State → Option (ℕ × State))
      (dealloc_small : ℕ → ℕ → State → Option State) where
    abbrev with_heap : State → Backend → State
    with_heap s heap = with_middle s (record (middle s) { heap = heap })

    unfoldable pub alloc_over : Layout → State → Option (ℕ × State)
    alloc_over layout s =
        if layout.size == 0 then some (layout.align, s) else elim (route cfg classes layout) [
          | Route.small class ↦ alloc_small class s
          | Route.large ↦ (do
            (ptr, heap) ← alloc_large cfg layout (middle s).heap
            some (ptr, with_heap s heap))
        ]

    unfoldable pub dealloc_over : ℕ → Layout → State → Option State
    dealloc_over ptr layout s =
        let heap = (middle s).heap in
        let span = PageMap.get heap.pagemap (ptr / 2 ^ cfg.page_shift) in
        let sc = (heap.spans span).size_class in
        let to_heap = (do heap' ← deallocate_span cfg span heap; some (with_heap s heap')) in
        if layout.size == 0 || span == null
        then some s
        else if sc == 0
        then to_heap
        else dealloc_small ptr sc s

  -- The feature `percpu`.
  unfoldable pub percpu_alloc : ℕ → Bool → Layout → Cpus → Option (ℕ × Cpus)
  unfolding alloc_over
  percpu_alloc sysconf registers =
      alloc_over Cpus (λ s. s.middle) (λ s m. record s { middle = m })
        (Front.alloc cfg classes fuel sysconf registers)
        (Front.dealloc cfg classes fuel sysconf registers)

  unfoldable pub percpu_dealloc : ℕ → Bool → ℕ → Layout → Cpus → Option Cpus
  unfolding dealloc_over
  percpu_dealloc sysconf registers =
      dealloc_over Cpus (λ s. s.middle) (λ s m. record s { middle = m })
        (Front.alloc cfg classes fuel sysconf registers)
        (Front.dealloc cfg classes fuel sysconf registers)

  -- No feature.
  unfoldable pub nostd_alloc : Layout → Middle → Option (ℕ × Middle)
  unfolding alloc_over
  nostd_alloc =
      alloc_over Middle (λ s. s) (λ s m. m) (alloc_from_central cfg classes fuel)
        (dealloc_to_central cfg classes fuel)

  unfoldable pub nostd_dealloc : ℕ → Layout → Middle → Option Middle
  unfolding dealloc_over
  nostd_dealloc =
      dealloc_over Middle (λ s. s) (λ s m. m) (alloc_from_central cfg classes fuel)
        (dealloc_to_central cfg classes fuel)
