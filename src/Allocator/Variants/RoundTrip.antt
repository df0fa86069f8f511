-- ===== src/Allocator/Variants/RoundTrip.antt =====
-- src/allocator.rs with the feature `percpu`: an object that is freed and allocated again.
use rtmalloc.Allocator.{Route, route}
use rtmalloc.Allocator.Large.{Layout}
use rtmalloc.Allocator.Variants.{percpu_alloc, percpu_dealloc}
use rtmalloc.Base.{
  ℕ, ◌/◌, ◌^◌, ◌<◌, ◌≡◌, refl, ◌∙◌, ◌≢◌, Bool, true, false, ◌||◌, arith, List, some, ◌==◌, if_false,
  length,
}
use rtmalloc.Build.{ResolvedConfig}
use rtmalloc.CpuCache.{Cpus}
use rtmalloc.CpuCache.Front
use rtmalloc.CpuCache.RoundTrip.{attempts, alloc-dealloc}
use rtmalloc.PageMap
use rtmalloc.PerCpu.{Abort}
use rtmalloc.PerCpu.Stack.{Holds}
use rtmalloc.SizeClass.{SizeClassInfo}
use rtmalloc.Span.{null}

module _ (cfg : ResolvedConfig) (classes : List SizeClassInfo) (fuel sysconf : ℕ)
    (registers : Bool) where
  abbrev pub span_of : ℕ → Cpus → ℕ
  span_of ptr s = PageMap.get s.middle.heap.pagemap (ptr / 2 ^ cfg.page_shift)

  dealloc_to_front :
      (ptr : ℕ) (layout : Layout) (s : Cpus)
      → 0 < layout.size
      → span_of ptr s ≢ null
      → 0 < (s.middle.heap.spans (span_of ptr s)).size_class
      → percpu_dealloc cfg classes fuel sysconf registers ptr layout s
        ≡ Front.dealloc cfg classes fuel sysconf registers ptr
            (s.middle.heap.spans (span_of ptr s)).size_class
            s
  unfolding percpu_dealloc
  dealloc_to_front ptr layout s some_bytes some_span small =
      let known : (layout.size == 0 || span_of ptr s == null) ≡ false =
        ground (arith, some_bytes, some_span) in
      let of_class : ((s.middle.heap.spans (span_of ptr s)).size_class == 0) ≡ false =
        ground (arith, small) in
      if_false _ _ _ known ∙ if_false _ _ _ of_class

  alloc_to_front :
      (layout : Layout) (s : Cpus) (class : ℕ)
      → 0 < layout.size
      → route cfg classes layout ≡ Route.small class
      → percpu_alloc cfg classes fuel sysconf registers layout s
        ≡ Front.alloc cfg classes fuel sysconf registers class s
  unfolding percpu_alloc
  alloc_to_front layout s class some_bytes routed =
      let wanted : (layout.size == 0) ≡ false = ground (arith, some_bytes) in
      rw (wanted, routed) refl

  -- With the feature `percpu`, on a thread that has registered: an object in a span of the class that a
  -- request goes to, freed to a stack with room on the thread's CPU, is what the next such request
  -- gets there, though the kernel may abort the first attempt of each. The stack is then as before,
  -- and the shared tiers are not touched.
  pub percpu_alloc-percpu_dealloc :
      (ptr : ℕ) (freed asked : Layout) (cpu capacity : ℕ) (put get : Abort) (ts : List (ℕ × Abort))
      (s : Cpus) (xs : List ℕ)
      → 0 < freed.size
      → 0 < asked.size
      → span_of ptr s ≢ null
      → let class = (s.middle.heap.spans (span_of ptr s)).size_class in
        0 < class
        → route cfg classes asked ≡ Route.small class
        → s.cached_rseq ≡ true
        → s.turns ≡ attempts cpu put (attempts cpu get ts)
        → Holds s.slab s.region cpu class capacity xs
        → length xs < capacity
        → (s1 s2 : Cpus) × (percpu_dealloc cfg classes fuel sysconf registers ptr freed s ≡ some s1)
          × (percpu_alloc cfg classes fuel sysconf registers asked s1 ≡ some (ptr, s2))
          × Holds s2.slab s2.region cpu class capacity xs
          × (s2.middle ≡ s.middle)
          × (s2.turns ≡ ts)
  percpu_alloc-percpu_dealloc ptr freed asked cpu capacity put get ts s xs some_freed some_asked
        some_span small routed cached e is room =
      let class = (s.middle.heap.spans (span_of ptr s)).size_class in
      let (s1, s2, gone, back, holds, shared, later) =
        alloc-dealloc cfg classes fuel sysconf registers class ptr cpu capacity put get ts s xs
          cached e is room in
      (
        s1,
        s2,
        dealloc_to_front ptr freed s some_freed some_span small ∙ gone,
        alloc_to_front asked s1 class some_asked routed ∙ back,
        holds,
        shared,
        later,
      )
