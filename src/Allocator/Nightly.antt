-- ===== src/Allocator/Nightly.antt =====
-- src/allocator.rs: small objects in the builds with the feature `nightly`, whose slot needs no
-- `try_with`.
use rtmalloc.Allocator.{
  TlsState, Thread, on_middle, cached_alloc, slot_init, alloc_from_central, dealloc_to_central,
}
use rtmalloc.Base.{ℕ, List, Option, some, ◌>>=◌}
use rtmalloc.Build.{ResolvedConfig}
use rtmalloc.SizeClass.{SizeClassInfo}
use rtmalloc.ThreadCache.Cache

module _ (cfg : ResolvedConfig) (classes : List SizeClassInfo) (fuel : ℕ) where
  unfoldable pub nightly_alloc_small : ℕ → Thread → Option (ℕ × Thread)
  unfolding alloc_from_central slot_init
  nightly_alloc_small class t = elim (t.state) [
    | TlsState.active ↦ cached_alloc cfg classes fuel class t
    | TlsState.uninitialized ↦ cached_alloc cfg classes fuel class (slot_init cfg classes fuel t)
    | TlsState.destroyed ↦ on_middle cfg classes fuel (alloc_from_central cfg classes fuel class) t
  ]

  unfoldable pub nightly_dealloc_small : ℕ → ℕ → Thread → Option Thread
  unfolding dealloc_to_central
  nightly_dealloc_small ptr class t = elim (t.state) [
    | TlsState.active ↦ (do
      p ← Cache.deallocate cfg classes fuel ptr class t.process
      some (record t { process = p }))
    | _ ↦ (do
      s ← dealloc_to_central cfg classes fuel ptr class t.process.middle
      some (record t { process = record (t.process) { middle = s } }))
  ]
