-- ===== src/Tests/Interfaces.antt =====
-- A histogram with two sizes, and the C functions on a new thread.
use rtmalloc.Allocator.{Thread, TlsState, Fill, alloc_small, dealloc_small}
use rtmalloc.Base.{ℕ, ◌≡◌, refl, Bool, true, false, List, [], ◌∷◌, none, some, ◌==◌, if◌then◌else◌}
use rtmalloc.Ffi.{posix_memalign, calloc, c_realloc, is_power_below}
use rtmalloc.Ffi.Errors.{MemalignOutcome, CallocOutcome, posix_memalign-Outcome, calloc-Outcome}
use rtmalloc.Histogram.{
  Snapshot, Range, collect, num_buckets, layout_of, optimal_layout, merge_rounds, cheapest,
  merge_at,
}
use rtmalloc.Histogram.Merging.{IsMerged, optimal_layout-IsMerged}
use rtmalloc.Tests.Caches.{process, classes}
use rtmalloc.Tests.Heap.{small_config}

-- Three allocations of 24 bytes at most and five of 40.
abbrev two_sizes : Snapshot
two_sizes = record { counts = λ i. if i == 2 then 3 else if i == 4 then 5 else 0; overflow = 0 }

-- No merge is too wasteful.
abbrev never_wasteful : ℕ → ℕ → ℕ → Bool
never_wasteful waste count class = false

-- Two ranges become one: 3 * 7 and 5 * 7 bytes of waste, and 3 * 16 by the merge.
merged_two :
    merge_rounds never_wasteful 1 2 (
      record { class = 24; count = 3; waste = 21 }
      ∷ record { class = 40; count = 5; waste = 35 }
      ∷ [])
    ≡ some (record { class = 40; count = 8; waste = 104 } ∷ [])
unfolding merge_rounds cheapest merge_at
merged_two = refl

optimal_layout-IsMerged_example :
    (out : List Range) × (optimal_layout never_wasteful 1 two_sizes ≡ some (layout_of out))
    × IsMerged never_wasteful 1 0 (collect two_sizes.counts num_buckets 0) out
optimal_layout-IsMerged_example = optimal_layout-IsMerged never_wasteful 1 two_sizes

abbrev new_thread : Thread
new_thread = record { reachable = true; state = TlsState.uninitialized; process = process }

-- 24 is no power of two.
posix_memalign_refuses :
    posix_memalign small_config classes 9 640 24 8 new_thread ≡ some (22, 640, new_thread)
unfolding posix_memalign is_power_below
posix_memalign_refuses = refl

-- What `aligned_alloc` gives for a size of 0 is taken for an allocation of 16 bytes.
dangling_kept : c_realloc small_config classes 9 64 16 new_thread ≡ some (64, none, new_thread)
unfolding c_realloc rtmalloc.Allocator.realloc rtmalloc.PageMap.get
dangling_kept = refl

posix_memalign-Outcome_example :
    MemalignOutcome small_config classes 9 640 64 8 new_thread
      (posix_memalign small_config classes 9 640 64 8 new_thread)
posix_memalign-Outcome_example = posix_memalign-Outcome small_config classes 9 640 64 8 new_thread

calloc-Outcome_example :
    CallocOutcome small_config classes 9 4 8 new_thread
      (calloc small_config classes 9 4 8 new_thread)
calloc-Outcome_example = calloc-Outcome small_config classes 9 4 8 new_thread
