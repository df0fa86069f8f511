-- ===== src/Histogram/Suggest.antt =====
-- src/histogram.rs: `suggest_classes`. Its target, which is computed in floating point from the total
-- and the coverage, is a parameter, and so are the two sorts of the standard library.
pub mod Fewest
pub mod Smallest
use rtmalloc.Base.{ℕ, zero, suc, ◌+◌, ◌*◌, ◌%◌, ◌^◌, List, [], ◌∷◌, ltb, leb, ◌==◌, if◌then◌else◌}
use rtmalloc.Base.Rounding.{u64}
use rtmalloc.Histogram.{Snapshot, bucket_size, num_buckets}

-- `snap.counts.iter().sum()`, for the buckets from `i` on that are left.
unfoldable pub total_from : (ℕ → ℕ) → ℕ → ℕ → ℕ
total_from counts zero i = 0
total_from counts (suc left) i = u64 (counts i + total_from counts left (i + 1))

-- The sizes and counts of the buckets that are not empty.
unfoldable pub pairs_from : (ℕ → ℕ) → ℕ → ℕ → List (ℕ × ℕ)
pairs_from counts zero i = []
pairs_from counts (suc left) i =
    let rest = pairs_from counts left (i + 1) in
    if ltb 0 (counts i) then ((i + 1) * bucket_size, counts i) ∷ rest else rest

-- The loop that pushes sizes until the target is covered.
unfoldable pub greedy : ℕ → ℕ → List (ℕ × ℕ) → List ℕ
greedy target covered [] = []
greedy target covered ((size, count) ∷ pairs) =
    let covered1 = u64 (covered + count) in
    let rest = greedy target covered1 pairs in size ∷ (if leb target covered1 then [] else rest)

module _ (target_of : ℕ → ℕ) (sort_by_count : List (ℕ × ℕ) → List (ℕ × ℕ))
    (sort_sizes : List ℕ → List ℕ) where
  unfoldable pub suggest_classes : Snapshot → List ℕ
  suggest_classes snap =
      let total = total_from snap.counts num_buckets 0 in
      if total == 0
      then []
      else sort_sizes
          (greedy (target_of total) 0 (sort_by_count (pairs_from snap.counts num_buckets 0)))
