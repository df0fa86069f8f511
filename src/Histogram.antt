-- ===== src/Histogram.antt =====
-- src/histogram.rs: the counts of the sizes by buckets of 8 bytes, and the layout of classes that
-- merging makes of them. The test of the waste ratio, which is in floating point, is the parameter
-- `exceeds` with the merged waste, the merged count and the class; the quotients of the result are
-- kept as their dividends and divisors.
pub mod Merging
pub mod Recording
pub mod Covering
pub mod Suggest
use rtmalloc.Base.{
  ℕ, zero, suc, ◌+◌, ◌-◌, ◌*◌, ◌/◌, ◌%◌, ◌^◌, Bool, true, false, List, [], ◌∷◌, Option, none, some,
  ltb, leb, ◌==◌, if◌then◌else◌, ◌>>=◌, map, length, get_or, update,
}
use rtmalloc.Base.Rounding.{u64, usize_sub}

abbrev pub max_tracked : ℕ
max_tracked = 4096

abbrev pub bucket_size : ℕ
bucket_size = 8

abbrev pub num_buckets : ℕ
num_buckets = max_tracked / bucket_size

pub record Snapshot : Type 0 where
  pub counts : ℕ → ℕ
  pub overflow : ℕ

-- `record`.
unfoldable pub record_size : ℕ → Snapshot → Snapshot
record_size size s =
    let idx = (size - 1) / bucket_size in
    if size == 0
    then s
    else if ltb max_tracked size
    then record s { overflow = u64 (s.overflow + 1) }
    else record s { counts = update s.counts idx (u64 (s.counts idx + 1)) }

-- A triple of `ranges`.
pub record Range : Type 0 where
  pub class : ℕ
  pub count : ℕ
  pub waste : ℕ

-- The ranges of the buckets that are not empty, for the buckets from `i` on that are left.
unfoldable pub collect : (ℕ → ℕ) → ℕ → ℕ → List Range
collect counts zero i = []
collect counts (suc left) i =
    let rest = collect counts left (i + 1) in
    let class_size = (i + 1) * bucket_size in
    let assumed_alloc_size = i * bucket_size + 1 in
    let waste_per_alloc = class_size - assumed_alloc_size in
    if ltb 0 (counts i)
    then record { class = class_size; count = counts i; waste = u64 (counts i * waste_per_alloc) }
      ∷ rest
    else rest

-- The waste that a merge of two neighbours adds.
abbrev pub added_waste : Range → Range → ℕ
added_waste left right = u64 (left.count * usize_sub right.class left.class)

-- `min_by_key` over the pairs of neighbours: the index of the first cheapest one, and its key.
unfoldable pub cheapest : List Range → Option (ℕ × ℕ)
cheapest [] = none
cheapest (a ∷ []) = none
cheapest (a ∷ b ∷ rs) =
    let cost = added_waste a b in
    elim (cheapest (b ∷ rs)) [
      | none ↦ some (0, cost)
      | some best ↦ if leb cost best.1 then some (0, cost) else some (suc best.0, best.1)
    ]

abbrev pub merged : Range → Range → Range
merged left right = record {
  class = right.class;
  count = u64 (left.count + right.count);
  waste = u64 (left.waste + added_waste left right + right.waste);
}

-- `ranges[i] = ...; ranges.remove(i + 1)`.
unfoldable pub merge_at : ℕ → List Range → List Range
merge_at i [] = []
merge_at i (a ∷ []) = a ∷ []
merge_at zero (a ∷ b ∷ rs) = merged a b ∷ rs
merge_at (suc i) (a ∷ b ∷ rs) = a ∷ merge_at i (b ∷ rs)

abbrev pub nothing_in : Range
nothing_in = record { class = 0; count = 0; waste = 0 }

abbrev pub merged_at : ℕ → List Range → Range
merged_at i rs = merged (get_or rs i nothing_in) (get_or rs (i + 1) nothing_in)

module _ (exceeds : ℕ → ℕ → ℕ → Bool) (max_classes : ℕ) where
  abbrev pub too_wasteful : Range → Bool
  too_wasteful r = exceeds r.waste r.count r.class

  -- The loop, on fuel.
  unfoldable pub merge_rounds : ℕ → List Range → Option (List Range)
  merge_rounds zero rs = none
  merge_rounds (suc fuel) rs = if leb (length rs) max_classes then some rs else elim (cheapest rs) [
    | none ↦ some rs
    | some best ↦
        let rest = merge_rounds fuel (merge_at best.0 rs) in
        if too_wasteful (merged_at best.0 rs) then some rs else rest
  ]

-- The sums over the ranges, which wrap.
unfoldable pub total : (Range → ℕ) → List Range → ℕ
total f [] = 0
total f (r ∷ rs) = u64 (f r + total f rs)

pub record ClassLayout : Type 0 where
  pub classes : List ℕ
  pub total_waste : ℕ
  pub total_count : ℕ
  pub total_alloc_bytes : ℕ

abbrev pub layout_of : List Range → ClassLayout
layout_of rs = record {
  classes = map (λ r. r.class) rs;
  total_waste = total (λ r. r.waste) rs;
  total_count = total (λ r. r.count) rs;
  total_alloc_bytes = total (λ r. u64 (r.class * r.count)) rs;
}

-- As many rounds as there are ranges, of which each but the last merges two of them.
abbrev pub layout_from : (ℕ → ℕ → ℕ → Bool) → ℕ → List Range → Option ClassLayout
layout_from exceeds max_classes [] =
    some (record { classes = []; total_waste = 0; total_count = 0; total_alloc_bytes = 0 })
layout_from exceeds max_classes (r ∷ rs) = do
  out ← merge_rounds exceeds max_classes (length (r ∷ rs)) (r ∷ rs)
  some (layout_of out)

unfoldable pub optimal_layout : (ℕ → ℕ → ℕ → Bool) → ℕ → Snapshot → Option ClassLayout
unfolding merge_rounds collect
optimal_layout exceeds max_classes s =
    layout_from exceeds max_classes (collect s.counts num_buckets 0)
