-- ===== src/Histogram/Covering.antt =====
-- src/histogram.rs: a recorded size and the layout that is made of the counts.
use mathlib.Core.Path.{subst}
use rtmalloc.Base.{
  ℕ, zero, suc, ◌+◌, ◌-◌, ◌*◌, ◌/◌, ◌^◌, ◌≤◌, ◌<◌, ◌≡◌, sym, inl, inr, Bool, true, arith, List, [],
  ◌∷◌, some, ltb, Bool-cases, if_true, if_false,
}
use rtmalloc.Histogram.{
  Snapshot, Range, bucket_size, num_buckets, max_tracked, record_size, collect, layout_of,
  optimal_layout,
}
use rtmalloc.Histogram.Merging.{
  last_from, AscendingFrom, collect-AscendingFrom, optimal_layout-IsMerged,
}
use rtmalloc.Histogram.Recording.{record_size-counts}

last_from-AscendingFrom : (d : ℕ) (rs : List Range) → AscendingFrom d rs → d ≤ last_from d rs
unfolding last_from
last_from-AscendingFrom d [] up = omega arith
last_from-AscendingFrom d (r ∷ rs) (lt, up) = omega (arith, last_from-AscendingFrom r.class rs up)

has_count : (counts : ℕ → ℕ) (i j : ℕ) → i ≡ j → 0 < counts i → 0 < counts j
has_count counts i j e pos = subst (λ (k : ℕ). 0 < counts k) e pos

-- A bucket with a count has a class that is at least its own.
last_from-collect :
    (counts : ℕ → ℕ) (left i d k : ℕ)
    → d < (i + 1) * 8
    → k < left
    → 0 < counts (i + k)
    → (i + k + 1) * 8 ≤ last_from d (collect counts left i)
unfolding collect last_from
last_from-collect counts zero i d k low lt pos = absurd (omega arith)
last_from-collect counts (suc left) i d zero low lt pos =
    let some_there : ltb 0 (counts i) ≡ true =
      ground (arith, has_count counts (i + 0) i (omega arith) pos) in
    subst (λ rs. (i + 0 + 1) * 8 ≤ last_from d rs) (sym (if_true _ _ _ some_there))
      (omega (
        arith,
        last_from-AscendingFrom ((i + 1) * 8) (collect counts left (i + 1))
            (collect-AscendingFrom counts left (i + 1) ((i + 1) * 8) (omega arith)),
      ))
last_from-collect counts (suc left) i d (suc k) low lt pos =
    let later : (e : ℕ)
        → e < (i + 1 + 1) * 8
        → (i + suc k + 1) * 8 ≤ last_from e (collect counts left (i + 1)) =
      λ e le. omega (
        arith,
        last_from-collect counts left (i + 1) e k le (omega arith)
            (has_count counts (i + suc k) (i + 1 + k) (omega arith) pos),
      ) in
    elim (Bool-cases (ltb 0 (counts i))) [
      | inl some_there ↦
          subst (λ rs. (i + suc k + 1) * 8 ≤ last_from d rs) (sym (if_true _ _ _ some_there))
            (later ((i + 1) * 8) (omega arith))
      | inr none_there ↦
          subst (λ rs. (i + suc k + 1) * 8 ≤ last_from d rs) (sym (if_false _ _ _ none_there))
            (later d (omega arith))
    ]

-- After `record` of a size from 1 to 4096, whose bucket's count does not wrap, `optimal_layout` has a
-- class that holds the size, however few classes are asked for and whatever the waste test says.
pub optimal_layout-record_size :
    (exceeds : ℕ → ℕ → ℕ → Bool) (max_classes size : ℕ) (s : Snapshot)
    → 0 < size
    → size ≤ max_tracked
    → s.counts ((size - 1) / bucket_size) + 1 < 2 ^ 64
    → (out : List Range) × (optimal_layout exceeds max_classes (record_size size s)
        ≡ some (layout_of out))
      × (size ≤ last_from 0 out)
optimal_layout-record_size exceeds max_classes size s pos small room =
    let s1 = record_size size s in
    let (out, e, is) = optimal_layout-IsMerged exceeds max_classes s1 in
    elim (record_size-counts size s) [
      | inl (empty, same) ↦ absurd (omega arith)
      | inr (inl (large, more)) ↦ absurd (omega arith)
      | inr (inr (i, counted)) ↦
          let here : (size - 1) / bucket_size ≡ i = omega (arith, counted.above, counted.upto) in
          let one : 0 < s1.counts (0 + i) = has_count s1.counts i (0 + i) (omega arith) (
            omega
              (arith, counted.one_more, subst (λ (j : ℕ). s.counts j + 1 < 2 ^ 64) here room)) in
          (
            out,
            e,
            omega (
              arith,
              is.largest,
              counted.upto,
              last_from-collect s1.counts num_buckets 0 0 i (omega arith) counted.bucket one,
            ),
          )
    ]
