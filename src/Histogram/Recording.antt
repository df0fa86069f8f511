-- ===== src/Histogram/Recording.antt =====
-- src/histogram.rs: what `record` counts.
use rtmalloc.Base.{
  ℕ, ◌+◌, ◌-◌, ◌*◌, ◌/◌, ◌≤◌, ◌<◌, ◌≡◌, refl, ◌≢◌, ◌⊎◌, inl, inr, arith, ltb, ◌==◌, Bool-cases,
  if_true, if_false, update_self, update_ne,
}
use mathlib.Core.Path.{sym, subst}
use rtmalloc.Base.Rounding.{u64}
use rtmalloc.Histogram.{Snapshot, bucket_size, num_buckets, max_tracked, record_size}

-- One bucket, whose sizes are those above `i` times its width up to `i + 1` times it, has one more.
pub record IsCounted (size i : ℕ) (before after : Snapshot) : Type 0 where
  pub bucket : i < num_buckets
  pub above : i * bucket_size < size
  pub upto : size ≤ (i + 1) * bucket_size
  pub one_more : after.counts i ≡ u64 (before.counts i + 1)
  pub others : (j : ℕ) → j ≢ i → after.counts j ≡ before.counts j
  pub overflow : after.overflow ≡ before.overflow

abbrev pub RecordOutcome : ℕ → Snapshot → Snapshot → Type 0
RecordOutcome size before after =
    ((size ≡ 0) × (after ≡ before))
    ⊎ ((max_tracked < size) × (after ≡ record before { overflow = u64 (before.overflow + 1) }))
    ⊎ ((i : ℕ) × IsCounted size i before after)

-- `record` ignores a size of 0, counts a size above 4096 in the overflow, and any other in the one
-- bucket whose range holds it, which is within the array; no other count changes.
pub record_size-counts : (size : ℕ) (s : Snapshot) → RecordOutcome size s (record_size size s)
unfolding record_size
record_size-counts size s = elim (Bool-cases (size == 0)) [
  | inl empty ↦
      subst (RecordOutcome size s) (sym (if_true _ _ _ empty)) (inl (ground (arith, empty), refl))
  | inr some_bytes ↦
      subst (RecordOutcome size s) (sym (if_false _ _ _ some_bytes))
        (elim (Bool-cases (ltb max_tracked size)) [
          | inl large ↦
              subst (RecordOutcome size s) (sym (if_true _ _ _ large))
                (inr (inl (ground (arith, large), refl)))
          | inr small ↦
              let i = (size - 1) / bucket_size in
              let count = u64 (s.counts i + 1) in
              subst (RecordOutcome size s) (sym (if_false _ _ _ small)) (
                inr (
                  inr (
                    i,
                    record {
                      bucket = ground (arith, small);
                      above = ground (arith, some_bytes);
                      upto = ground (arith, some_bytes);
                      one_more = update_self s.counts i count;
                      others = λ j ne. update_ne s.counts i count j ne;
                      overflow = refl;
                    },
                  )))
        ])
]
