-- ===== src/ThreadCache/Limits.antt =====
-- src/thread_cache.rs: the limits of the free lists and the budget of the caches.
use native.Mathlib.Nat.{mod-lt}
use rtmalloc.Base.{
  ℕ, ◌+◌, ◌-◌, ◌%◌, ◌^◌, ◌≤◌, ◌<◌, ◌≡◌, refl, ◌⊎◌, inl, inr, true, false, List, [], ◌∷◌, arith,
  Bool-cases,
}
use rtmalloc.Base.Rounding.{u32, u32_sub}
use rtmalloc.Platform.Trim.{round_down-mod}
use rtmalloc.Span.Chain.{has}
use rtmalloc.ThreadCache.{FreeList}
use rtmalloc.ThreadCache.Cache.{
  isize_lt, grow_max_length_on_fetch, adjust_max_length, increase_rounds,
}

-- A list's limit starts below the batch size and grows by one a time until it is there; from there on
-- it grows by a batch, to a multiple of the batch size that is greater than before, or stands at
-- `MAX_DYNAMIC_FREE_LIST_LENGTH`, which it never exceeds. No step lowers a limit that is within the bound.
grow_max_length_on_fetch-bounds :
    (max_free_list_length batch_size : ℕ) (l : FreeList)
    → 0 < batch_size
    → batch_size ≤ max_free_list_length
    → max_free_list_length + batch_size < 2 ^ 32
    → l.max_length ≤ max_free_list_length
    → let l' = grow_max_length_on_fetch max_free_list_length batch_size l in
      (l'.max_length ≤ max_free_list_length)
      × (l.max_length ≤ l'.max_length)
      × (((l.max_length < batch_size) × (l'.max_length ≡ l.max_length + 1))
          ⊎ ((l.max_length < l'.max_length) × (l'.max_length % batch_size ≡ 0))
          ⊎ (l'.max_length ≡ max_free_list_length))
      × (l'.length_overages ≡ 0)
unfolding grow_max_length_on_fetch
grow_max_length_on_fetch-bounds max_free_list_length batch_size l some_batch le small bound =
    let b : u32 batch_size ≡ batch_size = omega arith in
    let g : u32 (l.max_length + batch_size) ≡ l.max_length + batch_size = omega arith in
    let r : u32_sub (l.max_length + batch_size) ((l.max_length + batch_size) % batch_size)
        ≡ l.max_length + batch_size - (l.max_length + batch_size) % batch_size =
      omega (arith, mod-lt (l.max_length + batch_size) some_batch) in
    rw (b, g, r)
      (ground (
        arith,
        mod-lt (l.max_length + batch_size) some_batch,
        round_down-mod (l.max_length + batch_size) batch_size,
      ))

-- After a release the limit of a list is at most one more than before; while it is below the batch
-- size it grows by one, and once it has reached that it never falls below it again.
adjust_max_length-bounds :
    (max_overages batch : ℕ) (l : FreeList)
    → l.max_length < 2 ^ 32 - 1
    → let l' = adjust_max_length max_overages batch l in
      (l'.max_length ≤ l.max_length + 1)
      × (((l.max_length < batch) × (l'.max_length ≡ l.max_length + 1))
          ⊎ ((batch ≤ l.max_length) × (batch ≤ l'.max_length)))
unfolding adjust_max_length
adjust_max_length-bounds max_overages batch l small = ground arith

-- `increase_cache_limit` ends with the pool value that it read last, the first one or one that another
-- thread left. If that was below the amount to take, nothing changes; else the amount goes from the
-- pool, which does not become negative, to the limit of the cache.
pub increase_rounds-claims :
    (steal_amount : ℕ) (races : List ℕ) (current max_size : ℕ)
    → steal_amount < 2 ^ 63
    → max_size + steal_amount < 2 ^ 64
    → let (left, unclaimed, limit) = increase_rounds steal_amount races current max_size in
      (seen : ℕ) × (has seen (current ∷ races) ≡ true)
      × (((isize_lt seen steal_amount ≡ true) × (unclaimed ≡ seen) × (limit ≡ max_size))
          ⊎ ((isize_lt seen steal_amount ≡ false)
              × (unclaimed + steal_amount ≡ seen)
              × (unclaimed < 2 ^ 63)
              × (limit ≡ max_size + steal_amount)))
unfolding increase_rounds
increase_rounds-claims steal_amount [] current max_size small room =
    elim (Bool-cases (isize_lt current steal_amount)) [
      | inl less ↦ rw less (current, ground arith, inl (less, refl, refl))
      | inr enough ↦
          rw enough (current, ground arith, inr (enough, ground arith, ground arith, ground arith))
    ]
increase_rounds-claims steal_amount (other ∷ races) current max_size small room =
    elim (Bool-cases (isize_lt current steal_amount)) [
      | inl less ↦ rw less (current, ground arith, inl (less, refl, refl))
      | inr enough ↦
          let (seen, among, outcome) =
            increase_rounds-claims steal_amount races other max_size small room in
          rw enough (seen, ground arith, outcome)
    ]
