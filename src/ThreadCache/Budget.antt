-- ===== src/ThreadCache/Budget.antt =====
-- src/thread_cache.rs: the budget that the caches take from `UNCLAIMED_CACHE_SPACE`.
use rtmalloc.Base.{
  ℕ, zero, suc, ◌+◌, ◌-◌, ◌/◌, ◌%◌, ◌^◌, ◌<◌, ◌≡◌, refl, ◌∙◌, List, [], ◌∷◌, Option, some, arith,
  ltb, if◌then◌else◌, min, ◌>>=◌, Ensures, Ensures->>=, Ensures-if, Ensures-some,
}
use rtmalloc.Base.Rounding.{usize, u32}
use rtmalloc.Build.{ResolvedConfig}
use rtmalloc.SizeClass.{SizeClassInfo, class_info, class_to_size, num_size_classes}
use rtmalloc.ThreadCache.{pop, push}
use rtmalloc.ThreadCache.Cache.{
  Process, put_list, put_total, give_batch, release_to_central, scavenge_class, scavenge_from,
  scavenge, fetch_from_central, allocate, deallocate, flush_class, flush_from, init,
  increase_rounds, increase_cache_limit, flush_and_destroy,
}

-- The two shares of the budget, and what the other threads do to the pool, are untouched.
record Same (p p' : Process) : Type 0 where
  unclaimed : p'.unclaimed ≡ p.unclaimed
  races : p'.races ≡ p.races
  max_size : p'.cache.max_size ≡ p.cache.max_size

Same-refl : (p : Process) → Same p p
Same-refl p = record { unclaimed = refl; races = refl; max_size = refl }

Same-trans : (p q r : Process) → Same p q → Same q r → Same p r
Same-trans p q r a b = record {
  unclaimed = b.unclaimed ∙ a.unclaimed;
  races = b.races ∙ a.races;
  max_size = b.max_size ∙ a.max_size;
}

-- What the pool and the limit of this cache hold together.
abbrev pub pool : Process → ℕ
pool p = usize (p.unclaimed + p.cache.max_size)

module _ (cfg : ResolvedConfig) (classes : List SizeClassInfo) (fuel : ℕ) where
  give_batch-Same :
      (cls n : ℕ) (p : Process) → Ensures (Same p) (give_batch cfg classes fuel cls n p)
  unfolding give_batch
  give_batch-Same cls n p = ground arith

  release_to_central-Same :
      (cls : ℕ) (p : Process) → Ensures (Same p) (release_to_central cfg classes fuel cls p)
  unfolding release_to_central
  release_to_central-Same cls p = ground (
    arith,
    give_batch-Same cls (min (u32 (class_info classes cls).batch_size) (p.cache.lists cls).length)
        p,
  )

  scavenge_class-Same :
      (cls : ℕ) (p : Process) → Ensures (Same p) (scavenge_class cfg classes fuel cls p)
  unfolding scavenge_class
  scavenge_class-Same cls p =
      let lwm = (p.cache.lists cls).low_water_mark in
      ground (arith, give_batch-Same cls (if ltb 1 lwm then lwm / 2 else 1) p)

  scavenge_from-Same :
      (rounds cls : ℕ) (p : Process)
      → Ensures (Same p) (scavenge_from cfg classes fuel rounds cls p)
  unfolding scavenge_from
  scavenge_from-Same zero cls p = Same-refl p
  scavenge_from-Same (suc rounds) cls p =
      Ensures->>= (Same p) (scavenge_class cfg classes fuel cls p) _ (scavenge_class-Same cls p)
        (λ q s. ground (arith, scavenge_from-Same rounds (cls + 1) q))

  fetch_from_central-Same :
      (cls : ℕ) (p : Process)
      → Ensures (λ r. Same p r.1) (fetch_from_central cfg classes fuel cls p)
  unfolding fetch_from_central
  fetch_from_central-Same cls p = ground arith

  allocate-Same :
      (cls : ℕ) (p : Process) → Ensures (λ r. Same p r.1) (allocate cfg classes fuel cls p)
  unfolding allocate
  allocate-Same cls p = ground (
    arith,
    fetch_from_central-Same cls (put_list cls (pop p.middle.words (p.cache.lists cls)).1 p),
  )

  flush_class-Same : (cls : ℕ) (p : Process) → Ensures (Same p) (flush_class cfg classes fuel cls p)
  unfolding flush_class
  flush_class-Same cls p = ground (arith, give_batch-Same cls (p.cache.lists cls).length p)

  flush_from-Same :
      (rounds cls : ℕ) (p : Process) → Ensures (Same p) (flush_from cfg classes fuel rounds cls p)
  unfolding flush_from
  flush_from-Same zero cls p = Same-refl p
  flush_from-Same (suc rounds) cls p =
      Ensures->>= (Same p) (flush_class cfg classes fuel cls p) _ (flush_class-Same cls p)
        (λ q s. ground (arith, flush_from-Same rounds (cls + 1) q))

  increase_cache_limit-pool :
      (p : Process) → p.races ≡ [] → pool (increase_cache_limit cfg classes fuel p) ≡ pool p
  unfolding increase_cache_limit increase_rounds
  increase_cache_limit-pool p quiet = rw quiet (ground arith)

  -- After the operation no exchange fails, and the two shares together are as before.
  abbrev Conserved : Process → Process → Type 0
  Conserved p q = (q.races ≡ []) × (pool q ≡ pool p)

  Same-Conserved : (p q : Process) → p.races ≡ [] → Same p q → Conserved p q
  Same-Conserved p q quiet s = (s.races ∙ quiet, rw (s.unclaimed, s.max_size) refl)

  increase_rounds-quiet :
      (steal_amount current max_size : ℕ)
      → (increase_rounds steal_amount [] current max_size).0 ≡ []
  unfolding increase_rounds
  increase_rounds-quiet steal_amount current max_size = ground arith

  increase_cache_limit-quiet :
      (p : Process) → p.races ≡ [] → (increase_cache_limit cfg classes fuel p).races ≡ []
  unfolding increase_cache_limit
  increase_cache_limit-quiet p quiet =
      rw quiet (increase_rounds-quiet cfg.steal_amount p.unclaimed p.cache.max_size)

  scavenge-Conserved :
      (p : Process) → p.races ≡ [] → Ensures (Conserved p) (scavenge cfg classes fuel p)
  unfolding scavenge
  scavenge-Conserved p quiet =
      Ensures->>= (Conserved p) (scavenge_from cfg classes fuel (num_size_classes classes - 1) 1 p)
        _ (scavenge_from-Same (num_size_classes classes - 1) 1 p)
        (λ q s. (
          increase_cache_limit-quiet q (s.races ∙ quiet),
          increase_cache_limit-pool q (s.races ∙ quiet) ∙ (Same-Conserved p q quiet s).1,
        ))

  scavenge_if-Conserved :
      (p q : Process)
      → p.races ≡ []
      → Same p q
      → Ensures
          (Conserved p)
          (if ltb q.cache.max_size q.cache.total_size then scavenge cfg classes fuel q else some q)
  scavenge_if-Conserved p q quiet s =
      let (silent, e) = Same-Conserved p q quiet s in
      Ensures-if (Conserved p) (ltb q.cache.max_size q.cache.total_size)
        (scavenge cfg classes fuel q) (some q) (ground (arith, scavenge-Conserved q silent))
        (silent, e)

  -- The cache's part of `deallocate`, before the tests.
  abbrev added : ℕ → ℕ → Process → Process
  added ptr cls p =
      let (words, l) = push ptr (p.middle.words, p.cache.lists cls) in
      put_total (usize (p.cache.total_size + class_to_size classes cls))
        (put_list cls l (record p { middle = record (p.middle) { words = words } }))

  deallocate-Conserved :
      (ptr cls : ℕ) (p : Process)
      → p.races ≡ []
      → Ensures (Conserved p) (deallocate cfg classes fuel ptr cls p)
  unfolding deallocate
  deallocate-Conserved ptr cls p quiet =
      let l = (push ptr (p.middle.words, p.cache.lists cls)).1 in
      let p1 = added ptr cls p in
      Ensures->>= (Conserved p)
        (if ltb l.max_length l.length then release_to_central cfg classes fuel cls p1 else some p1)
        _
        (Ensures-if (Same p) (ltb l.max_length l.length)
          (release_to_central cfg classes fuel cls p1) (some p1)
          (ground (arith, release_to_central-Same cls p1))
          (record { unclaimed = refl; races = refl; max_size = refl }))
        (λ q s. scavenge_if-Conserved p q quiet s)

  flush_and_destroy-Conserved :
      (p : Process)
      → p.races ≡ []
      → Ensures
          (λ q. (q.races ≡ []) × (q.unclaimed % 2 ^ 64 ≡ pool p) × (q.cache.max_size ≡ 0))
          (flush_and_destroy cfg classes fuel p)
  unfolding flush_and_destroy
  flush_and_destroy-Conserved p quiet =
      Ensures->>= _ (flush_from cfg classes fuel (num_size_classes classes - 1) 1 p) _
        (flush_from-Same (num_size_classes classes - 1) 1 p)
        (λ q s. ground (arith, s.races, quiet, s.unclaimed, s.max_size))

-- An operation of a thread's cache.
pub data Operation : Type 0 where
  allocating : ℕ → Operation
  deallocating : ℕ → ℕ → Operation

abbrev pub run : ResolvedConfig → List SizeClassInfo → ℕ → Operation → Process → Option Process
run cfg classes fuel (Operation.allocating cls) p = do
  (obj, q) ← allocate cfg classes fuel cls p
  some q
run cfg classes fuel (Operation.deallocating ptr cls) p = deallocate cfg classes fuel ptr cls p

abbrev pub run_all :
    ResolvedConfig → List SizeClassInfo → ℕ → List Operation → Process → Option Process
run_all cfg classes fuel [] p = some p
run_all cfg classes fuel (op ∷ ops) p = run cfg classes fuel op p >>= run_all cfg classes fuel ops

run-Conserved :
    (cfg : ResolvedConfig) (classes : List SizeClassInfo) (fuel : ℕ) (op : Operation) (p : Process)
    → p.races ≡ []
    → Ensures (Conserved cfg classes fuel p) (run cfg classes fuel op p)
run-Conserved cfg classes fuel (Operation.deallocating ptr cls) p quiet =
    deallocate-Conserved cfg classes fuel ptr cls p quiet
run-Conserved cfg classes fuel (Operation.allocating cls) p quiet =
    Ensures->>= (Conserved cfg classes fuel p) (allocate cfg classes fuel cls p) _
      (allocate-Same cfg classes fuel cls p) (λ r s. Same-Conserved cfg classes fuel p r.1 quiet s)

run_all-Conserved :
    (cfg : ResolvedConfig) (classes : List SizeClassInfo) (fuel : ℕ) (ops : List Operation)
    (p : Process)
    → p.races ≡ []
    → Ensures (Conserved cfg classes fuel p) (run_all cfg classes fuel ops p)
run_all-Conserved cfg classes fuel [] p quiet = (quiet, refl)
run_all-Conserved cfg classes fuel (op ∷ ops) p quiet =
    Ensures->>= (Conserved cfg classes fuel p) (run cfg classes fuel op p) _
      (run-Conserved cfg classes fuel op p quiet)
      (λ q c. ground (arith, c.1, run_all-Conserved cfg classes fuel ops q c.0))

-- A thread's cache from its start to its end, with the operations in between.
unfoldable pub lifetime :
    ResolvedConfig → List SizeClassInfo → ℕ → List Operation → Process → Option Process
unfolding init flush_and_destroy
lifetime cfg classes fuel ops p = do
  q ← run_all cfg classes fuel ops (init cfg classes fuel p)
  flush_and_destroy cfg classes fuel q

-- A cache that starts without a limit, does any operations that no failed assertion cuts short, and is
-- flushed at the end of its thread, gives back all of the budget it took, first and later: where no
-- other thread interferes, `UNCLAIMED_CACHE_SPACE` ends at its first value and the limit at 0.
pub lifetime-returns_budget :
    (cfg : ResolvedConfig) (classes : List SizeClassInfo) (fuel : ℕ) (ops : List Operation)
    (p q : Process)
    → p.cache.max_size ≡ 0
    → p.races ≡ []
    → p.unclaimed < 2 ^ 64
    → cfg.min_per_thread_cache < 2 ^ 64
    → lifetime cfg classes fuel ops p ≡ some q
    → (usize q.unclaimed ≡ p.unclaimed) × (q.cache.max_size ≡ 0)
unfolding lifetime
lifetime-returns_budget cfg classes fuel ops p q fresh quiet word small h =
    Ensures-some (λ r. (usize r.unclaimed ≡ p.unclaimed) × (r.cache.max_size ≡ 0))
      (lifetime cfg classes fuel ops p)
      (Ensures->>= (λ r. (usize r.unclaimed ≡ p.unclaimed) × (r.cache.max_size ≡ 0))
        (run_all cfg classes fuel ops (init cfg classes fuel p)) _
        (run_all-Conserved cfg classes fuel ops (init cfg classes fuel p) (unfold init in quiet))
        (λ r c. ground (arith, c.1, taken, flush_and_destroy-Conserved cfg classes fuel r c.0)))
      h
  where
    taken : pool (init cfg classes fuel p) ≡ p.unclaimed
    taken = unfold init in omega arith
