-- ===== src/CpuCache/Front.antt =====
-- src/cpu_cache.rs: draining, and the allocation and the return of an object.
use rtmalloc.Base.{
  ℕ, zero, suc, ◌+◌, Bool, true, false, ◌&&◌, ◌||◌, List, Option, none, some, ltb, ◌==◌,
  if◌then◌else◌, ◌>>=◌, update, not,
}
use rtmalloc.Build.{ResolvedConfig}
use rtmalloc.CpuCache.{
  Cpus, pop_twice, push_twice, ensure_init, alloc_from_central, dealloc_to_central, refill,
}
use rtmalloc.PerCpu.{is_initialized}
use rtmalloc.SizeClass.{SizeClassInfo, class_info}
use rtmalloc.Span.{null}
use rtmalloc.TransferCache.{insert_range}

-- The list that `drain` builds.
pub record Drained : Type 0 where
  pub head : ℕ
  pub tail : ℕ
  pub count : ℕ
  pub state : Cpus

-- A pointer that was popped goes in front.
abbrev pub drained : ℕ → Drained → Cpus → Drained
drained ptr d s = record {
  head = ptr;
  tail = if d.tail == null then ptr else d.tail;
  count = d.count + 1;
  state = record s { middle = record (s.middle) { words = update s.middle.words ptr d.head } };
}

-- The loop over the batch size, for the rounds that are left.
unfoldable pub drain_rounds : ℕ → ℕ → Drained → Drained
unfolding pop_twice
drain_rounds zero class d = d
drain_rounds (suc rounds) class d =
    let (got, s) = pop_twice class d.state in
    elim got [
      | some ptr ↦ drain_rounds rounds class (drained ptr d s)
      | none ↦ record d { state = s }
    ]

-- What two attempts got, or what the state after them leads to.
abbrev pub or_else : Option ℕ × Cpus → (Cpus → Option (ℕ × Cpus)) → Option (ℕ × Cpus)
or_else (none, s) next = next s
or_else (some ptr, s) next = some (ptr, s)

abbrev pub unless_done : Bool × Cpus → (Cpus → Option Cpus) → Option Cpus
unless_done (true, s) next = some s
unless_done (false, s) next = next s

module _ (cfg : ResolvedConfig) (classes : List SizeClassInfo) (fuel : ℕ) (sysconf : ℕ)
    (registers : Bool) where
  unfoldable pub drain : ℕ → Cpus → Option Cpus
  unfolding drain_rounds
  drain class s =
      let d =
        drain_rounds (class_info classes class).batch_size class
          (record { head = null; tail = null; count = 0; state = s }) in
      let m = d.state.middle in
      let given = (do
        m' ←
            insert_range cfg classes fuel class d.head d.tail d.count
              (record m { words = update m.words d.tail null })
        some (record (d.state) { middle = m' })) in
      if ltb 0 d.count && not (d.head == null) then given else some d.state

  unfoldable pub alloc_refill : ℕ → Cpus → Option (ℕ × Cpus)
  unfolding alloc_from_central
  alloc_refill class s = do
    s1 ← refill cfg classes fuel sysconf registers class s
    or_else (pop_twice class s1) (alloc_from_central cfg classes fuel sysconf registers class)

  unfoldable pub alloc_init : ℕ → Cpus → Option (ℕ × Cpus)
  unfolding alloc_refill ensure_init
  alloc_init class s =
      let s1 = ensure_init cfg classes fuel sysconf registers s in
      if not (is_initialized s1.slab) || not registers
      then alloc_from_central cfg classes fuel sysconf registers class s1
      else or_else (pop_twice class (record s1 { cached_rseq = true })) (alloc_refill class)

  unfoldable pub alloc : ℕ → Cpus → Option (ℕ × Cpus)
  unfolding alloc_init alloc_refill
  alloc class s =
      if s.cached_rseq then or_else (pop_twice class s) (alloc_refill class) else alloc_init class s

  unfoldable pub dealloc_drain : ℕ → ℕ → Cpus → Option Cpus
  unfolding drain dealloc_to_central
  dealloc_drain ptr class s = do
    s1 ← drain class s
    unless_done (push_twice class ptr s1)
        (dealloc_to_central cfg classes fuel sysconf registers ptr class)

  unfoldable pub dealloc_init : ℕ → ℕ → Cpus → Option Cpus
  unfolding dealloc_drain ensure_init
  dealloc_init ptr class s =
      let s1 = ensure_init cfg classes fuel sysconf registers s in
      if not (is_initialized s1.slab) || not registers
      then dealloc_to_central cfg classes fuel sysconf registers ptr class s1
      else unless_done (push_twice class ptr (record s1 { cached_rseq = true }))
          (dealloc_drain ptr class)

  unfoldable pub dealloc : ℕ → ℕ → Cpus → Option Cpus
  unfolding dealloc_init dealloc_drain
  dealloc ptr class s =
      if s.cached_rseq
      then unless_done (push_twice class ptr s) (dealloc_drain ptr class)
      else dealloc_init ptr class s
