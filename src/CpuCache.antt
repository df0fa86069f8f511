-- ===== src/CpuCache.antt =====
-- src/cpu_cache.rs: the cache of the feature `percpu`, over the per-CPU slab and the shared transfer
-- caches. The CPU that each critical section runs on and the kernel's interruption of it come from the
-- list `turns`, one to an attempt; past its end a section runs on CPU 0 to its end. Outside are
-- `sysconf`, whose answer is an `isize` kept as its 64 bits, and the registration of the thread with
-- the kernel (`rseq::current_rseq`), which is whether it succeeds.
pub mod Front
pub mod RoundTrip
use rtmalloc.Base.{
  ℕ, zero, suc, ◌+◌, ◌-◌, ◌*◌, ◌%◌, ◌^◌, Bool, true, false, not, ◌||◌, List, [], ◌∷◌, Option, none,
  some, ltb, leb, ◌==◌, if◌then◌else◌, ◌>>=◌, update,
}
use rtmalloc.Base.Rounding.{usize, u32, u16}
use rtmalloc.Build.{ResolvedConfig}
use rtmalloc.PerCpu
use rtmalloc.PerCpu.{PerCpuSlab, Region, Abort}
use rtmalloc.Platform.{page_alloc, page_dealloc}
use rtmalloc.SizeClass.{SizeClassInfo, class_info, num_size_classes}
use rtmalloc.Span.{null}
use rtmalloc.TransferCache.{Middle, remove_range, insert_range}

-- `SHIFT`.
abbrev pub slab_shift : ℕ
slab_shift = 18

pub record Cpus : Type 0 where
  pub slab : PerCpuSlab
  pub region : Region
  pub slab_region : ℕ
  pub cached_rseq : Bool
  pub middle : Middle
  pub turns : List (ℕ × Abort)

-- The next turn, and the rest.
abbrev pub turn : List (ℕ × Abort) → (ℕ × Abort) × List (ℕ × Abort)
turn [] = ((0, Abort.never), [])
turn (t ∷ ts) = (t, ts)

-- `CPU_SLAB.get().pop(rseq_ptr, class)` and `push`.
unfoldable pub try_pop : ℕ → Cpus → Option ℕ × Cpus
try_pop class s =
    let ((cpu, abort), turns) = turn s.turns in
    let (got, region) = PerCpu.pop s.slab cpu class abort s.region in
    (got, record s { region = region; turns = turns })

unfoldable pub try_push : ℕ → ℕ → Cpus → Bool × Cpus
try_push class ptr s =
    let ((cpu, abort), turns) = turn s.turns in
    let (done, region) = PerCpu.push s.slab cpu class ptr abort s.region in
    (done, record s { region = region; turns = turns })

-- An attempt, and another one if it fails.
unfoldable pub pop_twice : ℕ → Cpus → Option ℕ × Cpus
unfolding try_pop
pop_twice class s =
    let (got, s1) = try_pop class s in
    elim got [ some ptr ↦ (some ptr, s1) | none ↦ try_pop class s1 ]

unfoldable pub push_twice : ℕ → ℕ → Cpus → Bool × Cpus
unfolding try_push
push_twice class ptr s =
    let (done, s1) = try_push class ptr s in if done then (true, s1) else try_push class ptr s1

-- The attempts of `refill`, for the ones that are left of four.
unfoldable pub push_tries : ℕ → ℕ → ℕ → Cpus → Bool × Cpus
unfolding try_push
push_tries zero class ptr s = (false, s)
push_tries (suc tries) class ptr s =
    let (done, s1) = try_push class ptr s in
    let rest = push_tries tries class ptr s1 in if done then (true, s1) else rest

module _ (cfg : ResolvedConfig) (classes : List SizeClassInfo) (fuel : ℕ) (sysconf : ℕ)
    (registers : Bool) where
  -- `if num_cpus <= 0 { 1 } else { num_cpus as u32 }`.
  abbrev pub cpus_of : ℕ
  cpus_of = if sysconf == 0 || leb (2 ^ 63) sysconf then 1 else u32 sysconf

  abbrev pub capacities : ℕ → ℕ
  capacities class = if class == 0 then 0 else u16 (class_info classes class).batch_size

  -- The memory of the OS is that of the page heap below.
  unfoldable pub init_slow : Cpus → Cpus
  init_slow s =
      let region_size = usize (cpus_of * 2 ^ slab_shift) in
      let heap = s.middle.heap in
      let (region, os) = page_alloc cfg.page_size region_size heap.os in
      let s1 = record s {
        middle = record (s.middle) {
          heap = record heap { slabs = record (heap.slabs) { os = os } };
        };
      } in
      let (ok, slab, memory) =
        PerCpu.init (num_size_classes classes) region cpus_of slab_shift capacities
          (s1.slab, s1.region) in
      let returned = record s1 {
        slab = slab;
        middle = record (s1.middle) {
          heap = record heap {
            slabs = record (heap.slabs) { os = page_dealloc region region_size os };
          };
        };
      } in
      if not (s.slab_region == null)
      then s
      else if region == null
      then s1
      else if ok
      then record s1 { slab = slab; region = memory; slab_region = region }
      else returned

  unfoldable pub ensure_init : Cpus → Cpus
  unfolding init_slow
  ensure_init s = if s.slab_region == null then init_slow s else s

  abbrev pub with_middle : Cpus → Middle → Cpus
  with_middle s m = record s { middle = m }

  unfoldable pub alloc_from_central : ℕ → Cpus → Option (ℕ × Cpus)
  alloc_from_central class s = do
    (count, head, m) ← remove_range cfg classes fuel class 1 s.middle
    some (if count == 0 || head == null then null else head, with_middle s m)

  unfoldable pub dealloc_to_central : ℕ → ℕ → Cpus → Option Cpus
  dealloc_to_central ptr class s = do
    m ←
        insert_range cfg classes fuel class ptr ptr 1
          (record (s.middle) { words = update s.middle.words ptr null })
    some (with_middle s m)

  -- `while !walk.is_null()`, on fuel: the last object from `walk` on, or `tail`.
  unfoldable pub last_object : ℕ → (ℕ → ℕ) → ℕ → ℕ → Option ℕ
  last_object zero words tail walk = none
  last_object (suc rounds) words tail walk =
      let rest = last_object rounds words walk (words walk) in
      if walk == null then some tail else rest

  -- The objects from `node` on that did not fit, back to the transfer cache.
  unfoldable pub give_rest : ℕ → ℕ → ℕ → Cpus → Option Cpus
  unfolding last_object
  give_rest class node remaining s = do
    let words = s.middle.words
    tail ← last_object fuel words node (words node)
    m ← insert_range cfg classes fuel class node tail remaining s.middle
    some (with_middle s m)

  -- The loop of `refill`, for the objects that are left of the batch.
  unfoldable pub push_objects : ℕ → ℕ → ℕ → Cpus → Option Cpus
  unfolding push_tries give_rest
  push_objects class zero node s = some s
  push_objects class (suc left) node s =
      let next = s.middle.words node in
      let (done, s1) = push_tries 4 class node s in
      let rest = push_objects class left next s1 in
      if node == null then some s else if done then rest else give_rest class node (suc left) s1

  unfoldable pub refill : ℕ → Cpus → Option Cpus
  unfolding push_objects
  refill class s = do
    (count, head, m) ←
        remove_range cfg classes fuel class (class_info classes class).batch_size s.middle
    let s1 = with_middle s m
    let filled = push_objects class count head s1
    if count == 0 || head == null then some s1 else filled
