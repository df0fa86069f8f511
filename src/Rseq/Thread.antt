-- ===== src/Rseq/Thread.antt =====
-- rseq/src/thread.rs, syscall.rs and abi.rs with the feature `nightly`: how a thread gets its area.
-- Outside are the system call, which returns an `i64` kept as its 64 bits and may write the area, and
-- glibc: the value of `__rseq_size` where that symbol is linked, and the address of its area.
use rtmalloc.Base.{
  ℕ, ◌-◌, ◌^◌, Bool, true, false, not, ◌||◌, Option, none, some, ltb, ◌==◌, if◌then◌else◌,
}
use rtmalloc.Base.Rounding.{u32}
use rtmalloc.Span.{null}

abbrev pub flag_unregister : ℕ
flag_unregister = 1

abbrev pub sig : ℕ
sig = 0x53053053

abbrev pub cpu_id_uninitialized : ℕ
cpu_id_uninitialized = 2 ^ 32 - 1

abbrev pub cpu_id_registration_failed : ℕ
cpu_id_registration_failed = 2 ^ 32 - 2

abbrev pub min_size : ℕ
min_size = 32

-- -38 as an `i32`.
abbrev pub enosys : ℕ
enosys = 2 ^ 32 - 38

pub record Area : Type 0 where
  pub cpu_id_start : ℕ
  pub cpu_id : ℕ
  pub rseq_cs : ℕ
  pub flags : ℕ
  pub node_id : ℕ
  pub mm_cid : ℕ
  pub mm_numa_cid : ℕ

abbrev pub new_area : Area
new_area = record {
  cpu_id_start = 0;
  cpu_id = cpu_id_uninitialized;
  rseq_cs = 0;
  flags = 0;
  node_id = 0;
  mm_cid = 0;
  mm_numa_cid = 0;
}

-- What a thread finds: `LOCAL_RSEQ`, `THREAD_INITIALIZED` and glibc's area are the thread's own,
-- `RSEQ_UNAVAILABLE` is the process's.
pub record Thread : Type 0 where
  pub local : Area
  pub glibc_area : Area
  pub initialized : Bool
  pub unavailable : Bool

pub data RseqOwner : Type 0 where
  glibc : ℕ → RseqOwner
  self_managed : ℕ → RseqOwner
  unavailable : RseqOwner

pub data Registered : Type 0 where
  ok : Registered
  err : ℕ → Registered

-- What is outside: the address, the length, the flags and the signature lead to the return value and
-- the area.
pub record Platform : Type 0 where
  pub rseq_size : Option ℕ
  pub glibc_ptr : ℕ
  pub local_ptr : ℕ
  pub raw_rseq : ℕ → ℕ → ℕ → ℕ → Area → ℕ × Area

-- `if ret == 0 { Ok(()) } else { Err(ret as i32) }`.
abbrev pub answer : ℕ → Registered
answer ret = if ret == 0 then Registered.ok else Registered.err (u32 ret)

-- `(*ptr).cpu_id = RSEQ_CPU_ID_REGISTRATION_FAILED`.
abbrev pub mark_failed : Area → Area
mark_failed a = record a { cpu_id = cpu_id_registration_failed }

abbrev pub or_none : RseqOwner → Option ℕ
or_none (RseqOwner.glibc ptr) = some ptr
or_none (RseqOwner.self_managed ptr) = some ptr
or_none RseqOwner.unavailable = none

-- `Some(cpu)` unless the kernel has not set it.
abbrev pub valid_cpu : ℕ → Option ℕ
valid_cpu cpu =
    if cpu == cpu_id_uninitialized || cpu == cpu_id_registration_failed then none else some cpu

module _ (p : Platform) where
  unfoldable pub rseq_register : Area → Registered × Area
  rseq_register a = let (ret, a') = p.raw_rseq p.local_ptr min_size 0 sig a in (answer ret, a')

  unfoldable pub rseq_unregister : Area → Registered × Area
  rseq_unregister a =
      let (ret, a') = p.raw_rseq p.local_ptr min_size flag_unregister sig a in (answer ret, a')

  abbrev pub is_sized : Option ℕ → Bool
  is_sized none = false
  is_sized (some size) = ltb 0 size

  abbrev pub glibc_rseq_registered : Bool
  glibc_rseq_registered = is_sized p.rseq_size

  -- The end of `init_thread_rseq`, for what the registration answered.
  abbrev pub after_register : Thread → Registered × Area → RseqOwner × Thread
  after_register t (Registered.ok, a) =
      (RseqOwner.self_managed p.local_ptr, record t { local = a; initialized = true })
  after_register t (Registered.err e, a) = (
    RseqOwner.unavailable,
    record t {
      local = mark_failed a;
      initialized = true;
      unavailable = if e == enosys then true else t.unavailable;
    },
  )

  unfoldable pub init_thread_rseq : Thread → RseqOwner × Thread
  unfolding rseq_register
  init_thread_rseq t =
      if t.initialized
      then if glibc_rseq_registered
        then (RseqOwner.glibc p.glibc_ptr, t)
        else if not (t.local.cpu_id == cpu_id_registration_failed)
        then (RseqOwner.self_managed p.local_ptr, t)
        else (RseqOwner.unavailable, t)
      else if t.unavailable
      then (RseqOwner.unavailable, record t { initialized = true })
      else if glibc_rseq_registered
      then (RseqOwner.glibc p.glibc_ptr, record t { initialized = true })
      else after_register t (rseq_register t.local)

  abbrev pub rseq_available : Thread → Bool
  rseq_available t = not t.unavailable

  unfoldable pub current_rseq : Thread → Option ℕ × Thread
  unfolding init_thread_rseq
  current_rseq t = let (owner, t') = init_thread_rseq t in (or_none owner, t')

  -- What a pointer that `current_rseq` gave points at.
  abbrev pub area_at : ℕ → Thread → Area
  area_at ptr t = if ptr == p.local_ptr then t.local else t.glibc_area

  -- A field of the area, if there is one.
  abbrev pub read : (Area → Option ℕ) → Option ℕ × Thread → Option ℕ × Thread
  read field (none, t) = (none, t)
  read field (some ptr, t) = (field (area_at ptr t), t)

  unfoldable pub current_cpu : Thread → Option ℕ × Thread
  unfolding current_rseq
  current_cpu t = read (λ a. valid_cpu a.cpu_id) (current_rseq t)

  unfoldable pub current_numa_node : Thread → Option ℕ × Thread
  unfolding current_rseq
  current_numa_node t = read (λ a. some a.node_id) (current_rseq t)

  unfoldable pub current_mm_cid : Thread → Option ℕ × Thread
  unfolding current_rseq
  current_mm_cid t = read (λ a. some a.mm_cid) (current_rseq t)

  -- `RseqLocal`: the cached pointer, null before the first success.
  abbrev pub new_local : ℕ
  new_local = null

  abbrev cached : ℕ → Option ℕ × Thread → Option ℕ × ℕ × Thread
  cached old (none, t) = (none, old, t)
  cached old (some ptr, t) = (some ptr, ptr, t)

  unfoldable pub init_slow : ℕ → Thread → Option ℕ × ℕ × Thread
  unfolding current_rseq
  init_slow ptr t = cached ptr (current_rseq t)

  unfoldable pub get_ptr : ℕ → Thread → Option ℕ × ℕ × Thread
  unfolding init_slow
  get_ptr ptr t = if not (ptr == null) then (some ptr, ptr, t) else init_slow ptr t

  -- `cpu_id`, `numa_node` and `mm_cid` of the handle.
  abbrev read_through : (Area → Option ℕ) → Option ℕ × ℕ × Thread → Option ℕ × ℕ × Thread
  read_through field (none, ptr, t) = (none, ptr, t)
  read_through field (some at, ptr, t) = (field (area_at at t), ptr, t)

  unfoldable pub local_cpu_id : ℕ → Thread → Option ℕ × ℕ × Thread
  unfolding get_ptr
  local_cpu_id ptr t = read_through (λ a. valid_cpu a.cpu_id) (get_ptr ptr t)

  unfoldable pub local_numa_node : ℕ → Thread → Option ℕ × ℕ × Thread
  unfolding get_ptr
  local_numa_node ptr t = read_through (λ a. some a.node_id) (get_ptr ptr t)

  unfoldable pub local_mm_cid : ℕ → Thread → Option ℕ × ℕ × Thread
  unfolding get_ptr
  local_mm_cid ptr t = read_through (λ a. some a.mm_cid) (get_ptr ptr t)
