-- ===== src/PerCpu.antt =====
-- rseq/src/percpu.rs: for each CPU and size class a stack of pointers in one region of memory. The
-- headers and the slots of the region are functions from addresses. A critical section reads the CPU
-- it runs on, and the kernel restarts a thread that it preempts there at the abort handler: both are
-- arguments of `pop` and `push`. The assembly counts in 32-bit registers, which is the same as here
-- for every header that `init` wrote.
pub mod Headers
pub mod Layout
pub mod Stack
use rtmalloc.Base.{
  ℕ, zero, suc, ◌+◌, ◌-◌, ◌*◌, ◌/◌, ◌%◌, ◌^◌, Bool, true, false, not, List, [], ◌∷◌, ◌++◌, Option,
  none, some, ltb, leb, ◌==◌, if◌then◌else◌, update, min, take,
}
use rtmalloc.Base.Rounding.{usize, u16, u16_sub}
use rtmalloc.Span.{null}

pub record SlabHeader : Type 0 where
  pub current : ℕ
  pub end : ℕ

pub record Region : Type 0 where
  pub headers : ℕ → SlabHeader
  pub slots : ℕ → ℕ

pub record PerCpuSlab : Type 0 where
  pub slabs : ℕ
  pub shift : ℕ
  pub num_cpus : ℕ
  pub begins : ℕ → ℕ

abbrev pub empty : PerCpuSlab
empty = record { slabs = null; shift = 0; num_cpus = 0; begins = λ class. 0 }

-- `region.add((cpu as usize) << shift)`, a header and a slot of the region of a CPU.
abbrev pub region_base : ℕ → ℕ → ℕ → ℕ
region_base region shift cpu = usize (region + cpu * 2 ^ shift)

abbrev pub header_at : ℕ → ℕ → ℕ
header_at base class = base + class * 4

abbrev pub slot_at : ℕ → ℕ → ℕ
slot_at base i = base + i * 8

-- `(header_bytes + 7) & !7`, in units of a pointer.
abbrev pub data_start : ℕ → ℕ
data_start num_classes = (num_classes * 4 + 7) / 8

-- The loop over the classes from `class` on, for the rounds that are left: the offsets, and where
-- the next class would begin.
unfoldable pub place : (ℕ → ℕ) → ℕ → ℕ → ℕ → (ℕ → ℕ) → (ℕ → ℕ) × ℕ
place capacities zero class offset begins = (begins, offset)
place capacities (suc rounds) class offset begins =
    place capacities rounds (class + 1) (offset + capacities class)
      (update begins class (u16 offset))

-- The header of a class as `init` writes it.
abbrev pub fresh_header : (ℕ → ℕ) → (ℕ → ℕ) → ℕ → SlabHeader
fresh_header capacities begins class = record {
  current = begins class;
  end = u16 (begins class + capacities class);
}

unfoldable pub write_headers : (ℕ → ℕ) → (ℕ → ℕ) → ℕ → ℕ → ℕ → (ℕ → SlabHeader) → ℕ → SlabHeader
write_headers capacities begins base zero class headers = headers
write_headers capacities begins base (suc rounds) class headers =
    write_headers capacities begins base rounds (class + 1)
      (update headers (header_at base class) (fresh_header capacities begins class))

-- The loop over the CPUs.
unfoldable pub write_cpus :
    (ℕ → ℕ) → (ℕ → ℕ) → ℕ → ℕ → ℕ → ℕ → ℕ → (ℕ → SlabHeader) → ℕ → SlabHeader
unfolding write_headers
write_cpus capacities begins region shift num_classes zero cpu headers = headers
write_cpus capacities begins region shift num_classes (suc rounds) cpu headers =
    write_cpus capacities begins region shift num_classes rounds (cpu + 1)
      (write_headers capacities begins (region_base region shift cpu) num_classes 0 headers)

-- `PerCpuSlab::<NUM_CLASSES>::init`.
unfoldable pub init : ℕ → ℕ → ℕ → ℕ → (ℕ → ℕ) → PerCpuSlab × Region → Bool × PerCpuSlab × Region
unfolding place write_cpus
init num_classes region num_cpus shift capacities (s, r) =
    let (begins, offset) =
      place capacities (num_classes - 1) 1 (data_start num_classes) (update s.begins 0 0) in
    if ltb (2 ^ shift) (offset * 8) then (false, record s { begins = begins }, r) else (
      true,
      record { slabs = region; shift = shift; num_cpus = num_cpus; begins = begins },
      record r {
        headers = write_cpus capacities begins region shift num_classes num_cpus 0 r.headers;
      },
    )

abbrev pub is_initialized : PerCpuSlab → Bool
is_initialized s = not (s.slabs == null)

abbrev pub base_of : PerCpuSlab → ℕ → ℕ
base_of s cpu = region_base s.slabs s.shift cpu

abbrev pub header_of : PerCpuSlab → Region → ℕ → ℕ → SlabHeader
header_of s r cpu class = r.headers (header_at (base_of s cpu) class)

abbrev pub length : PerCpuSlab → Region → ℕ → ℕ → ℕ
length s r cpu class = u16_sub (header_of s r cpu class).current (s.begins class)

abbrev pub capacity : PerCpuSlab → Region → ℕ → ℕ → ℕ
capacity s r cpu class = u16_sub (header_of s r cpu class).end (s.begins class)

-- Whether the kernel aborts the critical section: not, before its first store, or between the store
-- of the pointer and the commit.
pub data Abort : Type 0 where
  never : Abort
  early : Abort
  late : Abort

abbrev pub commit : ℕ → ℕ → Region → Region
commit addr current r = record r {
  headers = update r.headers addr (record (r.headers addr) { current = current });
}

unfoldable pub pop : PerCpuSlab → ℕ → ℕ → Abort → Region → Option ℕ × Region
pop s cpu class abort r =
    let base = base_of s cpu in
    let current = (r.headers (header_at base class)).current in
    let next = u16_sub current 1 in
    if current == s.begins class then (none, r) else elim abort [
      | Abort.never ↦ (some (r.slots (slot_at base next)), commit (header_at base class) next r)
      | Abort.early ↦ (none, r)
      | Abort.late ↦ (none, r)
    ]

-- Whether the pointer was pushed.
unfoldable pub push : PerCpuSlab → ℕ → ℕ → ℕ → Abort → Region → Bool × Region
push s cpu class ptr abort r =
    let base = base_of s cpu in
    let header = r.headers (header_at base class) in
    let stored = record r { slots = update r.slots (slot_at base header.current) ptr } in
    if header.current == header.end then (false, r) else elim abort [
      | Abort.never ↦ (true, commit (header_at base class) (u16 (header.current + 1)) stored)
      | Abort.early ↦ (false, r)
      | Abort.late ↦ (false, stored)
    ]

-- The loops of the batches, with exclusive access to the CPU's region: the pointers read, and the
-- state after the pointers are written.
unfoldable pub pop_slots : PerCpuSlab → ℕ → ℕ → ℕ → Region → List ℕ × Region
pop_slots s cpu class zero r = ([], r)
pop_slots s cpu class (suc n) r =
    let base = base_of s cpu in
    let next = u16_sub (r.headers (header_at base class)).current 1 in
    let (out, r') = pop_slots s cpu class n (commit (header_at base class) next r) in
    (r.slots (slot_at base next) ∷ out, r')

unfoldable pub pop_batch : PerCpuSlab → ℕ → ℕ → ℕ → Region → List ℕ × Region
unfolding pop_slots
pop_batch s cpu class count r = pop_slots s cpu class (min count (length s r cpu class)) r

unfoldable pub push_slots : PerCpuSlab → ℕ → ℕ → List ℕ → Region → Region
push_slots s cpu class [] r = r
push_slots s cpu class (ptr ∷ ptrs) r =
    let base = base_of s cpu in
    let current = (r.headers (header_at base class)).current in
    push_slots s cpu class ptrs (
      commit (header_at base class) (u16 (current + 1))
        (record r { slots = update r.slots (slot_at base current) ptr }))

-- The number of pointers pushed, the first ones of `ptrs`.
unfoldable pub push_batch : PerCpuSlab → ℕ → ℕ → List ℕ → ℕ → Region → ℕ × Region
unfolding push_slots
push_batch s cpu class ptrs count r =
    let header = header_of s r cpu class in
    let n = min count (u16_sub header.end header.current) in
    (n, push_slots s cpu class (take n ptrs) r)
