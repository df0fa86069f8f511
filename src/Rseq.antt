-- ===== src/Rseq.antt =====
-- rseq/src/ops.rs: operations on an array with one `u64` for each CPU, as restartable sequences. The
-- array is a function from CPUs. Each operation is one step with the CPU that it runs on and whether
-- the kernel aborts it as arguments: the only store is its last instruction, so that an abort comes
-- before it.
pub mod Counters
pub mod Thread
pub mod Registration
use rtmalloc.Base.{
  ℕ, ◌+◌, ◌%◌, ◌^◌, Bool, List, [], ◌∷◌, Option, none, some, ◌==◌, if◌then◌else◌, update,
}
use rtmalloc.Base.Rounding.{u64}

abbrev pub Cells : Type 0
Cells = ℕ → ℕ

-- The CPU and the value.
abbrev pub percpu_load : ℕ → Bool → Cells → Option (ℕ × ℕ)
percpu_load cpu aborted cells = if aborted then none else some (cpu, cells cpu)

unfoldable pub percpu_store : ℕ → Bool → ℕ → Cells → Option ℕ × Cells
percpu_store cpu aborted value cells =
    if aborted then (none, cells) else (some cpu, update cells cpu value)

unfoldable pub percpu_add : ℕ → Bool → ℕ → Cells → Option ℕ × Cells
percpu_add cpu aborted delta cells =
    if aborted then (none, cells) else (some cpu, update cells cpu (u64 (cells cpu + delta)))

-- `Result<(u32, u64), u64>`.
pub data Exchanged : Type 0 where
  ok : ℕ → ℕ → Exchanged
  err : ℕ → Exchanged

unfoldable pub percpu_cmpxchg : ℕ → Bool → ℕ → ℕ → Cells → Exchanged × Cells
percpu_cmpxchg cpu aborted expected new cells =
    let old = cells cpu in
    if aborted
    then (Exchanged.err expected, cells)
    else if old == expected
    then (Exchanged.ok cpu old, update cells cpu new)
    else (Exchanged.err old, cells)
