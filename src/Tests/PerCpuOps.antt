-- ===== src/Tests/PerCpuOps.antt =====
-- Three additions on two CPUs, an exchange, and the area of a thread on a kernel without rseq.
use rtmalloc.Base.{◌+◌, ◌-◌, ◌^◌, ◌≡◌, refl, inr, true, false, List, [], ◌∷◌, none, some, arith}
use rtmalloc.Base.Rounding.{u64}
use rtmalloc.Rseq.{Cells}
use rtmalloc.Rseq.Counters.{Attempt, adds, sum_of, adds-sum_of}
use rtmalloc.Rseq.Registration.{current_rseq-current_rseq, current_rseq_unregistered}
use rtmalloc.Rseq.Thread.{
  Platform, Thread, new_area, current_rseq, mark_failed, cpu_id_uninitialized,
}

-- The second attempt is aborted.
abbrev three_adds : List Attempt
three_adds =
    record { cpu = 0; aborted = false; delta = 5 }
    ∷ record { cpu = 1; aborted = true; delta = 7 }
    ∷ record { cpu = 1; aborted = false; delta = 11 }
    ∷ []

abbrev zeroes : Cells
zeroes = λ cpu. 0

adds_total : (adds three_adds zeroes).0 ≡ 16
unfolding adds
adds_total = refl

adds-sum_of_example :
    let (added, cells) = adds three_adds zeroes in sum_of 2 cells ≡ u64 (sum_of 2 zeroes + added)
adds-sum_of_example = adds-sum_of 2 three_adds zeroes (omega arith)

-- A kernel that has no such system call, and no glibc.
abbrev old_kernel : Platform
old_kernel = record {
  rseq_size = none;
  glibc_ptr = 0;
  local_ptr = 4096;
  raw_rseq = λ ptr len flags sig a. (2 ^ 64 - 38, a);
}

abbrev new_thread : Thread
new_thread = record {
  local = new_area;
  glibc_area = new_area;
  initialized = false;
  unavailable = false;
}

refused_twice : current_rseq old_kernel new_thread ≡ (
  none,
  record new_thread { local = mark_failed new_area; initialized = true; unavailable = true },
)
unfolding current_rseq
refused_twice = refl

current_rseq-current_rseq_example :
    current_rseq old_kernel (current_rseq old_kernel new_thread).1
    ≡ current_rseq old_kernel new_thread
current_rseq-current_rseq_example =
    current_rseq-current_rseq old_kernel new_thread (λ ptr len flags sig a e. absurd (omega arith))
      (inr refl)

-- The next thread of that process.
abbrev later_thread : Thread
later_thread = record new_thread { unavailable = true }

current_rseq_unregistered_example :
    let (first, t1) = current_rseq old_kernel later_thread in
    let (second, t2) = current_rseq old_kernel t1 in
    (first ≡ none)
    × (second ≡ some 4096)
    × (t2.local.cpu_id ≡ cpu_id_uninitialized)
    × (t2.unavailable ≡ true)
current_rseq_unregistered_example =
    current_rseq_unregistered old_kernel later_thread refl refl refl refl
