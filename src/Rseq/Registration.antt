-- ===== src/Rseq/Registration.antt =====
-- rseq/src/thread.rs: a second request for the thread's area, after the first one.
use rtmalloc.Base.{ℕ, ◌≡◌, ap, ◌≢◌, ◌⊎◌, true, false, arith, none, some}
use rtmalloc.Rseq.Thread.{
  Platform, Thread, Area, new_area, cpu_id_registration_failed, cpu_id_uninitialized, min_size, sig,
  current_rseq, glibc_rseq_registered,
}

-- The kernel writes the number of a CPU into an area that it registers.
abbrev pub SetsCpu : Platform → Type 0
SetsCpu p =
    (ptr len flags sig : ℕ) (a : Area)
    → (p.raw_rseq ptr len flags sig a).0 ≡ 0
    → (p.raw_rseq ptr len flags sig a).1.cpu_id ≢ cpu_id_registration_failed

module _ (p : Platform) where
  -- On a kernel that never sets the CPU number of an area it registers to the mark of a failure: a
  -- thread that has asked before, or that asks while the process has not given up on the kernel,
  -- gets the same answer when it asks again, and nothing changes then.
  pub current_rseq-current_rseq :
      (t : Thread)
      → SetsCpu p
      → (t.initialized ≡ true) ⊎ (t.unavailable ≡ false)
      → current_rseq p (current_rseq p t).1 ≡ current_rseq p t
  unfolding current_rseq
  current_rseq-current_rseq t sets asked = ground (arith, sets p.local_ptr min_size 0 sig t.local)

  -- A new thread that asks after the process has given up on the kernel, without glibc, gets nothing
  -- the first time. The second time it gets the area that was never registered, whose CPU number is
  -- the 2^32 - 1 that stands for none.
  pub current_rseq_unregistered :
      (t : Thread)
      → t.local ≡ new_area
      → t.initialized ≡ false
      → t.unavailable ≡ true
      → glibc_rseq_registered p ≡ false
      → let (first, t1) = current_rseq p t in
        let (second, t2) = current_rseq p t1 in
        (first ≡ none)
        × (second ≡ some p.local_ptr)
        × (t2.local.cpu_id ≡ cpu_id_uninitialized)
        × (t2.unavailable ≡ true)
  unfolding current_rseq
  current_rseq_unregistered t fresh first gone no_glibc =
      ground (arith, ap (λ (a : Area). a.cpu_id) fresh)
