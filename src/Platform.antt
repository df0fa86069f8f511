-- ===== src/Platform.antt =====
-- src/platform.rs on Unix, src/platform/unix.rs: pages from `mmap`, trimmed to the page size of the
-- configuration. The kernel is outside: what `mmap` answers to the calls to come is a list, and
-- what is given back by `munmap` and `madvise` is recorded.
pub mod Trim
use rtmalloc.Base.{ℕ, ◌+◌, ◌-◌, ◌%◌, ◌^◌, List, [], ◌∷◌, ltb, ◌==◌, if◌then◌else◌}
use rtmalloc.Base.Rounding.{usize, usize_sub, align_up}

pub record Os : Type 0 where
  pub answers : List ℕ  -- the addresses that `mmap` will return, one to a call
  pub mapped : List ℕ  -- the lengths that `mmap` was asked for, the last first
  pub unmapped : List (ℕ × ℕ)  -- address and length of what `munmap` was given, the last first
  pub unneeded : List (ℕ × ℕ)  -- the same of `madvise` with `MADV_DONTNEED`

-- `MAP_FAILED`.
abbrev pub map_failed : ℕ
map_failed = 2 ^ 64 - 1

-- A system with no answer left refuses.
abbrev pub mmap : ℕ → Os → ℕ × Os
mmap length os =
    let asked = length ∷ os.mapped in
    elim (os.answers) [
      | [] ↦ (map_failed, record os { mapped = asked })
      | raw ∷ rest ↦ (raw, record os { answers = rest; mapped = asked })
    ]

abbrev pub munmap : ℕ → ℕ → Os → Os
munmap addr len os = record os { unmapped = (addr, len) ∷ os.unmapped }

-- `if len > 0 { munmap(addr, len) }`.
unfoldable pub trim : ℕ → ℕ → Os → Os
trim addr len os = if ltb 0 len then munmap addr len os else os

-- Null where `mmap` fails; else the first aligned address, with the rest of the mapping given back.
unfoldable pub page_alloc : ℕ → ℕ → Os → ℕ × Os
page_alloc page_size size os =
    let (raw, os1) = mmap (usize (size + page_size)) os in
    if raw == map_failed
    then (0, os1)
    else let aligned = align_up raw page_size in
      let lead = usize_sub aligned raw in
      let trail = usize_sub (usize (raw + size + page_size)) (usize (aligned + size)) in
      (aligned, trim (usize (aligned + size)) trail (trim raw lead os1))

abbrev pub page_dealloc : ℕ → ℕ → Os → Os
page_dealloc ptr size os = munmap ptr size os

abbrev pub page_decommit : ℕ → ℕ → Os → Os
page_decommit ptr size os = record os { unneeded = (ptr, size) ∷ os.unneeded }

-- Nothing to do on Unix.
abbrev pub page_recommit : ℕ → ℕ → Os → Os
page_recommit ptr size os = os
