-- ===== src/PerCpu/Headers.antt =====
-- rseq/src/percpu.rs: the headers that the loops of `init` write.
use mathlib.Core.Path.{subst}
use native.Mathlib.Nat.{one-le-pow}
use rtmalloc.Base.{
  ℕ, zero, suc, ◌+◌, ◌*◌, ◌^◌, ◌≤◌, ◌<◌, ◌≡◌, refl, ◌≢◌, ◌∙◌, ◌⊎◌, inl, inr, arith, update_self,
  update_ne,
}
use rtmalloc.PerCpu.{SlabHeader, region_base, header_at, fresh_header, write_headers, write_cpus}

module _ (capacities begins : ℕ → ℕ) where
  write_headers-outside :
      (base rounds class : ℕ) (headers : ℕ → SlabHeader) (a : ℕ)
      → (a < header_at base class) ⊎ (header_at base (class + rounds) ≤ a)
      → write_headers capacities begins base rounds class headers a ≡ headers a
  unfolding write_headers
  write_headers-outside base zero class headers a out = refl
  write_headers-outside base (suc rounds) class headers a out =
      write_headers-outside base rounds (class + 1) _ a (later out)
      ∙ update_ne headers (header_at base class) (fresh_header capacities begins class) a
          (other out)
    where
      later :
          (a < header_at base class) ⊎ (header_at base (class + suc rounds) ≤ a)
          → (a < header_at base (class + 1)) ⊎ (header_at base (class + 1 + rounds) ≤ a)
      later (inl lt) = inl (omega arith)
      later (inr le) = inr (omega arith)

      other :
          (a < header_at base class) ⊎ (header_at base (class + suc rounds) ≤ a)
          → a ≢ header_at base class
      other (inl lt) e = absurd (omega arith)
      other (inr le) e = absurd (omega arith)

  write_headers-inside :
      (base rounds class k : ℕ) (headers : ℕ → SlabHeader)
      → k < rounds
      → write_headers capacities begins base rounds class headers (header_at base (class + k))
        ≡ fresh_header capacities begins (class + k)
  unfolding write_headers
  write_headers-inside base zero class k headers lt = absurd (omega arith)
  write_headers-inside base (suc rounds) class zero headers lt =
      subst
        (λ c.
          write_headers capacities begins base (suc rounds) class headers (header_at base c)
          ≡ fresh_header capacities begins c)
        (omega arith)
        (write_headers-outside base rounds (class + 1) _ (header_at base class) (inl (omega arith))
          ∙ update_self headers (header_at base class) (fresh_header capacities begins class))
  write_headers-inside base (suc rounds) class (suc k) headers lt =
      subst
        (λ c.
          write_headers capacities begins base (suc rounds) class headers (header_at base c)
          ≡ fresh_header capacities begins c)
        (omega arith) (write_headers-inside base rounds (class + 1) k _ (omega arith))

  module _ (region shift num_classes : ℕ) (fits : num_classes * 4 ≤ 2 ^ shift) where
    some_bytes : 0 < 2 ^ shift
    some_bytes = one-le-pow shift 2 (omega arith)

    -- The regions of the CPUs lie within the address space.
    base-exact :
        (cpu rounds : ℕ)
        → region + (cpu + suc rounds) * 2 ^ shift ≤ 2 ^ 64
        → region_base region shift cpu ≡ region + cpu * 2 ^ shift
    base-exact cpu rounds room = omega (arith, some_bytes)

    next_room :
        (cpu rounds : ℕ)
        → region + (cpu + suc rounds) * 2 ^ shift ≤ 2 ^ 64
        → region + (cpu + 1 + rounds) * 2 ^ shift ≤ 2 ^ 64
    next_room cpu rounds room = omega arith

    write_cpus-below :
        (rounds cpu : ℕ) (headers : ℕ → SlabHeader) (a : ℕ)
        → region + (cpu + rounds) * 2 ^ shift ≤ 2 ^ 64
        → a < region + cpu * 2 ^ shift
        → write_cpus capacities begins region shift num_classes rounds cpu headers a ≡ headers a
    unfolding write_cpus
    write_cpus-below zero cpu headers a room lt = refl
    write_cpus-below (suc rounds) cpu headers a room lt =
        write_cpus-below rounds (cpu + 1) _ a (next_room cpu rounds room) (omega arith)
        ∙ write_headers-outside (region_base region shift cpu) num_classes 0 headers a
            (inl (omega (arith, base-exact cpu rounds room)))

    -- The CPU `cpu + k` of the `rounds` to write.
    write_cpus-inside :
        (rounds cpu k class : ℕ) (headers : ℕ → SlabHeader)
        → region + (cpu + rounds) * 2 ^ shift ≤ 2 ^ 64
        → k < rounds
        → class < num_classes
        → write_cpus capacities begins region shift num_classes rounds cpu headers
            (header_at (region_base region shift (cpu + k)) class)
          ≡ fresh_header capacities begins class
    unfolding write_cpus
    write_cpus-inside zero cpu k class headers room lt small = absurd (omega arith)
    write_cpus-inside (suc rounds) cpu zero class headers room lt small =
        let base = region_base region shift cpu in
        let exact : base ≡ region + cpu * 2 ^ shift = base-exact cpu rounds room in
        let inside : header_at base class < region + (cpu + 1) * 2 ^ shift = omega (arith, exact) in
        subst
          (λ c.
            write_cpus capacities begins region shift num_classes (suc rounds) cpu headers
              (header_at (region_base region shift c) class)
            ≡ fresh_header capacities begins class)
          (omega arith)
          (write_cpus-below rounds (cpu + 1) _ (header_at base class) (next_room cpu rounds room)
              inside
            ∙ subst
                (λ c.
                  write_headers capacities begins base num_classes 0 headers (header_at base c)
                  ≡ fresh_header capacities begins c)
                (omega arith) (write_headers-inside base num_classes 0 class headers small))
    write_cpus-inside (suc rounds) cpu (suc k) class headers room lt small =
        subst
          (λ c.
            write_cpus capacities begins region shift num_classes (suc rounds) cpu headers
              (header_at (region_base region shift c) class)
            ≡ fresh_header capacities begins class)
          (omega arith)
          (write_cpus-inside rounds (cpu + 1) k class _ (next_room cpu rounds room) (omega arith)
            small)

    pub write_cpus-all :
        (num_cpus cpu class : ℕ) (headers : ℕ → SlabHeader)
        → region + num_cpus * 2 ^ shift ≤ 2 ^ 64
        → cpu < num_cpus
        → class < num_classes
        → write_cpus capacities begins region shift num_classes num_cpus 0 headers
            (header_at (region_base region shift cpu) class)
          ≡ fresh_header capacities begins class
    write_cpus-all num_cpus cpu class headers room lt small =
        subst
          (λ c.
            write_cpus capacities begins region shift num_classes num_cpus 0 headers
              (header_at (region_base region shift c) class)
            ≡ fresh_header capacities begins class)
          (omega arith) (write_cpus-inside num_cpus 0 cpu class headers (omega arith) lt small)
