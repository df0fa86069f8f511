-- ===== src/PerCpu/Layout.antt =====
-- rseq/src/percpu.rs: where `init` puts the stacks of the classes.
use mathlib.Core.Path.{subst}
use native.Mathlib.Nat.{pow-le-pow_right}
use rtmalloc.Base.{
  ℕ, zero, suc, ◌+◌, ◌-◌, ◌*◌, ◌^◌, ◌≤◌, ◌<◌, ◌≡◌, refl, sym, ap, ◌∙◌, Bool, true, false, arith,
  ltb, if_false, update, update_self, update_ne,
}
use rtmalloc.Base.Rounding.{u16}
use rtmalloc.PerCpu.Headers.{write_cpus-all}
use rtmalloc.PerCpu.{Region, PerCpuSlab, data_start, place, fresh_header, init, header_of}

-- The number of slots of the `n` classes from `class` on.
unfoldable pub total : (ℕ → ℕ) → ℕ → ℕ → ℕ
total capacities class zero = 0
total capacities class (suc n) = capacities class + total capacities (class + 1) n

place-end :
    (capacities : ℕ → ℕ) (rounds class offset : ℕ) (begins : ℕ → ℕ)
    → (place capacities rounds class offset begins).1 ≡ offset + total capacities class rounds
unfolding place total
place-end capacities zero class offset begins = omega arith
place-end capacities (suc rounds) class offset begins = omega (
  arith,
  place-end capacities rounds (class + 1) (offset + capacities class)
      (update begins class (u16 offset)),
)

place-below :
    (capacities : ℕ → ℕ) (rounds class offset : ℕ) (begins : ℕ → ℕ) (d : ℕ)
    → d < class
    → (place capacities rounds class offset begins).0 d ≡ begins d
unfolding place
place-below capacities zero class offset begins d lt = refl
place-below capacities (suc rounds) class offset begins d lt =
    place-below capacities rounds (class + 1) (offset + capacities class)
      (update begins class (u16 offset)) d (omega arith)
    ∙ update_ne begins class (u16 offset) d (λ e. absurd (omega arith))

place-begins :
    (capacities : ℕ → ℕ) (rounds class offset : ℕ) (begins : ℕ → ℕ) (k : ℕ)
    → k < rounds
    → (place capacities rounds class offset begins).0 (class + k)
      ≡ u16 (offset + total capacities class k)
unfolding place total
place-begins capacities zero class offset begins k lt = absurd (omega arith)
place-begins capacities (suc rounds) class offset begins zero lt =
    let rest =
      place capacities rounds (class + 1) (offset + capacities class)
        (update begins class (u16 offset)) in
    ap rest.0 (omega arith)
    ∙ place-below capacities rounds (class + 1) (offset + capacities class)
        (update begins class (u16 offset)) class (omega arith)
    ∙ update_self begins class (u16 offset)
    ∙ (omega arith)
place-begins capacities (suc rounds) class offset begins (suc k) lt =
    let rest =
      place capacities rounds (class + 1) (offset + capacities class)
        (update begins class (u16 offset)) in
    ap rest.0 (omega arith)
    ∙ place-begins capacities rounds (class + 1) (offset + capacities class)
        (update begins class (u16 offset)) k (omega arith)
    ∙ (omega arith)

total-le :
    (capacities : ℕ → ℕ) (class k n : ℕ)
    → k < n
    → total capacities class k + capacities (class + k) ≤ total capacities class n
unfolding total
total-le capacities class k zero lt = absurd (omega arith)
total-le capacities class zero (suc n) lt =
    let here : capacities (class + 0) ≡ capacities class = ap capacities (omega arith) in
    omega (arith, here)
total-le capacities class (suc k) (suc n) lt =
    let here : capacities (class + suc k) ≡ capacities (class + 1 + k) =
      ap capacities (omega arith) in
    omega (arith, here, total-le capacities (class + 1) k n (omega arith))

total-suc :
    (capacities : ℕ → ℕ) (class k : ℕ)
    → total capacities class (suc k) ≡ total capacities class k + capacities (class + k)
unfolding total
total-suc capacities class zero =
    let here : capacities (class + 0) ≡ capacities class = ap capacities (omega arith) in
    omega (arith, here)
total-suc capacities class (suc k) =
    let here : capacities (class + suc k) ≡ capacities (class + 1 + k) =
      ap capacities (omega arith) in
    omega (arith, here, total-suc capacities (class + 1) k)

-- The stacks of the classes stand behind the headers, one behind the other, within the region of a
-- CPU, and on every CPU each is empty and has its capacity.
pub record IsLaidOut (num_classes num_cpus : ℕ) (capacities : ℕ → ℕ) (s : PerCpuSlab) (r : Region)
    : Type 0 where
  pub behind : (c : ℕ) → 0 < c → c < num_classes → num_classes * 4 ≤ s.begins c * 8
  pub apart : (c d : ℕ) → 0 < c → c < d → d < num_classes → s.begins c + capacities c ≤ s.begins d
  pub within : (c : ℕ) → 0 < c → c < num_classes → (s.begins c + capacities c) * 8 ≤ 2 ^ s.shift
  pub empties :
      (cpu c : ℕ)
      → cpu < num_cpus
      → 0 < c
      → c < num_classes
      → header_of s r cpu c ≡ record { current = s.begins c; end = s.begins c + capacities c }

module _ (num_classes shift : ℕ) (capacities begins0 : ℕ → ℕ) (some_class : 0 < num_classes)
    (small : shift ≤ 18)
    (fits : (data_start num_classes + total capacities 1 (num_classes - 1)) * 8 ≤ 2 ^ shift) where
  begins_of : ℕ → ℕ
  begins_of = (place capacities (num_classes - 1) 1 (data_start num_classes) begins0).0

  region_bytes : 2 ^ shift ≤ 2 ^ 18
  region_bytes = pow-le-pow_right (omega arith) small

  -- No offset is cut off.
  begins-exact :
      (c : ℕ)
      → 0 < c
      → c < num_classes
      → begins_of c ≡ data_start num_classes + total capacities 1 (c - 1)
  unfolding begins_of
  begins-exact c pos lt =
      ap begins_of (omega arith)
      ∙ place-begins capacities (num_classes - 1) 1 (data_start num_classes) begins0 (c - 1)
          (omega arith)
      ∙ (omega (arith, total-le capacities 1 (c - 1) (num_classes - 1), region_bytes))

  same_class : (c : ℕ) → 0 < c → capacities (1 + (c - 1)) ≡ capacities c
  same_class c pos = ap capacities (omega arith)

  begins_of-apart :
      (c d : ℕ) → 0 < c → c < d → d < num_classes → begins_of c + capacities c ≤ begins_of d
  begins_of-apart c d pos lt below = omega (
    arith,
    begins-exact c pos (omega arith),
    begins-exact d (omega arith) below,
    same_class c pos,
    total-le capacities 1 (c - 1) (d - 1) (omega arith),
  )

  begins_of-within :
      (c : ℕ) → 0 < c → c < num_classes → (begins_of c + capacities c) * 8 ≤ 2 ^ shift
  begins_of-within c pos lt = omega (
    arith,
    begins-exact c pos lt,
    same_class c pos,
    total-le capacities 1 (c - 1) (num_classes - 1) (omega arith),
  )

  begins_of-fresh :
      (c : ℕ)
      → 0 < c
      → c < num_classes
      → fresh_header capacities begins_of c
        ≡ record { current = begins_of c; end = begins_of c + capacities c }
  begins_of-fresh c pos lt =
      let whole : u16 (begins_of c + capacities c) ≡ begins_of c + capacities c =
        omega (arith, begins_of-within c pos lt, region_bytes) in
      rw whole refl

-- If the slots of all classes fit behind the headers in the 2^shift bytes of a CPU, for a shift of 18
-- at most and a region within the address space, `init` succeeds: no offset is cut off to 16 bits, the
-- stacks stand behind the headers and apart from each other within the region, and on every CPU each
-- is empty and has its capacity.
pub init-IsLaidOut :
    (num_classes region num_cpus shift : ℕ) (capacities : ℕ → ℕ) (s : PerCpuSlab) (r : Region)
    → 0 < num_classes
    → shift ≤ 18
    → (data_start num_classes + total capacities 1 (num_classes - 1)) * 8 ≤ 2 ^ shift
    → region + num_cpus * 2 ^ shift ≤ 2 ^ 64
    → let (ok, s', r') = init num_classes region num_cpus shift capacities (s, r) in
      (ok ≡ true) × IsLaidOut num_classes num_cpus capacities s' r'
unfolding init begins_of
init-IsLaidOut num_classes region num_cpus shift capacities s r some_class small fits room =
    let begins0 = update s.begins 0 0 in
    let placed = begins_of num_classes shift capacities begins0 some_class small fits in
    let enough : ltb (2 ^ shift)
          ((place capacities (num_classes - 1) 1 (data_start num_classes) begins0).1 * 8)
        ≡ false =
      ground (arith, place-end capacities (num_classes - 1) 1 (data_start num_classes) begins0) in
    let headers_fit : num_classes * 4 ≤ 2 ^ shift = omega (arith, fits) in
    subst
      (λ (o : Bool × PerCpuSlab × Region).
        (o.0 ≡ true) × IsLaidOut num_classes num_cpus capacities o.1 o.2)
      (sym (if_false _ _ _ enough))
      (
        refl,
        record {
          behind = λ c pos lt. omega (
            arith,
            begins-exact num_classes shift capacities begins0 some_class small fits c pos lt,
          );
          apart = begins_of-apart num_classes shift capacities begins0 some_class small fits;
          within = begins_of-within num_classes shift capacities begins0 some_class small fits;
          empties = λ cpu c on pos lt.
              write_cpus-all capacities placed region shift num_classes headers_fit num_cpus cpu c
                r.headers room on lt
              ∙ begins_of-fresh num_classes shift capacities begins0 some_class small fits c pos lt;
        },
      )
