-- ===== src/SizeClass/Lookup.antt =====
-- src/size_class.rs: `size_to_class`, by the lookup table and by the scan.
use rtmalloc.Base.{
  ℕ, zero, suc, ◌+◌, ◌-◌, ◌*◌, ◌%◌, ◌≤◌, ◌<◌, ◌≡◌, ◌↔◌, inl, inr, true, false, List, arith, ltb,
  leb, ◌==◌, Bool-cases, leb→le, ltb→lt, get_or,
}
use native.Mathlib.Nat.{zero-add}
use rtmalloc.Base.Rounding.{div_ceil}
use rtmalloc.SizeClass.{
  SizeClassInfo, num_size_classes, class_to_size, max_small_size, small_lookup_max,
  small_lookup_len, skip_small, scan, lookup_entry, lookup_entries, first_class_above_lookup,
  small_lookup, linear_scan, size_to_class,
}
use rtmalloc.SizeClass.Table.{IsTable, size_mono, size-pos}
use rtmalloc.SizeClass.Scan.{
  Best, Best-unique, scan-Best, skip_small-covers, skip_small-le, skip_small-pos,
}

lookup_entries-get_or :
    (classes : List SizeClassInfo) (rounds i j : ℕ)
    → j < rounds
    → get_or (lookup_entries classes rounds i) j 0 ≡ lookup_entry classes (i + j)
unfolding lookup_entries
lookup_entries-get_or classes zero i j h = elim h [ ]
lookup_entries-get_or classes (suc rounds) i zero h = let e : i + 0 ≡ i = omega arith in rw e
lookup_entries-get_or classes (suc rounds) i (suc j) h =
    let e : i + 1 + j ≡ i + suc j = omega arith in
    rw (lookup_entries-get_or classes rounds (i + 1) j (omega arith), e)

module _ {classes : List SizeClassInfo} (t : IsTable classes) where
  small_lookup_max-aligned : small_lookup_max classes % 8 ≡ 0
  small_lookup_max-aligned = ground (arith, t.aligned (num_size_classes classes - 1))

  small_lookup_max-le : small_lookup_max classes ≤ max_small_size classes
  small_lookup_max-le = ground arith

  -- The best class of a size rounded up to 8 bytes is the best of the size itself.
  Best-rounded :
      (size c : ℕ) → 0 < size → Best classes (div_ceil size 8 * 8) c → Best classes size c
  Best-rounded size c p b = record {
    pos = b.pos;
    below = b.below;
    fits = omega (arith, b.fits);
    least = λ d lt. omega (arith, b.least d lt, t.aligned d);
  }

  lookup_entry-Best :
      (i : ℕ)
      → 0 < i
      → i * 8 ≤ max_small_size classes
      → Best classes (i * 8) (lookup_entry classes i)
  unfolding lookup_entry
  lookup_entry-Best i p le =
      let found : Best classes (i * 8) (scan classes (num_size_classes classes - 1) 1 (i * 8)) =
        scan-Best classes (num_size_classes classes - 1) 1 (i * 8) (num_size_classes classes - 1)
          (omega arith) (λ d lt. grind (arith, t.zero_size)) (omega (arith, t.some_class))
          (omega (arith, t.some_class)) le in
      let start : (i == 0) ≡ false = ground arith in
      let inside : leb (num_size_classes classes)
            (scan classes (num_size_classes classes - 1) 1 (i * 8))
          ≡ false =
        ground (arith, found.below) in
      let small : scan classes (num_size_classes classes - 1) 1 (i * 8) % 256
          ≡ scan classes (num_size_classes classes - 1) 1 (i * 8) =
        omega (arith, found.below, t.few) in
      rw (start, inside, small) found

  small_lookup-Best :
      (size : ℕ)
      → 0 < size
      → size ≤ small_lookup_max classes
      → Best classes size (get_or (small_lookup classes) (div_ceil size 8) 0)
  unfolding small_lookup
  small_lookup-Best size p le =
      let inside : div_ceil size 8 < small_lookup_len classes =
        omega (arith, small_lookup_max-aligned) in
      rw
        (
          lookup_entries-get_or classes (small_lookup_len classes) 0 (div_ceil size 8) inside,
          zero-add,
        )
        (Best-rounded size _ p (
          lookup_entry-Best _ (omega arith)
            (omega (arith, small_lookup_max-aligned, small_lookup_max-le))))

  linear_scan-Best :
      (size : ℕ)
      → small_lookup_max classes < size
      → size ≤ max_small_size classes
      → Best classes size (linear_scan classes size)
  unfolding linear_scan first_class_above_lookup
  linear_scan-Best size above le =
      let n = num_size_classes classes in
      let first = skip_small classes n 0 in
      let some_first : 0 < first = skip_pos in
      let found : Best classes size (scan classes (n - first) first size) =
        scan-Best classes (n - first) first size (n - 1) some_first
          (λ d lt. omega (arith, skip_small-covers classes n 0 (λ e h. elim h [ ]) d lt))
          (omega (arith, skip_small-le classes n 0)) (omega (arith, t.some_class)) le in
      let inside : ltb (scan classes (n - first) first size) n ≡ true =
        ground (arith, found.below) in
      rw inside found
    where
      skip_pos : 0 < skip_small classes (num_size_classes classes) 0
      skip_pos =
          let e : num_size_classes classes ≡ suc (num_size_classes classes - 1) =
            omega (arith, t.some_class) in
          rw e (skip_small-pos classes _ t)

-- For a generated table and a size from 1 to the largest small size, `size_to_class` is a class
-- above the sentinel that holds the size, and every class below it is too small.
pub size_to_class-Best :
    {classes : List SizeClassInfo} (t : IsTable classes) (size : ℕ)
    → 0 < size
    → size ≤ max_small_size classes
    → Best classes size (size_to_class classes size)
unfolding size_to_class
size_to_class-Best {classes} t size p le =
    let some_size : (size == 0) ≡ false = ground arith in
    let small : ltb (max_small_size classes) size ≡ false = ground arith in
    rw (some_size, small)
      (elim (Bool-cases (leb size (small_lookup_max classes))) [
        | inl hit ↦ rw hit (small_lookup-Best t size p (leb→le _ _ hit))
        | inr miss ↦ rw miss (linear_scan-Best t size (ground arith) le)
      ])

-- `size_to_class` answers 0 exactly for the sizes above the largest class.
pub size_to_class-zero_iff :
    {classes : List SizeClassInfo} (t : IsTable classes) (size : ℕ)
    → (size_to_class classes size ≡ 0) ↔ (max_small_size classes < size)
unfolding size_to_class
size_to_class-zero_iff {classes} t size = (there, back)
  where
    back : max_small_size classes < size → size_to_class classes size ≡ 0
    back h = ground arith

    there : size_to_class classes size ≡ 0 → max_small_size classes < size
    there h = elim (Bool-cases (ltb (max_small_size classes) size)) [
      | inl above ↦ ltb→lt _ _ above
      | inr within ↦ elim (Bool-cases (size == 0)) [
        | inl none_asked ↦ absurd (ground arith)
        | inr asked ↦
            absurd (omega (arith, (size_to_class-Best t size (ground arith) (ground arith)).pos, h))
      ]
    ]

-- The size of every class above the sentinel is mapped back to that class.
pub size_to_class-class_to_size :
    {classes : List SizeClassInfo} (t : IsTable classes) (c : ℕ)
    → 0 < c
    → c < num_size_classes classes
    → size_to_class classes (class_to_size classes c) ≡ c
size_to_class-class_to_size {classes} t c p l =
    Best-unique
      (size_to_class-Best t (class_to_size classes c) (size-pos t c p l)
        (size_mono t c (num_size_classes classes - 1) (omega arith) (omega arith)))
      (record { pos = p; below = l; fits = omega arith; least = λ d lt. t.increasing d c lt l })
