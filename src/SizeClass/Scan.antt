-- ===== src/SizeClass/Scan.antt =====
-- src/size_class.rs: the scan of the table.
use rtmalloc.Base.{
  ℕ, zero, suc, ◌+◌, ◌≤◌, ◌<◌, ◌≡◌, inl, inr, false, List, arith, leb, Bool-cases, leb→le,
}
use rtmalloc.SizeClass.{
  SizeClassInfo, num_size_classes, class_to_size, small_lookup_max, skip_small, scan,
}
use rtmalloc.SizeClass.Table.{IsTable}

-- `c` is the smallest class that holds `size`, and not the sentinel.
pub record Best (classes : List SizeClassInfo) (size c : ℕ) : Type 0 where
  pub pos : 0 < c
  pub below : c < num_size_classes classes
  pub fits : size ≤ class_to_size classes c
  pub least : (d : ℕ) → d < c → class_to_size classes d < size

-- The smallest class is one only.
pub Best-unique :
    {classes : List SizeClassInfo} {size c d : ℕ}
    → Best classes size c
    → Best classes size d
    → c ≡ d
Best-unique {classes} {size} {c} {d} a b = grind (arith, a.least d, b.least c, a.fits, b.fits)

-- Where a class `k` in range holds the size, and those before the start do not, the scan ends at
-- the best class.
pub scan-Best :
    (classes : List SizeClassInfo) (rounds cls size k : ℕ)
    → 0 < cls
    → ((d : ℕ) → d < cls → class_to_size classes d < size)
    → cls + rounds ≡ num_size_classes classes
    → k < num_size_classes classes
    → size ≤ class_to_size classes k
    → Best classes size (scan classes rounds cls size)
unfolding scan
scan-Best classes zero cls size k p below e l fit = absurd (omega (arith, below k (omega arith)))
scan-Best classes (suc rounds) cls size k p below e l fit =
    elim (Bool-cases (leb size (class_to_size classes cls))) [
      | inl hit ↦
          rw hit (record { pos = p; below = omega arith; fits = leb→le _ _ hit; least = below })
      | inr miss ↦ rw miss (
          scan-Best classes rounds (cls + 1) size k (omega arith) (further miss) (omega arith) l
            fit)
    ]
  where
    further :
        leb size (class_to_size classes cls) ≡ false
        → (d : ℕ) → d < cls + 1
        → class_to_size classes d < size
    further miss d lt = grind (arith, below d)

-- `skip_small` stops behind the last class that the lookup table covers.
pub skip_small-covers :
    (classes : List SizeClassInfo) (rounds cls : ℕ)
    → ((d : ℕ) → d < cls → class_to_size classes d ≤ small_lookup_max classes)
    → (d : ℕ) → d < skip_small classes rounds cls
    → class_to_size classes d ≤ small_lookup_max classes
unfolding skip_small
skip_small-covers classes zero cls below d lt = below d lt
skip_small-covers classes (suc rounds) cls below d lt =
    elim (Bool-cases (leb (class_to_size classes cls) (small_lookup_max classes))) [
      | inl hit ↦
          skip_small-covers classes rounds (cls + 1) (λ e le. grind (arith, below e)) d
            (rw hit at lt)
      | inr miss ↦ below d (rw miss at lt)
    ]

pub skip_small-le :
    (classes : List SizeClassInfo) (rounds cls : ℕ) → skip_small classes rounds cls ≤ cls + rounds
unfolding skip_small
skip_small-le classes zero cls = omega arith
skip_small-le classes (suc rounds) cls = ground (arith, skip_small-le classes rounds (cls + 1))

pub le-skip_small :
    (classes : List SizeClassInfo) (rounds cls : ℕ) → cls ≤ skip_small classes rounds cls
unfolding skip_small
le-skip_small classes zero cls = omega arith
le-skip_small classes (suc rounds) cls = ground (arith, le-skip_small classes rounds (cls + 1))

-- The sentinel is skipped.
pub skip_small-pos :
    (classes : List SizeClassInfo) (rounds : ℕ)
    → IsTable classes
    → 0 < skip_small classes (suc rounds) 0
unfolding skip_small
skip_small-pos classes rounds t = ground (arith, le-skip_small classes rounds (0 + 1), t.zero_size)
