-- ===== src/SizeClass/Table.antt =====
-- src/size_class.rs: what holds of a generated table of size classes.
use rtmalloc.Base.{
  ℕ, zero, suc, ◌%◌, ◌≤◌, ◌<◌, ◌≡◌, refl, ◌⊎◌, inl, inr, List, [], ◌∷◌, map, arith, length, get_or,
  length-map,
}
use rtmalloc.Build.{ClassDef}
use rtmalloc.Build.Classes
use rtmalloc.Build.Classes.{IsIncreasing}
use rtmalloc.SizeClass.{
  SizeClassInfo, sentinel, info_of, generate_size_classes, num_size_classes, class_info,
  class_to_size,
}

-- A sentinel of size 0, and above it at least one class; sizes increase and are multiples of 8.
pub record IsTable (classes : List SizeClassInfo) : Type 0 where
  pub some_class : 2 ≤ num_size_classes classes
  pub few : num_size_classes classes ≤ 64
  pub zero_size : class_to_size classes 0 ≡ 0
  pub increasing :
      (c d : ℕ)
      → c < d
      → d < num_size_classes classes
      → class_to_size classes c < class_to_size classes d
  pub aligned : (c : ℕ) → class_to_size classes c % 8 ≡ 0
  pub has_pages : (c : ℕ) → 0 < c → c < num_size_classes classes → 0 < (class_info classes c).pages
  pub has_batch :
      (c : ℕ) → 0 < c → c < num_size_classes classes → 0 < (class_info classes c).batch_size

module _ {classes : List SizeClassInfo} (t : IsTable classes) where
  pub size-pos : (c : ℕ) → 0 < c → c < num_size_classes classes → 0 < class_to_size classes c
  size-pos c p l = omega (arith, t.increasing 0 c p l, t.zero_size)

  pub size_mono :
      (c d : ℕ)
      → c ≤ d
      → d < num_size_classes classes
      → class_to_size classes c ≤ class_to_size classes d
  size_mono c d le l = elim (split) [
    | inl e ↦ rw e (omega arith)
    | inr lt ↦ omega (arith, t.increasing c d lt l)
  ]
    where
      split : (c ≡ d) ⊎ (c < d)
      split = grind arith

-- The size at an index of a list of classes.
abbrev size_at : List SizeClassInfo → ℕ → ℕ
size_at xs i = (get_or xs i sentinel).size

size_at-above :
    (p : ℕ) (defs : List ClassDef) (i : ℕ)
    → IsIncreasing p defs
    → i < length defs
    → p < size_at (map info_of defs) i
size_at-above p [] i v h = elim h [ ]
size_at-above p (d ∷ defs) zero v h = v.0
size_at-above p (d ∷ defs) (suc i) v h = omega (arith, size_at-above d.size defs i v.4)

size_at-increasing :
    (p : ℕ) (defs : List ClassDef) (i j : ℕ)
    → IsIncreasing p defs
    → i < j
    → j < length defs
    → size_at (map info_of defs) i < size_at (map info_of defs) j
size_at-increasing p [] i j v lt h = elim h [ ]
size_at-increasing p (d ∷ defs) i zero v lt h = elim lt [ ]
size_at-increasing p (d ∷ defs) zero (suc j) v lt h = size_at-above d.size defs j v.4 (omega arith)
size_at-increasing p (d ∷ defs) (suc i) (suc j) v lt h =
    size_at-increasing d.size defs i j v.4 (omega arith) (omega arith)

size_at-aligned :
    (p : ℕ) (defs : List ClassDef) (i : ℕ)
    → IsIncreasing p defs
    → size_at (map info_of defs) i % 8 ≡ 0
size_at-aligned p [] i v = refl
size_at-aligned p (d ∷ defs) zero v = v.1
size_at-aligned p (d ∷ defs) (suc i) v = size_at-aligned d.size defs i v.4

at-pages :
    (p : ℕ) (defs : List ClassDef) (i : ℕ)
    → IsIncreasing p defs
    → i < length defs
    → (0 < (get_or (map info_of defs) i sentinel).pages)
      × (0 < (get_or (map info_of defs) i sentinel).batch_size)
at-pages p [] i v h = elim h [ ]
at-pages p (d ∷ defs) zero v h = (v.2, v.3)
at-pages p (d ∷ defs) (suc i) v h = at-pages d.size defs i v.4 (omega arith)

-- The table generated from validated classes has between 2 and 64 entries, the sentinel of size 0
-- first; the sizes increase strictly and are multiples of 8, and every class above the sentinel has
-- pages and a batch.
pub generate_size_classes-IsTable :
    (defs : List ClassDef) → Classes.IsValid defs → IsTable (generate_size_classes defs)
generate_size_classes-IsTable defs v = record {
  some_class = omega (arith, v.some_class, length-map {0, 0} defs info_of);
  few = omega (arith, v.few, length-map {0, 0} defs info_of);
  zero_size = refl;
  increasing = ordered;
  aligned = multiple;
  has_pages = λ c p l. (filled c p l).0;
  has_batch = λ c p l. (filled c p l).1;
}
  where
    lengths : length (map info_of defs) ≡ length defs
    lengths = length-map defs info_of

    ordered :
        (c d : ℕ)
        → c < d
        → d < suc (length (map info_of defs))
        → size_at (sentinel ∷ map info_of defs) c < size_at (sentinel ∷ map info_of defs) d
    ordered c zero lt l = elim lt [ ]
    ordered zero (suc d) lt l = size_at-above 0 defs d v.increasing (omega (arith, lengths))
    ordered (suc c) (suc d) lt l =
        size_at-increasing 0 defs c d v.increasing (omega arith) (omega (arith, lengths))

    multiple : (c : ℕ) → size_at (sentinel ∷ map info_of defs) c % 8 ≡ 0
    multiple zero = refl
    multiple (suc c) = size_at-aligned 0 defs c v.increasing

    filled :
        (c : ℕ)
        → 0 < c
        → c < suc (length (map info_of defs))
        → (0 < (get_or (sentinel ∷ map info_of defs) c sentinel).pages)
          × (0 < (get_or (sentinel ∷ map info_of defs) c sentinel).batch_size)
    filled zero p l = elim p [ ]
    filled (suc c) p l = at-pages 0 defs c v.increasing (omega (arith, lengths))
