-- ===== src/Allocator/Routing.antt =====
-- src/allocator.rs: the choice of `alloc` between a size class and whole pages.
use native.Mathlib.Nat.{
  dvd_refl, dvd-mul_right_of_dvd, dvd-mul_left_of_dvd, dvd-add, dvd_trans, mod-eq-zero_of_dvd,
  dvd_of_mod-eq-zero, pow-suc, pow-le-pow_right, two-pow-succ, one-le-pow,
}
use Prim.Native.Nat.{◌∣◌}
use mathlib.Core.Path.{subst}
use rtmalloc.Base.{
  ℕ, zero, suc, ◌+◌, ◌-◌, ◌*◌, ◌%◌, ◌^◌, ◌≤◌, ◌<◌, ◌≡◌, sym, ◌∙◌, ap, ◌⊎◌, inl, inr, false, not,
  ◌||◌, List, arith, ltb, leb, ◌==◌, Bool-cases, max,
}
use rtmalloc.Allocator.{Route, route}
use rtmalloc.Allocator.Large.{Layout}
use rtmalloc.Build.{ResolvedConfig}
use rtmalloc.SizeClass.{SizeClassInfo, class_to_size, num_size_classes, size_to_class}
use rtmalloc.SizeClass.Table.{IsTable}
use rtmalloc.SizeClass.Scan.{Best}
use rtmalloc.SizeClass.Lookup.{size_to_class-Best, size_to_class-zero_iff}

le_of_not-lt : (a b : ℕ) → ¬ (b < a) → a ≤ b
le_of_not-lt a b h = ground (arith, h)

pow-dvd_add : (a d : ℕ) → 2 ^ a ∣ 2 ^ (d + a)
pow-dvd_add a zero = subst (λ t. 2 ^ a ∣ 2 ^ t) (omega arith) (dvd_refl (2 ^ a))
pow-dvd_add a (suc d) =
    subst (λ t. 2 ^ a ∣ t) (sym (pow-suc 2 (d + a)) ∙ ap (λ t. 2 ^ t) (omega arith))
      (dvd-mul_right_of_dvd (2 ^ a) (pow-dvd_add a d) 2)

-- A power of two divides each greater one.
pub pow-dvd : (a b : ℕ) → a ≤ b → 2 ^ a ∣ 2 ^ b
pow-dvd a b le = subst (λ t. 2 ^ a ∣ 2 ^ t) (omega arith) (pow-dvd_add a (b - a))

pub exponent_le : (a b : ℕ) → 2 ^ a ≤ 2 ^ b → a ≤ b
exponent_le a b le = le_of_not-lt _ _ (λ lt. absurd (
    omega (
      arith,
      pow-le-pow_right {n = 2} (omega arith) {i = suc b} {j = a} (omega arith),
      two-pow-succ b,
      one-le-pow b 2 (omega arith),
    )))

-- The class of a size that has one.
class-Best :
    {classes : List SizeClassInfo} (t : IsTable classes) (size : ℕ)
    → 0 < size
    → (size_to_class classes size == 0) ≡ false
    → Best classes size (size_to_class classes size)
class-Best t size p some_class =
    size_to_class-Best t size p
      (le_of_not-lt _ _ (λ lt. absurd (ground (arith, (size_to_class-zero_iff t size).1 lt))))

-- The ways to a class.
record Served (cfg : ResolvedConfig) (classes : List SizeClassInfo) (layout : Layout) (c : ℕ)
    : Type 0 where
  pos : 0 < c
  below : c < num_size_classes classes
  fits : layout.size ≤ class_to_size classes c
  fine :
      (layout.align ≤ 8)
      ⊎ ((layout.align ≤ cfg.page_size) × (class_to_size classes c % layout.align ≡ 0))

small_inj : {c d : ℕ} → Route.small c ≡ Route.small d → c ≡ d
small_inj h = cc

route-Served :
    (cfg : ResolvedConfig) {classes : List SizeClassInfo} (t : IsTable classes) (layout : Layout)
    (c : ℕ)
    → 0 < layout.size
    → route cfg classes layout ≡ Route.small c
    → Served cfg classes layout c
unfolding route
route-Served cfg {classes} t layout c some_size e = elim (Bool-cases (leb layout.align 8)) [
  | inl fine ↦ elim (Bool-cases (size_to_class classes layout.size == 0)) [
    | inl none_holds ↦ absurd (ground arith)
    | inr holds ↦
        let same : Route.small (size_to_class classes layout.size) ≡ Route.small c = ground arith in
        let best : Best classes layout.size c =
          subst (Best classes layout.size) (small_inj same)
            (class-Best t layout.size some_size holds) in
        record { pos = best.pos; below = best.below; fits = best.fits; fine = inl (ground arith) }
  ]
  | inr coarse ↦
      let wide = size_to_class classes (max layout.size layout.align) in
      elim (Bool-cases (wide == 0)) [
        | inl none_holds ↦ absurd (ground arith)
        | inr holds ↦
            elim (Bool-cases (
              ltb cfg.page_size layout.align
              || not (class_to_size classes wide % layout.align == 0))) [
                | inl coarser ↦ absurd (ground arith)
                | inr divides ↦
                    let same : Route.small wide ≡ Route.small c = ground arith in
                    let best : Best classes (max layout.size layout.align) c =
                      subst (Best classes (max layout.size layout.align)) (small_inj same)
                        (class-Best t (max layout.size layout.align) (omega arith) holds) in
                    record {
                      pos = best.pos;
                      below = best.below;
                      fits = omega (arith, best.fits);
                      fine = inr (
                        ground arith,
                        subst (λ d. class_to_size classes d % layout.align ≡ 0) (small_inj same)
                            (ground arith),
                      );
                    }
              ]
      ]
]

-- Where `alloc` serves a request of a positive size, aligned to a power of two, from a class, the
-- class holds the size, and every object of every span of the class is aligned as asked: the pages are
-- a power of two of bytes, 8 at least, and the objects follow each other from the start of a page.
pub route-aligned :
    (cfg : ResolvedConfig) {classes : List SizeClassInfo} (t : IsTable classes) (layout : Layout)
    (c a shift start i : ℕ)
    → 0 < layout.size
    → layout.align ≡ 2 ^ a
    → cfg.page_size ≡ 2 ^ shift
    → 3 ≤ shift
    → route cfg classes layout ≡ Route.small c
    → (0 < c)
      × (c < num_size_classes classes)
      × (layout.size ≤ class_to_size classes c)
      × ((start * cfg.page_size + i * class_to_size classes c) % layout.align ≡ 0)
route-aligned cfg {classes} t layout c a shift start i some_size power pages word e =
    let s = route-Served cfg t layout c some_size e in
    (s.pos, s.below, s.fits, mod-eq-zero_of_dvd layout.align (address (divisors (s.fine))))
  where
    divisors :
        (layout.align ≤ 8)
          ⊎ ((layout.align ≤ cfg.page_size) × (class_to_size classes c % layout.align ≡ 0))
        → (layout.align ∣ cfg.page_size) × (layout.align ∣ class_to_size classes c)
    divisors (inl fine) =
        let low : a ≤ 3 = exponent_le a 3 (omega arith) in
        (
          rw (power, pages) (pow-dvd a shift (omega arith)),
          rw power (dvd_trans (2 ^ a) (pow-dvd a 3 low) (dvd_of_mod-eq-zero 8 (t.aligned c))),
        )
    divisors (inr (le, divides)) = (
      rw (power, pages) (pow-dvd a shift (exponent_le a shift (omega arith))),
      dvd_of_mod-eq-zero layout.align divides,
    )

    address :
        (layout.align ∣ cfg.page_size) × (layout.align ∣ class_to_size classes c)
        → layout.align ∣ start * cfg.page_size + i * class_to_size classes c
    address (dp, dc) =
        dvd-add layout.align (dvd-mul_left_of_dvd layout.align dp start)
          (dvd-mul_left_of_dvd layout.align dc i)
