-- ===== src/ThreadCache/Accounting.antt =====
-- src/thread_cache.rs: the objects of a thread's cache and the bytes that it counts for them.
use mathlib.Core.Path.{subst}
use rtmalloc.Base.{
  ℕ, zero, suc, ◌+◌, ◌*◌, ◌^◌, ◌<◌, ◌≤◌, ◌≡◌, refl, sym, ap, ◌∙◌, ◌≢◌, ◌⊎◌, inl, inr, List, arith,
  ◌==◌, Bool-cases, ==→eq, length, update, update_self, update_ne,
}
use rtmalloc.FreeObject.Links.{Disjoint, Disjoint-sym}
use rtmalloc.SizeClass.{SizeClassInfo, class_to_size, num_size_classes}
use rtmalloc.ThreadCache.{FreeList}
use rtmalloc.ThreadCache.Cache.{Process}
use rtmalloc.ThreadCache.FreeListLaws.{IsFree}

pub eq_or_ne : (a b : ℕ) → (a ≡ b) ⊎ (a ≢ b)
eq_or_ne a b = elim (Bool-cases (a == b)) [
  | inl e ↦ inl (==→eq a b e)
  | inr e ↦ inr (λ f. ground (arith, e, f))
]

-- The objects of each class.
abbrev pub Objects : Type 0
Objects = ℕ → List ℕ

module _ (classes : List SizeClassInfo) where
  -- The bytes of the objects of the first `n` classes.
  abbrev pub bytes : ℕ → Objects → ℕ
  bytes zero objects = 0
  bytes (suc n) objects = bytes n objects + length (objects n) * class_to_size classes n

  -- Each list holds the objects of its class, no object is in two, and the total counts their bytes.
  pub record IsCached (objects : Objects) (p : Process) : Type 0 where
    pub lists : (cls : ℕ) → IsFree p.middle.words (p.cache.lists cls) (objects cls)
    pub apart : (c d : ℕ) → c ≢ d → Disjoint (objects c) (objects d)
    pub short : (cls : ℕ) → length (objects cls) < 2 ^ 32
    pub total : p.cache.total_size ≡ bytes (num_size_classes classes) objects
    pub bound : p.cache.total_size < 2 ^ 64

  bytes-above :
      (n cls : ℕ) (xs : List ℕ) (objects : Objects)
      → n ≤ cls
      → bytes n (update objects cls xs) ≡ bytes n objects
  bytes-above zero cls xs objects le = refl
  bytes-above (suc n) cls xs objects le =
      let same = update_ne objects cls xs n (λ e. absurd (omega arith)) in
      rw same (
        ap (λ b. b + length (objects n) * class_to_size classes n)
          (bytes-above n cls xs objects (omega arith)))

  -- Another list for a class changes the bytes by the difference.
  pub bytes-update :
      (n cls : ℕ) (xs : List ℕ) (objects : Objects)
      → cls < n
      → bytes n (update objects cls xs) + length (objects cls) * class_to_size classes cls
        ≡ bytes n objects + length xs * class_to_size classes cls
  bytes-update zero cls xs objects lt = absurd (omega arith)
  bytes-update (suc n) cls xs objects lt = elim (Bool-cases (cls == n)) [
    | inl last ↦
        subst
          (λ m.
            bytes n (update objects cls xs)
              + length (update objects cls xs m) * class_to_size classes m
              + length (objects cls) * class_to_size classes cls
            ≡ bytes n objects
              + length (objects m) * class_to_size classes m
              + length xs * class_to_size classes cls)
          (==→eq cls n last)
          (rw (update_self objects cls xs)
            (omega (arith, bytes-above n cls xs objects (ground (arith, last)))))
    | inr before ↦
        let same = update_ne objects cls xs n (λ e. ground (arith, before, e)) in
        rw same (omega (arith, bytes-update n cls xs objects (ground (arith, before))))
  ]

  -- The list of one class is replaced, with the total.
  pub IsCached-replace :
      (objects : Objects) (p q : Process) (cls : ℕ) (xs : List ℕ) (l : FreeList)
      → IsCached objects p
      → cls < num_size_classes classes
      → q.cache.lists ≡ update p.cache.lists cls l
      → IsFree q.middle.words l xs
      → ((d : ℕ) → d ≢ cls → IsFree q.middle.words (p.cache.lists d) (objects d))
      → ((d : ℕ) → d ≢ cls → Disjoint xs (objects d))
      → length xs < 2 ^ 32
      → q.cache.total_size + length (objects cls) * class_to_size classes cls
        ≡ p.cache.total_size + length xs * class_to_size classes cls
      → q.cache.total_size < 2 ^ 64
      → IsCached (update objects cls xs) q
  IsCached-replace objects p q cls xs l is lt put here others apart short total bound = record {
    lists = λ d.
        subst (λ ls. IsFree q.middle.words (ls d) (update objects cls xs d)) (sym put) (kept d);
    apart = two;
    short = one;
    total =
        omega (arith, total, is.total, bytes-update (num_size_classes classes) cls xs objects lt);
    bound = bound;
  }
    where
      here_lem : update objects cls xs cls ≡ xs
      here_lem = update_self objects cls xs

      kept :
          (d : ℕ) → IsFree q.middle.words (update p.cache.lists cls l d) (update objects cls xs d)
      kept d = elim (eq_or_ne d cls) [
        | inl e ↦
            subst
              (λ c. IsFree q.middle.words (update p.cache.lists cls l c) (update objects cls xs c))
              (sym e) (rw (here_lem, update_self p.cache.lists cls l) here)
        | inr ne ↦
            rw (update_ne objects cls xs d ne, update_ne p.cache.lists cls l d ne) (others d ne)
      ]

      one : (d : ℕ) → length (update objects cls xs d) < 2 ^ 32
      one d = elim (eq_or_ne d cls) [
        | inl e ↦ subst (λ c. length (update objects cls xs c) < 2 ^ 32) (sym e) (rw here_lem short)
        | inr ne ↦ rw (update_ne objects cls xs d ne) (is.short d)
      ]

      two : (c d : ℕ) → c ≢ d → Disjoint (update objects cls xs c) (update objects cls xs d)
      two c d ne = elim (eq_or_ne c cls) [
        | inl e ↦
            let ne' : d ≢ cls = λ f. ne (e ∙ sym f) in
            subst (λ b. Disjoint (update objects cls xs b) (update objects cls xs d)) (sym e)
              (rw (here_lem, update_ne objects cls xs d ne') (apart d ne'))
        | inr ne' ↦ elim (eq_or_ne d cls) [
          | inl f ↦
              subst (λ b. Disjoint (update objects cls xs c) (update objects cls xs b)) (sym f)
                (rw (here_lem, update_ne objects cls xs c ne')
                  (λ a i. Disjoint-sym a xs (objects c) (apart c ne') i))
          | inr nf ↦
              rw (update_ne objects cls xs c ne', update_ne objects cls xs d nf) (is.apart c d ne)
        ]
      ]
