-- ===== src/Ffi/Errors.antt =====
-- src/ffi.rs: what the C functions answer, refusals included.
use rtmalloc.Allocator.{Thread, Fill, alloc, alloc_zeroed}
use rtmalloc.Base.{
  ℕ, zero, suc, ◌*◌, ◌^◌, ◌≤◌, ◌<◌, ◌≡◌, refl, ap, ◌∙◌, ◌≢◌, ◌⊎◌, inl, inr, Bool, true, false, not,
  ◌&&◌, ◌||◌, arith, List, Option, none, some, ltb, leb, ◌==◌, if◌then◌else◌, ◌>>=◌, Bool-cases,
  ==→eq,
}
use rtmalloc.Build.{ResolvedConfig}
use rtmalloc.Ffi.{
  min_align, einval, enomem, is_power_below, is_power_of_two, layout, calloc, posix_memalign,
}
use rtmalloc.SizeClass.{SizeClassInfo}
use rtmalloc.Span.{null}

-- What `is_power_of_two` tests.
abbrev PowerBelow : ℕ → ℕ → Bool → Type 0
PowerBelow n x true = (k : ℕ) × (k < n) × (x ≡ 2 ^ k)
PowerBelow n x false = (k : ℕ) → k < n → x ≢ 2 ^ k

is_power_below-PowerBelow : (n x : ℕ) → PowerBelow n x (is_power_below n x)
unfolding is_power_below
is_power_below-PowerBelow zero x = λ k lt e. absurd (omega arith)
is_power_below-PowerBelow (suc n) x = elim (Bool-cases (x == 2 ^ n)) [
  | inl here ↦ rw here (n, omega arith, ==→eq x (2 ^ n) here)
  | inr other ↦
      rw other
        (later (λ e. ground (arith, other, e)) (is_power_below n x) (is_power_below-PowerBelow n x))
]
  where
    later : x ≢ 2 ^ n → (b : Bool) → PowerBelow n x b → PowerBelow (suc n) x b
    later other_power true (k, lt, e) = (k, omega arith, e)
    later other_power false without = λ k lt e. elim (Bool-cases (k == n)) [
      | inl same ↦ absurd (other_power (e ∙ ap (λ j. 2 ^ j) (==→eq k n same)))
      | inr before ↦ without k (ground (arith, before)) e
    ]

module _ (cfg : ResolvedConfig) (classes : List SizeClassInfo) (fuel : ℕ) where
  -- The code and the word at `memptr` for what `alloc` answered.
  abbrev pub Answered : ℕ → Option (ℕ × Thread) → Option (ℕ × ℕ × Thread) → Type 0
  Answered memptr none r = r ≡ none
  Answered memptr (some (ptr, t)) r =
      ((ptr ≡ null) × (r ≡ some (enomem, memptr, t))) ⊎ ((ptr ≢ null) × (r ≡ some (0, ptr, t)))

  abbrev pub MemalignOutcome : ℕ → ℕ → ℕ → Thread → Option (ℕ × ℕ × Thread) → Type 0
  MemalignOutcome memptr align size t r =
      ((((k : ℕ) → k < 64 → align ≢ 2 ^ k) ⊎ (align < 8)) × (r ≡ some (einval, memptr, t)))
      ⊎ ((k : ℕ) × (align ≡ 2 ^ k)
          × (8 ≤ align)
          × (((size ≡ 0) × (r ≡ some (0, null, t)))
              ⊎ ((0 < size) × Answered memptr (alloc cfg classes fuel (layout size align) t) r)))

  posix_memalign-answers :
      (memptr : ℕ) (got : Option (ℕ × Thread))
      → Answered memptr got
          (do (ptr, t1) ← got; some (if ptr == null then (enomem, memptr, t1) else (0, ptr, t1)))
  posix_memalign-answers memptr none = refl
  posix_memalign-answers memptr (some (ptr, t)) = elim (Bool-cases (ptr == null)) [
    | inl is_null ↦ rw is_null (inl (==→eq ptr null is_null, refl))
    | inr some_ptr ↦ rw some_ptr (inr (ground (arith, some_ptr), refl))
  ]

  -- For what `is_power_of_two` answers.
  posix_memalign_case :
      (memptr align size : ℕ) (t : Thread) (power : Bool)
      → PowerBelow 64 align power
      → MemalignOutcome memptr align size t (
          if not power || ltb align 8
          then some (einval, memptr, t)
          else if size == 0
          then some (0, null, t)
          else (do
            (ptr, t1) ← alloc cfg classes fuel (layout size align) t
            some (if ptr == null then (enomem, memptr, t1) else (0, ptr, t1))))
  posix_memalign_case memptr align size t false without = inl (inl without, refl)
  posix_memalign_case memptr align size t true (k, lt, e) = elim (Bool-cases (ltb align 8)) [
    | inl small ↦ rw small (inl (inr (ground (arith, small)), refl))
    | inr wide ↦ rw wide (
        inr (
          k,
          e,
          ground (arith, wide),
          elim (Bool-cases (size == 0)) [
            | inl empty ↦ rw empty (inl (ground (arith, empty), refl))
            | inr some_bytes ↦ rw some_bytes (
                inr (
                  ground (arith, some_bytes),
                  posix_memalign-answers memptr (alloc cfg classes fuel (layout size align) t),
                ))
          ],
        ))
  ]

  -- `posix_memalign` refuses an alignment that is not a power of two or is below 8 with EINVAL and
  -- changes nothing; for a size of 0 it stores null; and else it stores the pointer that `alloc` gives,
  -- or answers ENOMEM and leaves the word at `memptr` where `alloc` gives null.
  pub posix_memalign-Outcome :
      (memptr align size : ℕ) (t : Thread)
      → MemalignOutcome memptr align size t (posix_memalign cfg classes fuel memptr align size t)
  unfolding posix_memalign
  posix_memalign-Outcome memptr align size t =
      posix_memalign_case memptr align size t (is_power_of_two align)
        (is_power_below-PowerBelow 64 align)

  -- The pointer and the bytes that are cleared, for what `alloc` answered.
  abbrev pub Cleared : ℕ → Option (ℕ × Thread) → Option (ℕ × Option Fill × Thread) → Type 0
  Cleared bytes none r = r ≡ none
  Cleared bytes (some (ptr, t)) r =
      ((ptr ≡ null) × (r ≡ some (null, none, t)))
      ⊎ ((ptr ≢ null) × (r ≡ some (ptr, some (record { to = ptr; bytes = bytes }), t)))

  abbrev pub CallocOutcome : ℕ → ℕ → Thread → Option (ℕ × Option Fill × Thread) → Type 0
  CallocOutcome count size t r =
      ((2 ^ 64 ≤ count * size) × (r ≡ some (null, none, t)))
      ⊎ ((count * size ≡ 0) × (r ≡ some (min_align, none, t)))
      ⊎ ((0 < count * size)
          × (count * size < 2 ^ 64)
          × Cleared (count * size) (alloc cfg classes fuel (layout (count * size) min_align) t) r)

  alloc_zeroed-Cleared :
      (bytes : ℕ) (got : Option (ℕ × Thread))
      → 0 < bytes
      → Cleared bytes got (do
        (ptr, t1) ← got
        some (
          ptr,
          if not (ptr == null) && ltb 0 bytes
              then some (record { to = ptr; bytes = bytes })
              else none,
          t1,
        ))
  alloc_zeroed-Cleared bytes none pos = refl
  alloc_zeroed-Cleared bytes (some (ptr, t)) pos = elim (Bool-cases (ptr == null)) [
    | inl is_null ↦
        rw is_null
          (inl (==→eq ptr null is_null, ap (λ p. some (p, none, t)) (==→eq ptr null is_null)))
    | inr some_ptr ↦
        let some_bytes : ltb 0 bytes ≡ true = ground (arith, pos) in
        rw (some_ptr, some_bytes) (inr (ground (arith, some_ptr), refl))
  ]

  -- `calloc` answers null and changes nothing where the product of its arguments does not fit in 64
  -- bits, the address 16 where it is 0, and else what `alloc` gives for that many bytes at 16, all of
  -- them cleared unless it gives null.
  pub calloc-Outcome :
      (count size : ℕ) (t : Thread)
      → CallocOutcome count size t (calloc cfg classes fuel count size t)
  unfolding calloc alloc_zeroed
  calloc-Outcome count size t =
      let bytes = count * size in
      elim (Bool-cases (leb (2 ^ 64) bytes)) [
        | inl large ↦ rw large (inl (ground (arith, large), refl))
        | inr fits ↦ elim (Bool-cases (bytes == 0)) [
          | inl empty ↦ rw (fits, empty) (inr (inl (ground (arith, empty), refl)))
          | inr some_bytes ↦
              rw (fits, some_bytes)
                (inr (
                  inr (
                    ground (arith, some_bytes),
                    ground (arith, fits),
                    alloc_zeroed-Cleared bytes (alloc cfg classes fuel (layout bytes min_align) t)
                        (ground (arith, some_bytes)),
                  )))
        ]
      ]
