-- ===== src/CpuCache/RoundTrip.antt =====
-- src/cpu_cache.rs: the fast path, where the stack of the class on the thread's CPU serves.
use mathlib.Core.Path.{subst}
use rtmalloc.Base.{
  ℕ, ◌<◌, ◌≡◌, refl, sym, ap, ◌∙◌, inl, inr, Bool, true, false, List, ◌∷◌, Option, none, some,
  arith, if◌then◌else◌, if_true, length,
}
use rtmalloc.Build.{ResolvedConfig}
use rtmalloc.CpuCache.{Cpus, try_pop, try_push, pop_twice, push_twice}
use rtmalloc.CpuCache.Front.{alloc, alloc_refill, dealloc, dealloc_drain, or_else, unless_done}
use rtmalloc.PerCpu
use rtmalloc.PerCpu.{Region, Abort}
use rtmalloc.PerCpu.Stack.{Holds, pop-Holds, push-Holds}
use rtmalloc.SizeClass.{SizeClassInfo}

-- The turns of an operation on a CPU: one, or an aborted one and another.
abbrev pub attempts : ℕ → Abort → List (ℕ × Abort) → List (ℕ × Abort)
attempts cpu Abort.never ts = (cpu, Abort.never) ∷ ts
attempts cpu Abort.early ts = (cpu, Abort.early) ∷ (cpu, Abort.never) ∷ ts
attempts cpu Abort.late ts = (cpu, Abort.late) ∷ (cpu, Abort.never) ∷ ts

abbrev moved : Cpus → Region → List (ℕ × Abort) → Cpus
moved s r ts = record s { region = r; turns = ts }

try_push_lem :
    (class ptr cpu : ℕ) (abort : Abort) (ts : List (ℕ × Abort)) (s : Cpus)
    → s.turns ≡ (cpu, abort) ∷ ts
    → let out = PerCpu.push s.slab cpu class ptr abort s.region in
      try_push class ptr s ≡ (out.0, moved s out.1 ts)
unfolding try_push
try_push_lem class ptr cpu abort ts s e = rw e refl

try_pop_lem :
    (class cpu : ℕ) (abort : Abort) (ts : List (ℕ × Abort)) (s : Cpus)
    → s.turns ≡ (cpu, abort) ∷ ts
    → let out = PerCpu.pop s.slab cpu class abort s.region in
      try_pop class s ≡ (out.0, moved s out.1 ts)
unfolding try_pop
try_pop_lem class cpu abort ts s e = rw e refl

-- What a push by two attempts leaves.
abbrev Pushed : ℕ → ℕ → ℕ → ℕ → List (ℕ × Abort) → Cpus → List ℕ → Type 0
Pushed class ptr cpu capacity ts s xs =
    (r : Region) × (push_twice class ptr s ≡ (true, moved s r ts))
    × Holds s.slab r cpu class capacity (ptr ∷ xs)

abbrev Popped : ℕ → ℕ → ℕ → ℕ → List (ℕ × Abort) → Cpus → List ℕ → Type 0
Popped class ptr cpu capacity ts s xs =
    (r : Region) × (pop_twice class s ≡ (some ptr, moved s r ts))
    × Holds s.slab r cpu class capacity xs

try_push-Holds :
    (class ptr cpu capacity : ℕ) (ts : List (ℕ × Abort)) (s : Cpus) (xs : List ℕ)
    → s.turns ≡ (cpu, Abort.never) ∷ ts
    → Holds s.slab s.region cpu class capacity xs
    → length xs < capacity
    → (r : Region) × (try_push class ptr s ≡ (true, moved s r ts))
      × Holds s.slab r cpu class capacity (ptr ∷ xs)
try_push-Holds class ptr cpu capacity ts s xs e is room =
    elim (push-Holds s.slab cpu class capacity s.region ptr Abort.never xs is) [
      | inl (lt, done, holds) ↦ (
        (PerCpu.push s.slab cpu class ptr Abort.never s.region).1,
        try_push_lem class ptr cpu Abort.never ts s e
            ∙ ap (λ b. (b, moved s (PerCpu.push s.slab cpu class ptr Abort.never s.region).1 ts))
                done,
        holds,
      )
      | inr (full, refused) ↦ absurd (omega (arith, full, room))
    ]

-- After an attempt that failed, the second one decides.
push_twice_again :
    (class ptr : ℕ) (s s1 s2 : Cpus)
    → try_push class ptr s ≡ (false, s1)
    → try_push class ptr s1 ≡ (true, s2)
    → push_twice class ptr s ≡ (true, s2)
unfolding push_twice
push_twice_again class ptr s s1 s2 e1 e2 =
    subst (λ (o : Bool × Cpus). (if o.0 then (true, o.1) else try_push class ptr o.1) ≡ (true, s2))
      (sym e1) e2

push_twice_once :
    (class ptr : ℕ) (s s1 : Cpus)
    → try_push class ptr s ≡ (true, s1)
    → push_twice class ptr s ≡ (true, s1)
unfolding push_twice
push_twice_once class ptr s s1 e =
    subst (λ (o : Bool × Cpus). (if o.0 then (true, o.1) else try_push class ptr o.1) ≡ (true, s1))
      (sym e) refl

-- An attempt that the kernel aborts leaves the stack.
abbrev Refused : ℕ → ℕ → ℕ → ℕ → List (ℕ × Abort) → Cpus → List ℕ → Type 0
Refused class ptr cpu capacity ts s xs =
    (r : Region) × (try_push class ptr s ≡ (false, moved s r ts))
    × Holds s.slab r cpu class capacity xs

try_push_early :
    (class ptr cpu capacity : ℕ) (ts : List (ℕ × Abort)) (s : Cpus) (xs : List ℕ)
    → s.turns ≡ (cpu, Abort.early) ∷ ts
    → Holds s.slab s.region cpu class capacity xs
    → Refused class ptr cpu capacity ts s xs
try_push_early class ptr cpu capacity ts s xs e is = (
  s.region,
  try_push_lem class ptr cpu Abort.early ts s e
      ∙ ap (λ (o : Bool × Region). (o.0, moved s o.1 ts))
          (push-Holds s.slab cpu class capacity s.region ptr Abort.early xs is),
  is,
)

try_push_late :
    (class ptr cpu capacity : ℕ) (ts : List (ℕ × Abort)) (s : Cpus) (xs : List ℕ)
    → s.turns ≡ (cpu, Abort.late) ∷ ts
    → Holds s.slab s.region cpu class capacity xs
    → Refused class ptr cpu capacity ts s xs
try_push_late class ptr cpu capacity ts s xs e is =
    let out = PerCpu.push s.slab cpu class ptr Abort.late s.region in
    let (refused, holds) = push-Holds s.slab cpu class capacity s.region ptr Abort.late xs is in
    (
      out.1,
      try_push_lem class ptr cpu Abort.late ts s e ∙ ap (λ b. (b, moved s out.1 ts)) refused,
      holds,
    )

push_retried :
    (class ptr cpu capacity : ℕ) (ts : List (ℕ × Abort)) (s : Cpus) (xs : List ℕ)
    → length xs < capacity
    → Refused class ptr cpu capacity ((cpu, Abort.never) ∷ ts) s xs
    → Pushed class ptr cpu capacity ts s xs
push_retried class ptr cpu capacity ts s xs room (r1, refused, holds1) =
    let s1 = moved s r1 ((cpu, Abort.never) ∷ ts) in
    let (r2, done, holds2) = try_push-Holds class ptr cpu capacity ts s1 xs refl holds1 room in
    (r2, push_twice_again class ptr s s1 (moved s r2 ts) refused done, holds2)

push_twice-Holds :
    (class ptr cpu capacity : ℕ) (abort : Abort) (ts : List (ℕ × Abort)) (s : Cpus) (xs : List ℕ)
    → s.turns ≡ attempts cpu abort ts
    → Holds s.slab s.region cpu class capacity xs
    → length xs < capacity
    → Pushed class ptr cpu capacity ts s xs
push_twice-Holds class ptr cpu capacity Abort.never ts s xs e is room =
    let (r, done, holds) = try_push-Holds class ptr cpu capacity ts s xs e is room in
    (r, push_twice_once class ptr s (moved s r ts) done, holds)
push_twice-Holds class ptr cpu capacity Abort.early ts s xs e is room =
    push_retried class ptr cpu capacity ts s xs room
      (try_push_early class ptr cpu capacity ((cpu, Abort.never) ∷ ts) s xs e is)
push_twice-Holds class ptr cpu capacity Abort.late ts s xs e is room =
    push_retried class ptr cpu capacity ts s xs room
      (try_push_late class ptr cpu capacity ((cpu, Abort.never) ∷ ts) s xs e is)

-- The same for `pop`, whose aborted attempt leaves the region as it was.
try_pop-Holds :
    (class cpu capacity ptr : ℕ) (ts : List (ℕ × Abort)) (s : Cpus) (xs : List ℕ)
    → s.turns ≡ (cpu, Abort.never) ∷ ts
    → Holds s.slab s.region cpu class capacity (ptr ∷ xs)
    → (r : Region) × (try_pop class s ≡ (some ptr, moved s r ts))
      × Holds s.slab r cpu class capacity xs
try_pop-Holds class cpu capacity ptr ts s xs e is =
    let out = PerCpu.pop s.slab cpu class Abort.never s.region in
    let (got, holds) = pop-Holds s.slab cpu class capacity s.region Abort.never (ptr ∷ xs) is in
    (out.1, try_pop_lem class cpu Abort.never ts s e ∙ ap (λ o. (o, moved s out.1 ts)) got, holds)

pop_twice_once :
    (class ptr : ℕ) (s s1 : Cpus)
    → try_pop class s ≡ (some ptr, s1)
    → pop_twice class s ≡ (some ptr, s1)
unfolding pop_twice
pop_twice_once class ptr s s1 e =
    subst
      (λ (o : Option ℕ × Cpus).
        (elim (o.0) [ some p ↦ (some p, o.1) | none ↦ try_pop class o.1 ]) ≡ (some ptr, s1))
      (sym e) refl

pop_twice_again :
    (class ptr : ℕ) (s s1 s2 : Cpus)
    → try_pop class s ≡ (none, s1)
    → try_pop class s1 ≡ (some ptr, s2)
    → pop_twice class s ≡ (some ptr, s2)
unfolding pop_twice
pop_twice_again class ptr s s1 s2 e1 e2 =
    subst
      (λ (o : Option ℕ × Cpus).
        (elim (o.0) [ some p ↦ (some p, o.1) | none ↦ try_pop class o.1 ]) ≡ (some ptr, s2))
      (sym e1) e2

pop_retried :
    (class ptr cpu capacity : ℕ) (abort : Abort) (ts : List (ℕ × Abort)) (s : Cpus) (xs : List ℕ)
    → s.turns ≡ (cpu, abort) ∷ (cpu, Abort.never) ∷ ts
    → PerCpu.pop s.slab cpu class abort s.region ≡ (none, s.region)
    → Holds s.slab s.region cpu class capacity (ptr ∷ xs)
    → Popped class ptr cpu capacity ts s xs
pop_retried class ptr cpu capacity abort ts s xs e refused is =
    let s1 = moved s s.region ((cpu, Abort.never) ∷ ts) in
    let (r, got, holds) = try_pop-Holds class cpu capacity ptr ts s1 xs refl is in
    let first : try_pop class s ≡ (none, s1) =
      try_pop_lem class cpu abort ((cpu, Abort.never) ∷ ts) s e
      ∙ ap (λ (o : Option ℕ × Region). (o.0, moved s o.1 ((cpu, Abort.never) ∷ ts))) refused in
    (r, pop_twice_again class ptr s s1 (moved s r ts) first got, holds)

pop_twice-Holds :
    (class ptr cpu capacity : ℕ) (abort : Abort) (ts : List (ℕ × Abort)) (s : Cpus) (xs : List ℕ)
    → s.turns ≡ attempts cpu abort ts
    → Holds s.slab s.region cpu class capacity (ptr ∷ xs)
    → Popped class ptr cpu capacity ts s xs
pop_twice-Holds class ptr cpu capacity Abort.never ts s xs e is =
    let (r, got, holds) = try_pop-Holds class cpu capacity ptr ts s xs e is in
    (r, pop_twice_once class ptr s (moved s r ts) got, holds)
pop_twice-Holds class ptr cpu capacity Abort.early ts s xs e is =
    pop_retried class ptr cpu capacity Abort.early ts s xs e
      (pop-Holds s.slab cpu class capacity s.region Abort.early (ptr ∷ xs) is) is
pop_twice-Holds class ptr cpu capacity Abort.late ts s xs e is =
    pop_retried class ptr cpu capacity Abort.late ts s xs e
      (pop-Holds s.slab cpu class capacity s.region Abort.late (ptr ∷ xs) is) is

module _ (cfg : ResolvedConfig) (classes : List SizeClassInfo) (fuel : ℕ) (sysconf : ℕ)
    (registers : Bool) where
  -- On a thread that has registered, an object that goes to a stack with room comes back from the next
  -- allocation of its class on the same CPU, though the kernel may abort the first attempt of each; the
  -- stack then is as before, and the shared tiers are not touched.
  pub alloc-dealloc :
      (class ptr cpu capacity : ℕ) (put get : Abort) (ts : List (ℕ × Abort)) (s : Cpus)
      (xs : List ℕ)
      → s.cached_rseq ≡ true
      → s.turns ≡ attempts cpu put (attempts cpu get ts)
      → Holds s.slab s.region cpu class capacity xs
      → length xs < capacity
      → (s1 s2 : Cpus) × (dealloc cfg classes fuel sysconf registers ptr class s ≡ some s1)
        × (alloc cfg classes fuel sysconf registers class s1 ≡ some (ptr, s2))
        × Holds s2.slab s2.region cpu class capacity xs
        × (s2.middle ≡ s.middle)
        × (s2.turns ≡ ts)
  unfolding alloc dealloc
  alloc-dealloc class ptr cpu capacity put get ts s xs cached e is room =
      let later = attempts cpu get ts in
      let (r1, pushed, holds1) = push_twice-Holds class ptr cpu capacity put later s xs e is room in
      let s1 = moved s r1 later in
      let (r2, popped, holds2) = pop_twice-Holds class ptr cpu capacity get ts s1 xs refl holds1 in
      let s2 = moved s r2 ts in
      (
        s1,
        s2,
        if_true _ _ _ cached
            ∙ ap (λ o. unless_done o (dealloc_drain cfg classes fuel sysconf registers ptr class))
                pushed,
        if_true _ _ _ cached
            ∙ ap (λ o. or_else o (alloc_refill cfg classes fuel sysconf registers class)) popped,
        holds2,
        refl,
        refl,
      )
