-- ===== src/PerCpu/Stack.antt =====
-- rseq/src/percpu.rs: `pop` and `push` on the stack of a class, aborted or not.
use rtmalloc.Base.{
  ℕ, suc, ◌+◌, ◌^◌, ◌≤◌, ◌<◌, ◌≡◌, refl, sym, ap, ◌∙◌, ◌⊎◌, inl, inr, true, false, List, [], ◌∷◌,
  none, some, arith, ◌==◌, Bool-cases, length, update, update_self, update_ne,
}
use rtmalloc.Base.Rounding.{u16, u16_sub}
use rtmalloc.PerCpu.{
  SlabHeader, Region, PerCpuSlab, Abort, base_of, header_at, slot_at, header_of, pop, push,
}

-- The slots from `begin` on hold the pointers, the top last.
abbrev pub Filled : (ℕ → ℕ) → ℕ → ℕ → List ℕ → Type 0
Filled slots base begin [] = Unit
Filled slots base begin (x ∷ xs) =
    (slots (slot_at base (begin + length xs)) ≡ x) × Filled slots base begin xs

-- The stack of a class on a CPU holds the pointers, the top first, and has room for `capacity`.
pub record Holds (s : PerCpuSlab) (r : Region) (cpu class capacity : ℕ) (xs : List ℕ) : Type 0 where
  pub current : (header_of s r cpu class).current ≡ s.begins class + length xs
  pub end : (header_of s r cpu class).end ≡ s.begins class + capacity
  pub bound : length xs ≤ capacity
  pub small : s.begins class + capacity < 2 ^ 16
  pub slots : Filled r.slots (base_of s cpu) (s.begins class) xs

Filled-update :
    (slots : ℕ → ℕ) (base begin i v : ℕ) (xs : List ℕ)
    → begin + length xs ≤ i
    → Filled slots base begin xs
    → Filled (update slots (slot_at base i) v) base begin xs
Filled-update slots base begin i v [] le f = tt
Filled-update slots base begin i v (x ∷ xs) le (e, f) = (
  update_ne slots (slot_at base i) v (slot_at base (begin + length xs))
        (λ same. absurd (omega arith))
      ∙ e,
  Filled-update slots base begin i v xs (omega arith) f,
)

-- What `pop` answers and leaves: the top pointer and the stack without it, if the critical section
-- runs to its end and the stack has a pointer, and else nothing, with the region as it was.
abbrev pub PopOutcome : PerCpuSlab → ℕ → ℕ → ℕ → Region → Abort → List ℕ → Type 0
PopOutcome s cpu class capacity r Abort.never (x ∷ xs) =
    ((pop s cpu class Abort.never r).0 ≡ some x)
    × Holds s (pop s cpu class Abort.never r).1 cpu class capacity xs
PopOutcome s cpu class capacity r Abort.never [] = pop s cpu class Abort.never r ≡ (none, r)
PopOutcome s cpu class capacity r Abort.early xs = pop s cpu class Abort.early r ≡ (none, r)
PopOutcome s cpu class capacity r Abort.late xs = pop s cpu class Abort.late r ≡ (none, r)

-- `pop` takes the pointer that was pushed last, or nothing, and then changes nothing: from an empty
-- stack, or when the kernel aborts it at any point.
pub pop-Holds :
    (s : PerCpuSlab) (cpu class capacity : ℕ) (r : Region) (abort : Abort) (xs : List ℕ)
    → Holds s r cpu class capacity xs
    → PopOutcome s cpu class capacity r abort xs
unfolding pop
pop-Holds s cpu class capacity r Abort.early xs is = ground arith
pop-Holds s cpu class capacity r Abort.late xs is = ground arith
pop-Holds s cpu class capacity r Abort.never [] is =
    let none_left : ((header_of s r cpu class).current == s.begins class) ≡ true =
      ground (arith, is.current) in
    rw none_left refl
pop-Holds s cpu class capacity r Abort.never (x ∷ xs) is =
    let some_left : ((header_of s r cpu class).current == s.begins class) ≡ false =
      ground (arith, is.current) in
    let next : u16_sub (header_of s r cpu class).current 1 ≡ s.begins class + length xs =
      omega (arith, is.current, is.small, is.bound) in
    let top = header_at (base_of s cpu) class in
    let written : SlabHeader = record (r.headers top) { current = s.begins class + length xs } in
    rw (some_left, next)
      (
        cc (is.slots.0),
        record {
          current = ap (λ h. h.current) (update_self r.headers top written);
          end = ap (λ h. h.end) (update_self r.headers top written) ∙ is.end;
          bound = omega (arith, is.bound);
          small = is.small;
          slots = is.slots.1;
        },
      )

-- What `push` answers and leaves: the stack with the pointer on top, if the critical section runs to
-- its end and there is room, and else the stack as it was, though a late abort may have overwritten
-- the free slot above it.
abbrev pub PushOutcome : PerCpuSlab → ℕ → ℕ → ℕ → Region → ℕ → Abort → List ℕ → Type 0
PushOutcome s cpu class capacity r ptr Abort.never xs =
    ((length xs < capacity)
      × ((push s cpu class ptr Abort.never r).0 ≡ true)
      × Holds s (push s cpu class ptr Abort.never r).1 cpu class capacity (ptr ∷ xs))
    ⊎ ((length xs ≡ capacity) × (push s cpu class ptr Abort.never r ≡ (false, r)))
PushOutcome s cpu class capacity r ptr Abort.early xs =
    push s cpu class ptr Abort.early r ≡ (false, r)
PushOutcome s cpu class capacity r ptr Abort.late xs =
    ((push s cpu class ptr Abort.late r).0 ≡ false)
    × Holds s (push s cpu class ptr Abort.late r).1 cpu class capacity xs

-- The free slot may be written.
Holds-stored :
    (s : PerCpuSlab) (cpu class capacity : ℕ) (r : Region) (ptr : ℕ) (xs : List ℕ)
    → Holds s r cpu class capacity xs
    → Filled
        (update r.slots (slot_at (base_of s cpu) (header_of s r cpu class).current) ptr)
        (base_of s cpu)
        (s.begins class)
        xs
Holds-stored s cpu class capacity r ptr xs is =
    Filled-update r.slots (base_of s cpu) (s.begins class) (header_of s r cpu class).current ptr xs
      (omega (arith, is.current)) is.slots

-- `push` puts the pointer on top where there is room, and refuses at the capacity; when the kernel
-- aborts it, at any point, the stack is as it was.
pub push-Holds :
    (s : PerCpuSlab) (cpu class capacity : ℕ) (r : Region) (ptr : ℕ) (abort : Abort) (xs : List ℕ)
    → Holds s r cpu class capacity xs
    → PushOutcome s cpu class capacity r ptr abort xs
unfolding push
push-Holds s cpu class capacity r ptr Abort.early xs is = ground arith
push-Holds s cpu class capacity r ptr Abort.late xs is =
    elim (Bool-cases ((header_of s r cpu class).current == (header_of s r cpu class).end)) [
      | inl full ↦ rw full (refl, is)
      | inr room ↦ rw room (
        refl,
        record {
          current = is.current;
          end = is.end;
          bound = is.bound;
          small = is.small;
          slots = Holds-stored s cpu class capacity r ptr xs is;
        },
      )
    ]
push-Holds s cpu class capacity r ptr Abort.never xs is =
    let header = header_of s r cpu class in
    elim (Bool-cases (header.current == header.end)) [
      | inl full ↦ rw full (inr (ground (arith, is.current, is.end), refl))
      | inr room ↦
          let top = header_at (base_of s cpu) class in
          let next : u16 (header.current + 1) ≡ s.begins class + suc (length xs) =
            ground (arith, is.current, is.end, is.bound, is.small) in
          let written : SlabHeader = record header { current = u16 (header.current + 1) } in
          rw room (
            inl (
              ground (arith, is.current, is.end, is.bound),
              refl,
              record {
                current = ap (λ h. h.current) (update_self r.headers top written) ∙ next;
                end = ap (λ h. h.end) (update_self r.headers top written) ∙ is.end;
                bound = ground (arith, is.current, is.end, is.bound);
                small = is.small;
                slots = (
                  ap
                        (λ i.
                          update r.slots (slot_at (base_of s cpu) header.current) ptr
                            (slot_at (base_of s cpu) i))
                        (sym is.current)
                      ∙ update_self r.slots (slot_at (base_of s cpu) header.current) ptr,
                  Holds-stored s cpu class capacity r ptr xs is,
                );
              },
            ))
    ]
