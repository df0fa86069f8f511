-- ===== src/Rseq/Counters.antt =====
-- rseq/src/ops.rs: counters of each CPU, added to and exchanged under any schedule.
use mathlib.Core.Path.{subst}
use rtmalloc.Base.{
  ℕ, zero, suc, ◌+◌, ◌^◌, ◌<◌, ◌≡◌, refl, ap, ◌≢◌, ◌⊎◌, inl, inr, Bool, true, false, List, [], ◌∷◌,
  none, some, arith, ◌==◌, Bool-cases, update, update_self, update_ne, ==→eq,
}
use rtmalloc.Base.Rounding.{u64}
use rtmalloc.Rseq.{Cells, Exchanged, percpu_add, percpu_cmpxchg}

-- An attempt of some thread to add: where it runs, whether it is aborted, and what it adds.
pub record Attempt : Type 0 where
  pub cpu : ℕ
  pub aborted : Bool
  pub delta : ℕ

-- What the attempts that answered `Some` added, and the array after all of them.
unfoldable pub adds : List Attempt → Cells → ℕ × Cells
unfolding percpu_add
adds [] cells = (0, cells)
adds (a ∷ later) cells =
    let (answer, cells1) = percpu_add a.cpu a.aborted a.delta cells in
    let (added, cells2) = adds later cells1 in
    (elim answer [ none ↦ added | some cpu ↦ a.delta + added ], cells2)

-- The sum that a reader of the first `n` cells makes.
unfoldable pub sum_of : ℕ → Cells → ℕ
sum_of zero cells = 0
sum_of (suc n) cells = u64 (sum_of n cells + cells n)

abbrev pub AllBelow : ℕ → List Attempt → Type 0
AllBelow n [] = Unit
AllBelow n (a ∷ later) = (a.cpu < n) × AllBelow n later

sum_of-small : (n : ℕ) (cells : Cells) → sum_of n cells < 2 ^ 64
unfolding sum_of
sum_of-small zero cells = omega arith
sum_of-small (suc n) cells = omega arith

sum_of-update_above :
    (n cpu v : ℕ) (cells : Cells) → (n < cpu + 1) → sum_of n (update cells cpu v) ≡ sum_of n cells
unfolding sum_of
sum_of-update_above zero cpu v cells lt = refl
sum_of-update_above (suc n) cpu v cells lt = omega (
  arith,
  sum_of-update_above n cpu v cells (omega arith),
  update_ne cells cpu v n (λ e. absurd (omega arith)),
)

-- One cell more by `delta` is the sum more by it.
sum_of-add :
    (n cpu delta : ℕ) (cells : Cells)
    → cpu < n
    → sum_of n (update cells cpu (u64 (cells cpu + delta))) ≡ u64 (sum_of n cells + delta)
unfolding sum_of
sum_of-add zero cpu delta cells lt = absurd (omega arith)
sum_of-add (suc n) cpu delta cells lt = elim (Bool-cases (cpu == n)) [
  | inl last ↦
      let here : cpu ≡ n = ==→eq cpu n last in
      let v = u64 (cells cpu + delta) in
      omega (
        arith,
        sum_of-update_above n cpu v cells (omega arith),
        subst (λ (m : ℕ). update cells cpu v m ≡ v) here (update_self cells cpu v),
        ap cells here,
      )
  | inr before ↦
      let v = u64 (cells cpu + delta) in
      let ne : n ≢ cpu = λ e. ground (arith, before, e) in
      omega
        (arith, sum_of-add n cpu delta cells (ground (arith, before)), update_ne cells cpu v n ne)
]

-- After any attempts on the first `n` CPUs, aborted or not, the sum of the cells is what it was and
-- what the successful attempts added, modulo 2^64: no addition is lost and none is made twice.
pub adds-sum_of :
    (n : ℕ) (later : List Attempt) (cells : Cells)
    → AllBelow n later
    → let (added, cells') = adds later cells in sum_of n cells' ≡ u64 (sum_of n cells + added)
unfolding adds
adds-sum_of n [] cells all = omega (arith, sum_of-small n cells)
adds-sum_of n (a ∷ later) cells (lt, all) =
    let cells1 = update cells a.cpu (u64 (cells a.cpu + a.delta)) in
    elim (Bool-cases a.aborted) [
      | inl gone ↦ rw gone (adds-sum_of n later cells all)
      | inr done ↦
          rw done
            (omega (arith, adds-sum_of n later cells1 all, sum_of-add n a.cpu a.delta cells lt))
    ]

-- What `percpu_cmpxchg` answers: the CPU and the old value when it stored, and else a value and an
-- unchanged array. That value is what the cell holds and not the one expected, or the operation was
-- aborted, and then it is the one expected.
abbrev pub ExchangeOutcome : ℕ → Bool → ℕ → ℕ → Cells → Exchanged × Cells → Type 0
ExchangeOutcome cpu aborted expected new cells (Exchanged.ok at old, after) =
    (at ≡ cpu)
    × (aborted ≡ false)
    × (old ≡ expected)
    × (cells cpu ≡ expected)
    × (after cpu ≡ new)
    × ((other : ℕ) → other ≢ cpu → after other ≡ cells other)
ExchangeOutcome cpu aborted expected new cells (Exchanged.err old, after) =
    (after ≡ cells)
    × (((aborted ≡ true) × (old ≡ expected))
        ⊎ ((aborted ≡ false) × (old ≡ cells cpu) × (cells cpu ≢ expected)))

-- `percpu_cmpxchg` answers `Ok` exactly where it stored the new value, in the cell of its CPU alone,
-- which held the expected one; where it answers `Err` nothing is changed, and the value of the answer
-- differs from the expected one exactly where the cell's does and the kernel did not abort it.
pub percpu_cmpxchg-Outcome :
    (cpu : ℕ) (aborted : Bool) (expected new : ℕ) (cells : Cells)
    → ExchangeOutcome cpu aborted expected new cells (percpu_cmpxchg cpu aborted expected new cells)
unfolding percpu_cmpxchg
percpu_cmpxchg-Outcome cpu true expected new cells = (refl, inl (refl, refl))
percpu_cmpxchg-Outcome cpu false expected new cells = elim (Bool-cases (cells cpu == expected)) [
  | inl same ↦
      let e = ==→eq (cells cpu) expected same in
      rw same
        (refl, refl, e, e, update_self cells cpu new, λ other ne. update_ne cells cpu new other ne)
  | inr differs ↦ rw differs (refl, inr (refl, refl, λ e. ground (arith, differs, e)))
]
