-- ===== src/Sync/Exclusion.antt =====
-- src/sync.rs: who holds the lock after any schedule.
use mathlib.Core.Path.{subst}
use rtmalloc.Base.{
  ℕ, ◌≡◌, refl, sym, ap, ◌∙◌, ◌≢◌, inl, inr, Bool, true, false, not, ◌&&◌, List, [], ◌∷◌, Option,
  none, some, arith, ◌==◌, Bool-cases, if_true, if_false, ==→eq, update_self, update_ne, update_lem,
}
use rtmalloc.Sync.{
  Pc, SpinMutex, new, Choice, Event, move, exchange, enter, use_guard, advance, step, run,
}

abbrev pub is_holding : Pc → Bool
is_holding (Pc.holding v) = true
is_holding Pc.outside = false
is_holding Pc.spinning = false
is_holding Pc.retrying = false

-- The lock is free and no thread holds it, or one thread holds it, no other does, and the value is
-- the one that the holder saw or stored last.
abbrev pub IsOwned : SpinMutex → Option ℕ → Type 0
IsOwned m none = (m.locked ≡ false) × ((t : ℕ) → is_holding (m.threads t) ≡ false)
IsOwned m (some owner) =
    (m.locked ≡ true)
    × (m.threads owner ≡ Pc.holding m.value)
    × ((t : ℕ) → t ≢ owner → is_holding (m.threads t) ≡ false)

abbrev Owned : SpinMutex → Type 0
Owned m = (owner : Option ℕ) × IsOwned m owner

-- A step of a thread that does not hold the lock to a place where it does not either.
move-IsOwned :
    (m : SpinMutex) (owner : Option ℕ) (t : ℕ) (pc : Pc)
    → IsOwned m owner
    → is_holding (m.threads t) ≡ false
    → is_holding pc ≡ false
    → IsOwned (move t pc m) owner
move-IsOwned m none t pc (free, nobody) was is =
    (free, λ s. rw (update_lem m.threads t pc s) (ground (arith, nobody s)))
move-IsOwned m (some o) t pc (taken, holds, others) was is = (
  taken,
  update_ne m.threads t pc o (λ e. cc) ∙ holds,
  λ s ne. rw (update_lem m.threads t pc s) (ground (arith, others s ne)),
)

exchange-Owned :
    (m : SpinMutex) (owner : Option ℕ) (t : ℕ) (spurious : Bool) (failed : Pc)
    → IsOwned m owner
    → is_holding (m.threads t) ≡ false
    → is_holding failed ≡ false
    → Owned (exchange t spurious failed m)
exchange-Owned m owner t spurious failed is was fails =
    elim (Bool-cases (not m.locked && not spurious)) [
      | inr failing ↦
          subst Owned (sym (if_false _ _ (move t failed m) failing))
            (owner, move-IsOwned m owner t failed is was fails)
      | inl wins ↦ subst Owned (sym (if_true _ (taken) (move t failed m) wins)) (
        some t,
        (
          refl,
          update_self m.threads t (Pc.holding m.value),
          λ s ne.
              ap is_holding (update_ne m.threads t (Pc.holding m.value) s ne)
              ∙ nobody owner is (ground arith) s,
        ),
      )
    ]
  where
    taken : SpinMutex
    taken = move t (Pc.holding m.value) (record m { locked = true })

    nobody :
        (o : Option ℕ) → IsOwned m o → m.locked ≡ false → (s : ℕ) → is_holding (m.threads s) ≡ false
    nobody none free e = free.1
    nobody (some o) held e = absurd (ground (arith, held.0))

-- A holder is the owner.
holder-owner :
    (m : SpinMutex) (owner : Option ℕ) (t v : ℕ)
    → IsOwned m owner
    → m.threads t ≡ Pc.holding v
    → owner ≡ some t
holder-owner m none t v is e = absurd (ground (arith, is.1 t))
holder-owner m (some o) t v is e = elim (Bool-cases (t == o)) [
  | inl same ↦ ap some (sym (==→eq t o same))
  | inr other ↦ absurd (ground (arith, is.2 t))
]

enter-Owned :
    (m : SpinMutex) (owner : Option ℕ) (t : ℕ) (choice : Choice) (spurious : Bool)
    → IsOwned m owner
    → is_holding (m.threads t) ≡ false
    → Owned (enter t choice spurious m)
unfolding enter
enter-Owned m owner t Choice.lock spurious is was =
    exchange-Owned m owner t spurious Pc.spinning is was refl
enter-Owned m owner t Choice.try_lock spurious is was =
    exchange-Owned m owner t false Pc.outside is was refl
enter-Owned m owner t (Choice.store v) spurious is was = (owner, is)
enter-Owned m owner t Choice.unlock spurious is was = (owner, is)

use_guard-Owned :
    (m : SpinMutex) (t : ℕ) (choice : Choice) → IsOwned m (some t) → Owned (use_guard t choice m)
unfolding use_guard
use_guard-Owned m t (Choice.store v) is = (
  some t,
  (
    is.0,
    update_self m.threads t (Pc.holding v),
    λ s ne. ap is_holding (update_ne m.threads t (Pc.holding v) s ne) ∙ is.2 s ne,
  ),
)
use_guard-Owned m t Choice.unlock is =
    (none, (refl, λ s. rw (update_lem m.threads t Pc.outside s) (ground (arith, is.2 s))))
use_guard-Owned m t Choice.lock is = (some t, is)
use_guard-Owned m t Choice.try_lock is = (some t, is)

advance-Owned :
    (m : SpinMutex) (owner : Option ℕ) (t : ℕ) (choice : Choice) (spurious : Bool) (pc : Pc)
    → m.threads t ≡ pc
    → IsOwned m owner
    → Owned (advance t choice spurious pc m)
unfolding advance
advance-Owned m owner t choice spurious Pc.outside e is =
    enter-Owned m owner t choice spurious is (ap is_holding e)
advance-Owned m owner t choice spurious Pc.spinning e is = elim (Bool-cases m.locked) [
  | inl taken ↦ subst Owned (sym (if_true _ m (move t Pc.retrying m) taken)) (owner, is)
  | inr free ↦
      subst Owned (sym (if_false _ m (move t Pc.retrying m) free))
        (owner, move-IsOwned m owner t Pc.retrying is (ap is_holding e) refl)
]
advance-Owned m owner t choice spurious Pc.retrying e is =
    exchange-Owned m owner t spurious Pc.spinning is (ap is_holding e) refl
advance-Owned m owner t choice spurious (Pc.holding v) e is =
    use_guard-Owned m t choice (subst (IsOwned m) (holder-owner m owner t v is e) is)

run-Owned :
    (es : List Event) (m : SpinMutex) (owner : Option ℕ) → IsOwned m owner → Owned (run es m)
unfolding run
run-Owned [] m owner is = (owner, is)
run-Owned (e ∷ es) m owner is =
    let (next, still) =
      advance-Owned m owner e.thread e.choice e.spurious (m.threads e.thread) refl is in
    run-Owned es (step e m) next still

-- After any schedule of any threads at most one thread holds the lock, the flag says whether one
-- does, and the value is the one that the holder saw when it took the lock or stored since: no other
-- thread has changed it.
pub run-IsOwned :
    (value : ℕ) (es : List Event) → (owner : Option ℕ) × IsOwned (run es (new value)) owner
run-IsOwned value es = run-Owned es (new value) none (refl, λ t. refl)
