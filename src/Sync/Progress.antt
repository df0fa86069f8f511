-- ===== src/Sync/Progress.antt =====
-- src/sync.rs: a waiting thread gets the lock.
use rtmalloc.Base.{
  ℕ, ◌≡◌, refl, ap, ◌∙◌, Bool, true, false, not, ◌&&◌, List, [], ◌∷◌, Option, none, some, arith,
  if_true, if_false, update_self, update_ne,
}
use rtmalloc.Sync.{Pc, SpinMutex, Choice, Event, move, advance, step, run}
use rtmalloc.Sync.Exclusion.{IsOwned}

-- A step for the lock whose exchange does not fail for no reason, and a step that drops the guard.
abbrev pub attempt : ℕ → Event
attempt t = record { thread = t; choice = Choice.lock; spurious = false }

abbrev pub release : ℕ → Event
release t = record { thread = t; choice = Choice.unlock; spurious = false }

abbrev pub is_waiting : Pc → Bool
is_waiting Pc.spinning = true
is_waiting Pc.retrying = true
is_waiting Pc.outside = false
is_waiting (Pc.holding v) = false

-- The holder drops the guard, if there is one, and the waiting thread moves twice.
abbrev pub turns : Option ℕ → ℕ → List Event
turns none t = attempt t ∷ attempt t ∷ []
turns (some owner) t = release owner ∷ attempt t ∷ attempt t ∷ []

-- What an attempt does from each place when the lock is free.
attempt-retrying :
    (m : SpinMutex) (t : ℕ)
    → m.locked ≡ false
    → m.threads t ≡ Pc.retrying
    → step (attempt t) m ≡ move t (Pc.holding m.value) (record m { locked = true })
unfolding advance
attempt-retrying m t free e =
    ap (λ pc. advance t Choice.lock false pc m) e
    ∙ if_true (not m.locked && not false) _ _ (ground arith)

attempt-spinning :
    (m : SpinMutex) (t : ℕ)
    → m.locked ≡ false
    → m.threads t ≡ Pc.spinning
    → step (attempt t) m ≡ move t Pc.retrying m
unfolding advance
attempt-spinning m t free e =
    ap (λ pc. advance t Choice.lock false pc m) e ∙ if_false m.locked _ _ free

attempt-holding : (m : SpinMutex) (t v : ℕ) → m.threads t ≡ Pc.holding v → step (attempt t) m ≡ m
unfolding advance
attempt-holding m t v e = ap (λ pc. advance t Choice.lock false pc m) e

two_attempts :
    (m : SpinMutex) (t : ℕ) (pc : Pc)
    → m.locked ≡ false
    → m.threads t ≡ pc
    → is_waiting pc ≡ true
    → (run (attempt t ∷ attempt t ∷ []) m).threads t ≡ Pc.holding m.value
unfolding run
two_attempts m t Pc.outside free e w = cc
two_attempts m t (Pc.holding v) free e w = cc
two_attempts m t Pc.retrying free e w =
    let won = move t (Pc.holding m.value) (record m { locked = true }) in
    let in_hand : won.threads t ≡ Pc.holding m.value =
      update_self m.threads t (Pc.holding m.value) in
    ap (λ r. (step (attempt t) r).threads t) (attempt-retrying m t free e)
    ∙ ap (λ r. r.threads t) (attempt-holding won t m.value in_hand)
    ∙ in_hand
two_attempts m t Pc.spinning free e w =
    let near = move t Pc.retrying m in
    ap (λ r. (step (attempt t) r).threads t) (attempt-spinning m t free e)
    ∙ ap (λ r. r.threads t) (attempt-retrying near t free (update_self m.threads t Pc.retrying))
    ∙ update_self near.threads t (Pc.holding m.value)

-- Where a thread waits for the lock, the holder's drop of its guard, if there is a holder, and two
-- steps of the waiting thread, whose exchange does not fail for no reason, give it the lock with the
-- value that the mutex then has.
pub turns-holding :
    (m : SpinMutex) (owner : Option ℕ) (t : ℕ)
    → IsOwned m owner
    → is_waiting (m.threads t) ≡ true
    → (run (turns owner t) m).threads t ≡ Pc.holding m.value
unfolding advance run
turns-holding m none t is w = two_attempts m t (m.threads t) is.0 refl w
turns-holding m (some o) t is w =
    ap (λ r. (run (attempt t ∷ attempt t ∷ []) r).threads t) released
    ∙ two_attempts (move o Pc.outside (record m { locked = false })) t (m.threads t) refl
        (update_ne m.threads o Pc.outside t (λ e. cc)) w
  where
    released : step (release o) m ≡ move o Pc.outside (record m { locked = false })
    released = ap (λ pc. advance o Choice.unlock false pc m) is.1
