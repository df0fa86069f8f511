-- ===== src/Sync.antt =====
-- src/sync.rs: the spin lock and the mutex over it, as the atomic steps of any number of threads. A
-- schedule names the thread that moves, what it wants where its code leaves a choice, and whether a
-- `compare_exchange_weak` of this step fails for no reason. The data behind the mutex is one word.
pub mod Exclusion
pub mod Progress
use rtmalloc.Base.{ℕ, Bool, true, false, not, ◌&&◌, List, [], ◌∷◌, if◌then◌else◌, update}

-- Where a thread is: outside `lock`, at the load or at the exchange of `lock_slow`, or with the guard.
-- A holder remembers the value that it saw when it took the lock, or that it stored since.
pub data Pc : Type 0 where
  outside : Pc
  spinning : Pc
  retrying : Pc
  holding : ℕ → Pc

pub record SpinMutex : Type 0 where
  pub locked : Bool
  pub value : ℕ
  pub threads : ℕ → Pc

abbrev pub new : ℕ → SpinMutex
new value = record { locked = false; value = value; threads = λ t. Pc.outside }

-- What a thread outside, or one with the guard, does next.
pub data Choice : Type 0 where
  lock : Choice
  try_lock : Choice
  store : ℕ → Choice
  unlock : Choice

pub record Event : Type 0 where
  pub thread : ℕ
  pub choice : Choice
  pub spurious : Bool

abbrev pub move : ℕ → Pc → SpinMutex → SpinMutex
move t pc m = record m { threads = update m.threads t pc }

-- `compare_exchange(false, true)`: the thread holds the lock, or goes where a failure leads it.
abbrev pub exchange : ℕ → Bool → Pc → SpinMutex → SpinMutex
exchange t spurious failed m =
    if not m.locked && not spurious
    then move t (Pc.holding m.value) (record m { locked = true })
    else move t failed m

-- A thread outside: the first exchange of `SpinLock::lock`, or `try_lock`.
unfoldable pub enter : ℕ → Choice → Bool → SpinMutex → SpinMutex
enter t Choice.lock spurious m = exchange t spurious Pc.spinning m
enter t Choice.try_lock spurious m = exchange t false Pc.outside m
enter t (Choice.store v) spurious m = m
enter t Choice.unlock spurious m = m

-- A thread with the guard: `deref_mut` and `drop`.
unfoldable pub use_guard : ℕ → Choice → SpinMutex → SpinMutex
use_guard t (Choice.store v) m = move t (Pc.holding v) (record m { value = v })
use_guard t Choice.unlock m = move t Pc.outside (record m { locked = false })
use_guard t Choice.lock m = m
use_guard t Choice.try_lock m = m

-- One atomic step of `t` from where it is.
unfoldable pub advance : ℕ → Choice → Bool → Pc → SpinMutex → SpinMutex
unfolding enter use_guard
advance t choice spurious Pc.outside m = enter t choice spurious m
advance t choice spurious Pc.spinning m = if m.locked then m else move t Pc.retrying m
advance t choice spurious Pc.retrying m = exchange t spurious Pc.spinning m
advance t choice spurious (Pc.holding v) m = use_guard t choice m

abbrev pub step : Event → SpinMutex → SpinMutex
step e m = advance e.thread e.choice e.spurious (m.threads e.thread) m

unfoldable pub run : List Event → SpinMutex → SpinMutex
unfolding advance
run [] m = m
run (e ∷ es) m = run es (step e m)
