-- ===== src/Tests/Cpus.antt =====
-- Two threads at one lock, and a slab of two classes for two CPUs.
use rtmalloc.Base.{
  ℕ, ◌≡◌, refl, ap, true, false, List, [], ◌∷◌, Option, some, arith, update, update_ne,
}
use rtmalloc.CpuCache.{Cpus}
use rtmalloc.Allocator.{Route, route}
use rtmalloc.Allocator.Large.{Layout}
use rtmalloc.Allocator.Variants.{percpu_alloc, percpu_dealloc}
use rtmalloc.Allocator.Variants.RoundTrip.{percpu_alloc-percpu_dealloc}
use rtmalloc.PageMap.{set_pages, ensure_node, get, set, register_span}
use rtmalloc.Platform.{page_alloc, trim}
use rtmalloc.SizeClass.{size_to_class}
use rtmalloc.Span.Slab.{zeroed}
use rtmalloc.TransferCache.{Middle}
use rtmalloc.Tests.Caches.{process, classes}
use rtmalloc.Tests.Heap.{small_config, beside}
use rtmalloc.PerCpu.{PerCpuSlab, Region, Abort, empty, init}
use rtmalloc.PerCpu.Layout.{IsLaidOut, total, init-IsLaidOut}
use rtmalloc.PerCpu.Stack.{Holds, PopOutcome, PushOutcome, pop-Holds, push-Holds}
use rtmalloc.Sync.{Pc, SpinMutex, Choice, Event, new, run}
use rtmalloc.Sync.Exclusion.{is_holding, IsOwned, run-IsOwned}
use rtmalloc.Sync.Progress.{turns, turns-holding}

-- Thread 1 takes the lock, thread 2 fails and spins, and thread 1 stores 9 and drops the guard.
abbrev contended : List Event
contended =
    record { thread = 1; choice = Choice.lock; spurious = false }
    ∷ record { thread = 2; choice = Choice.lock; spurious = false }
    ∷ record { thread = 1; choice = Choice.store 9; spurious = false }
    ∷ record { thread = 1; choice = Choice.unlock; spurious = false }
    ∷ []

contended_value : (run contended (new 7)).value ≡ 9
unfolding run update
contended_value = refl

contended_spins : (run contended (new 7)).threads 2 ≡ Pc.spinning
unfolding run update
contended_spins = refl

run-IsOwned_example : (owner : Option ℕ) × IsOwned (run contended (new 7)) owner
run-IsOwned_example = run-IsOwned 7 contended

-- Thread 0 holds the lock, and all others spin.
abbrev held : SpinMutex
held = record { locked = true; value = 7; threads = update (λ t. Pc.spinning) 0 (Pc.holding 7) }

turns-holding_example : (run (turns (some 0) 1) held).threads 1 ≡ Pc.holding 7
unfolding update
turns-holding_example =
    turns-holding held (some 0) 1
      (refl, refl, λ t ne. ap is_holding (update_ne (λ t. Pc.spinning) 0 (Pc.holding 7) t ne)) refl

abbrev blank : Region
blank = record { headers = λ a. record { current = 0; end = 0 }; slots = λ a. 0 }

abbrev two_slots : ℕ → ℕ
two_slots class = 2

init-IsLaidOut_example :
    let (ok, s, r) = init 3 4096 2 6 two_slots (empty, blank) in
    (ok ≡ true) × IsLaidOut 3 2 two_slots s r
unfolding total
init-IsLaidOut_example =
    init-IsLaidOut 3 4096 2 6 two_slots empty blank (omega arith) (omega arith) (omega arith)
      (omega arith)

-- A stack that begins in slot 5, with one pointer of at most two.
abbrev slab : PerCpuSlab
slab = record { slabs = 4096; shift = 6; num_cpus = 2; begins = λ class. 5 }

abbrev one_cached : Region
one_cached = record { headers = λ a. record { current = 6; end = 7 }; slots = λ a. 640 }

one_cached-Holds : Holds slab one_cached 1 1 2 (640 ∷ [])
one_cached-Holds = record {
  current = refl;
  end = refl;
  bound = omega arith;
  small = omega arith;
  slots = (refl, tt);
}

pop-Holds_example : PopOutcome slab 1 1 2 one_cached Abort.never (640 ∷ [])
pop-Holds_example = pop-Holds slab 1 1 2 one_cached Abort.never (640 ∷ []) one_cached-Holds

push-Holds_example : PushOutcome slab 1 1 2 one_cached 960 Abort.late (640 ∷ [])
push-Holds_example = push-Holds slab 1 1 2 one_cached 960 Abort.late (640 ∷ []) one_cached-Holds

-- The same of a thread that has registered, whose first push is aborted between its stores. Pages 5
-- to 7 are a span of the class 1.
abbrev in_class : Middle
in_class = record (process.middle) {
  heap = record beside {
    slabs = record (beside.slabs) { spans = λ p. record zeroed { num_pages = 3; size_class = 1 } };
  };
}

abbrev registered : Cpus
registered = record {
  slab = slab;
  region = one_cached;
  slab_region = 4096;
  cached_rseq = true;
  middle = in_class;
  turns = (1, Abort.late) ∷ (1, Abort.never) ∷ (1, Abort.never) ∷ [];
}

abbrev sixteen : Layout
sixteen = record { size = 16; align = 8 }

sixteen-small : route small_config classes sixteen ≡ Route.small 1
unfolding route size_to_class
sixteen-small = refl

percpu_alloc-percpu_dealloc_example :
    (s1 s2 : Cpus) × (percpu_dealloc small_config classes 9 2 true 20496 sixteen registered
      ≡ some s1)
    × (percpu_alloc small_config classes 9 2 true sixteen s1 ≡ some (20496, s2))
    × Holds s2.slab s2.region 1 1 2 (640 ∷ [])
    × (s2.middle ≡ in_class)
    × (s2.turns ≡ [])
unfolding register_span set_pages set ensure_node page_alloc trim update get
percpu_alloc-percpu_dealloc_example =
    percpu_alloc-percpu_dealloc small_config classes 9 2 true 20496 sixteen sixteen 1 2 Abort.late
      Abort.never [] registered (640 ∷ []) (omega arith) (omega arith) (λ e. absurd (omega arith))
      (omega arith) sixteen-small refl refl one_cached-Holds (omega arith)
