-- ===== src/Tests/Stock.antt =====
-- A list of two spans, with two free objects and one, from which batches are taken.
use rtmalloc.Base.{ℕ, ◌≡◌, refl, [], ◌∷◌, some, arith, if◌then◌else◌, ◌==◌, update}
use rtmalloc.Central.{Central, Removal, nothing_removed, collect}
use rtmalloc.Central.Collected.{Collected}
use rtmalloc.Central.Collect.{collect-Collected}
use rtmalloc.Central.Insert.{add_object}
use rtmalloc.Central.Returned.{at_rest, restocked, add_object-restocked}
use rtmalloc.Central.Stocked.{Shelf, Stocked}
use rtmalloc.FreeObject.{Words}
use rtmalloc.Span.{Span, null}
use rtmalloc.Span.Slab.{zeroed}
use rtmalloc.ThreadCache.{new_free_list}
use rtmalloc.ThreadCache.Accounting.{Objects, IsCached}
use rtmalloc.ThreadCache.Cache.{Process, allocate}
use rtmalloc.ThreadCache.Batched.{allocate-pop}
use rtmalloc.TransferCache.Stack.{IsStack}
use rtmalloc.ThreadCache.Missing.{Refilled, allocate-Refilled}
use rtmalloc.Tests.Caches.{classes, middle}
use rtmalloc.Tests.Heap.{small_config, some_heap}

abbrev next_of : Words
next_of = λ a. if a == 64 then 80 else null

abbrev span_at : ℕ → Span
span_at = λ p.
    if p == 256
    then record zeroed { next = 288; freelist = 64 }
    else record zeroed { prev = 256; freelist = 96 }

abbrev two_spans : Central
two_spans = record {
  list = record { size_class = 1; nonempty_spans = record { head = 256; count = 2 }; num_free = 3 };
  words = next_of;
  heap = record some_heap { slabs = record (some_heap.slabs) { spans = span_at } };
}

abbrev shelf : Shelf
shelf = (256, 64 ∷ 80 ∷ []) ∷ (288, 96 ∷ []) ∷ []

abbrev start : Removal
start = nothing_removed small_config classes two_spans

start-Stocked : Stocked start shelf []
start-Stocked = record {
  list = record { chain = ground arith; count = refl };
  free = (ground arith, λ a i. ground arith, (ground arith, λ a i. refl, tt));
  got = refl;
  apart = λ a i. refl;
  count = refl;
}

collect-Collected_example :
    (r : Removal) × (collect 3 5 start ≡ some r) × Collected 5 shelf [] start r
collect-Collected_example = collect-Collected 3 5 shelf [] start start-Stocked (omega arith)

-- A cache without an object, over the two spans, that fetches two.
abbrev hungry : Process
hungry = record {
  cache = record {
    lists = λ cls. record new_free_list { max_length = 2 };
    total_size = 0;
    max_size = 524288;
  };
  middle = record middle {
    central = λ cls. two_spans.list;
    words = next_of;
    heap = two_spans.heap;
  };
  unclaimed = 33554432;
  races = [];
}

abbrev nothing : Objects
nothing cls = []

hungry-IsCached : IsCached classes nothing hungry
hungry-IsCached = record {
  lists = λ cls. record { links = refl; count = refl };
  apart = λ c d ne a i. refl;
  short = λ cls. omega arith;
  total = refl;
  bound = omega arith;
}

allocate-Refilled_example :
    (x : ℕ) × (q : Process) × (allocate small_config classes 3 1 hungry ≡ some (x, q))
    × Refilled small_config classes 3 1 2 nothing shelf x q
allocate-Refilled_example =
    allocate-Refilled small_config classes 3 1 nothing shelf hungry hungry-IsCached (omega arith)
      refl refl start-Stocked (omega arith) (λ c a i. cc) (omega arith) (omega arith) (omega arith)

-- The same cache where the two objects of the first span are a ready batch.
abbrev ready : Process
ready = record hungry {
  middle = record (hungry.middle) {
    caches = λ cls. record { slots = λ i. record { head = 64; tail = 80 }; used = 1 };
  };
}

ready-IsStack : IsStack 64 (ready.middle.caches 1) ((64, 80) ∷ [])
ready-IsStack = record { used = refl; bound = omega arith; slots = (refl, refl, tt) }

allocate-pop_example :
    (q : Process) × (allocate small_config classes 0 1 ready ≡ some (64, q))
    × IsCached classes (update nothing 1 (80 ∷ [])) q
    × IsStack small_config.max_transfer_slots (q.middle.caches 1) []
allocate-pop_example =
    allocate-pop small_config classes 0 1 64 80 64 (80 ∷ []) [] nothing ready
      (record {
        lists = λ cls. record { links = refl; count = refl };
        apart = λ c d ne a i. refl;
        short = λ cls. omega arith;
        total = refl;
        bound = omega arith;
      })
      (omega arith) refl ready-IsStack (ground arith) refl (λ c a i. refl) (omega arith)
      (omega arith)

-- The object 112 comes back to the first span.
add_object-restocked_example :
    Stocked (at_rest (add_object 112 256 two_spans)) (restocked 112 256 shelf) []
add_object-restocked_example =
    add_object-restocked 112 256 shelf two_spans start-Stocked (λ e. absurd (omega arith)) refl refl
      (λ e. absurd (omega arith))
