-- ===== src/Tests/Caches.antt =====
-- Free lists of three objects, stacks of batches, a span that objects are taken from, and the
-- lifetime of a cache.
use rtmalloc.Base.{◌≡◌, refl, List, [], ◌∷◌, Option, none, some, arith, ◌==◌, if◌then◌else◌, update}
use rtmalloc.Base.Rounding.{usize}
use rtmalloc.Central.{
  Central, CentralFreeList, Removal, take_objects, link_objects, nothing_removed,
}
use rtmalloc.Central.Objects.{link_objects-in_order}
use rtmalloc.FreeObject.{Words}
use rtmalloc.FreeObject.Links.{Links}
use rtmalloc.SizeClass.{SizeClassInfo, sentinel}
use rtmalloc.Span.{null, empty}
use rtmalloc.Tests.Heap.{small_config, some_heap}
use rtmalloc.ThreadCache.{
  FreeList, new_free_list, pop, push, find_tail, push_batch, pop_batch, pop_rounds,
}
use rtmalloc.ThreadCache.Budget.{Operation, lifetime, lifetime-returns_budget}
use rtmalloc.ThreadCache.Cache.{
  Process, new_const, isize_lt, grow_max_length_on_fetch, adjust_max_length, increase_rounds,
}
use rtmalloc.ThreadCache.FreeListLaws.{IsFree}
use rtmalloc.ThreadCache.PopBatch.{IsPopped, Kept, pop_batch-IsPopped}
use rtmalloc.TransferCache
use rtmalloc.TransferCache.{TransferCacheInner, Middle, remove_range, insert_range}
use rtmalloc.TransferCache.Stack.{insert_range-remove_range}

-- 64 leads to 80 and 80 to null.
abbrev words : Words
words a = if a == 64 then 80 else null

abbrev of_two : FreeList
of_two = record new_free_list { head = 64; length = 2 }

of_two-IsFree : IsFree words of_two (64 ∷ 80 ∷ [])
of_two-IsFree = record {
  links = (refl, λ e. absurd (omega arith), refl, (refl, λ e. absurd (omega arith), refl, refl));
  count = refl;
}

empty-IsFree : IsFree words new_free_list []
empty-IsFree = record { links = refl; count = refl }

pop_batch-IsPopped_example :
    IsPopped (pop_batch 1 (words, of_two)) (80 ∷ []) (64 ∷ [])
    × Kept
        (64 ∷ 80 ∷ [])
        (record { words = words; list = of_two; popped = 0; head = null; tail = null })
        (pop_batch 1 (words, of_two))
pop_batch-IsPopped_example = pop_batch-IsPopped 1 words of_two (64 ∷ 80 ∷ []) of_two-IsFree

abbrev pub classes : List SizeClassInfo
classes = sentinel ∷ record { size = 16; pages = 1; batch_size = 2 } ∷ []

abbrev pub middle : Middle
middle = record {
  caches = λ i. TransferCache.new;
  central = λ cls. record { size_class = cls; nonempty_spans = empty; num_free = 0 };
  words = words;
  heap = some_heap;
}

insert_range-remove_range_example :
    (s' : Middle) × (insert_range small_config classes 9 1 64 80 2 middle ≡ some s')
    × (s'' : Middle) × (remove_range small_config classes 9 1 1 s' ≡ some (2, 64, s''))
    × (s''.central ≡ middle.central)
    × (s''.words ≡ words)
    × (s''.heap ≡ some_heap)
    × ((s''.caches 1).used ≡ 0)
insert_range-remove_range_example =
    insert_range-remove_range small_config classes 9 1 64 80 1 middle (omega arith)

link_objects-in_order_example :
    Links
      (link_objects 4096 16 3 (words, null)).0
      (link_objects 4096 16 3 (words, null)).1
      (4096 ∷ 4112 ∷ 4128 ∷ [])
link_objects-in_order_example =
    link_objects-in_order 4096 16 3 words (omega arith) (omega arith) (omega arith)

abbrev pub process : Process
process = record { cache = new_const; middle = middle; unclaimed = 33554432; races = [] }

-- Two objects are returned, which fills a batch, and one is fetched back.
abbrev operations : List Operation
operations =
    Operation.deallocating 48 1 ∷ Operation.deallocating 112 1 ∷ Operation.allocating 1 ∷ []

abbrev result : Option Process → Process
result none = process
result (some p) = p

abbrev ended : Process
ended = result (lifetime small_config classes 9 operations process)

lifetime-eq : lifetime small_config classes 9 operations process ≡ some ended
unfolding lifetime rtmalloc.ThreadCache.Cache.deallocate push update insert_range pop_batch
    pop_rounds TransferCache.push rtmalloc.ThreadCache.Cache.allocate pop remove_range
    TransferCache.pop push_batch rtmalloc.Central.Insert.insert_range_dropping_lock
    rtmalloc.PageMap.get
lifetime-eq = refl

lifetime-returns_budget_example : (usize ended.unclaimed ≡ 33554432) × (ended.cache.max_size ≡ 0)
lifetime-returns_budget_example =
    lifetime-returns_budget small_config classes 9 operations process ended refl refl (omega arith)
      (omega arith) lifetime-eq
