-- ===== src/Tests/Accounts.antt =====
-- A cache with one object, to which another is returned, from which it is taken, and that is flushed.
use rtmalloc.Base.{
  ℕ, ◌≡◌, refl, inl, inr, [], ◌∷◌, Option, none, some, arith, if◌then◌else◌, ◌==◌, update,
  Bool-cases,
}
use rtmalloc.Span.{null}
use rtmalloc.Tests.Caches.{classes, middle}
use rtmalloc.Tests.Heap.{small_config}
use rtmalloc.ThreadCache.{new_free_list, push, pop_batch, pop_rounds}
use rtmalloc.ThreadCache.Accounting.{Objects, IsCached}
use rtmalloc.ThreadCache.Cache.{Process, allocate, deallocate, flush_and_destroy}
use rtmalloc.ThreadCache.Flushing.{IsFlushed, flush_and_destroy-IsFlushed}
use rtmalloc.ThreadCache.FreeListLaws.{IsFree}
use rtmalloc.ThreadCache.Returning.{deallocate-IsCached}
use rtmalloc.ThreadCache.Serving.{allocate-IsCached}
use rtmalloc.ThreadCache.Shorter.{Shorter}
use rtmalloc.TransferCache
use rtmalloc.TransferCache.{insert_range}

abbrev one_object : Objects
one_object cls = if cls == 1 then 48 ∷ [] else []

abbrev holding : Process
holding = record {
  cache = record {
    lists =
        λ cls. if cls == 1 then record new_free_list { head = 48; length = 1 } else new_free_list;
    total_size = 16;
    max_size = 524288;
  };
  middle = record middle { words = λ a. null };
  unclaimed = 33554432;
  races = [];
}

holding-lists : (cls : ℕ) → IsFree (λ a. null) (holding.cache.lists cls) (one_object cls)
holding-lists cls = elim (Bool-cases (cls == 1)) [
  | inl e ↦ rw e (record { links = (refl, λ f. absurd (omega arith), refl, refl); count = refl })
  | inr e ↦ rw e (record { links = refl; count = refl })
]

holding-IsCached : IsCached classes one_object holding
holding-IsCached = record {
  lists = holding-lists;
  apart = λ c d ne a i. ground arith;
  short = λ cls. ground arith;
  total = refl;
  bound = omega arith;
}

abbrev result : Option Process → Process
result none = holding
result (some p) = p

abbrev after_return : Process
after_return = result (deallocate small_config classes 9 112 1 holding)

after_return-eq : deallocate small_config classes 9 112 1 holding ≡ some after_return
unfolding deallocate push update insert_range pop_batch pop_rounds TransferCache.push
after_return-eq = refl

deallocate-IsCached_example :
    (left : Objects) × Shorter (update one_object 1 (112 ∷ 48 ∷ [])) left
    × IsCached classes left after_return
deallocate-IsCached_example =
    deallocate-IsCached small_config classes 9 112 1 one_object holding after_return
      holding-IsCached (omega arith) (λ e. absurd (omega arith)) (λ c. ground arith) (omega arith)
      (omega arith) after_return-eq

-- Both objects are gone as one batch.
after_return-total : after_return.cache.total_size ≡ 0
unfolding deallocate push update insert_range pop_batch pop_rounds TransferCache.push
after_return-total = refl

abbrev after_flush : Process
after_flush = result (flush_and_destroy small_config classes 9 holding)

after_flush-eq : flush_and_destroy small_config classes 9 holding ≡ some after_flush
unfolding flush_and_destroy push update insert_range pop_batch pop_rounds TransferCache.push
    rtmalloc.Central.Insert.insert_range_dropping_lock rtmalloc.PageMap.get
after_flush-eq = refl

flush_and_destroy-IsFlushed_example :
    IsFlushed small_config classes 9 one_object holding after_flush
flush_and_destroy-IsFlushed_example =
    flush_and_destroy-IsFlushed small_config classes 9 one_object holding after_flush
      holding-IsCached refl (omega arith) after_flush-eq

allocate-IsCached_example :
    (q : Process) × (allocate small_config classes 9 1 holding ≡ some (48, q))
    × IsCached classes (update one_object 1 []) q
allocate-IsCached_example =
    allocate-IsCached small_config classes 9 1 48 [] one_object holding holding-IsCached
      (omega arith) refl
