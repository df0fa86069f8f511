-- ===== src/ThreadCache/Cache.antt =====
-- src/thread_cache.rs: a thread's cache, over the shared transfer caches. `unclaimed` is
-- `UNCLAIMED_CACHE_SPACE`, an `isize` kept as its 64 bits; the other threads' changes of it that make
-- a `compare_exchange_weak` fail are the list `races`, which holds the value that each leaves.
use rtmalloc.Base.{
  ℕ, zero, suc, ◌+◌, ◌-◌, ◌*◌, ◌/◌, ◌%◌, ◌^◌, Bool, ◌||◌, List, [], ◌∷◌, Option, some, ltb, leb,
  ◌==◌, if◌then◌else◌, ◌>>=◌, update, min, max,
}
use rtmalloc.Base.Rounding.{usize, u32, u32_sub, usize_sub}
use rtmalloc.Build.{ResolvedConfig}
use rtmalloc.SizeClass.{SizeClassInfo, class_info, class_to_size, num_size_classes}
use rtmalloc.Span.{null}
use rtmalloc.ThreadCache.{FreeList, pop, push, new_free_list, push_batch, pop_batch}
use rtmalloc.TransferCache.{Middle, remove_range, insert_range}

pub record ThreadCache : Type 0 where
  pub lists : ℕ → FreeList
  pub total_size : ℕ
  pub max_size : ℕ

abbrev pub new_const : ThreadCache
new_const = record { lists = λ cls. new_free_list; total_size = 0; max_size = 0 }

-- A thread's cache with all that its operations reach.
pub record Process : Type 0 where
  pub cache : ThreadCache
  pub middle : Middle
  pub unclaimed : ℕ
  pub races : List ℕ

abbrev pub is_initialized : ThreadCache → Bool
is_initialized t = ltb 0 t.max_size

-- `a < b` on `isize`, for `b` that is not negative.
abbrev pub isize_lt : ℕ → ℕ → Bool
isize_lt a b = leb (2 ^ 63) a || ltb a b

-- `&mut self.lists[cls]`.
abbrev pub put_list : ℕ → FreeList → Process → Process
put_list cls l p = record p { cache = record (p.cache) { lists = update p.cache.lists cls l } }

abbrev pub put_total : ℕ → Process → Process
put_total n p = record p { cache = record (p.cache) { total_size = n } }

unfoldable pub grow_max_length_on_fetch : ℕ → ℕ → FreeList → FreeList
grow_max_length_on_fetch max_free_list_length batch_size l =
    let batch = u32 batch_size in
    let grown = u32 (l.max_length + batch) in
    record l {
      max_length =
          if ltb l.max_length batch_size
          then u32 (l.max_length + 1)
          else min (u32_sub grown (grown % batch)) max_free_list_length;
      length_overages = 0;
    }

-- `list.max_length.saturating_sub(batch).max(batch)`.
abbrev pub shrunk : ℕ → ℕ → ℕ
shrunk max_length batch = max (max_length - batch) batch

-- The end of `release_to_central`.
unfoldable pub adjust_max_length : ℕ → ℕ → FreeList → FreeList
adjust_max_length max_overages batch l =
    let overages = u32 (l.length_overages + 1) in
    if ltb l.max_length batch
    then record l { max_length = u32 (l.max_length + 1) }
    else if ltb batch l.max_length
    then if ltb max_overages overages
      then record l { max_length = shrunk l.max_length batch; length_overages = 0 }
      else record l { length_overages = overages }
    else l

-- The loop over the failed exchanges: the ones that are left, the new budget and limit.
unfoldable pub increase_rounds : ℕ → List ℕ → ℕ → ℕ → List ℕ × ℕ × ℕ
increase_rounds steal_amount [] current max_size =
    if isize_lt current steal_amount
    then ([], current, max_size)
    else ([], usize_sub current steal_amount, usize (max_size + steal_amount))
increase_rounds steal_amount (seen ∷ races) current max_size =
    let again = increase_rounds steal_amount races seen max_size in
    if isize_lt current steal_amount then (seen ∷ races, current, max_size) else again

module _ (cfg : ResolvedConfig) (classes : List SizeClassInfo) (fuel : ℕ) where
  -- `ThreadCache::new` and `init` claim the first budget.
  unfoldable pub init : Process → Process
  init p = record p {
    unclaimed = usize_sub p.unclaimed cfg.min_per_thread_cache;
    cache = record (p.cache) { max_size = cfg.min_per_thread_cache };
  }

  unfoldable pub increase_cache_limit : Process → Process
  unfolding increase_rounds
  increase_cache_limit p =
      let (races, unclaimed, max_size) =
        increase_rounds cfg.steal_amount p.races p.unclaimed p.cache.max_size in
      record p {
        races = races;
        unclaimed = unclaimed;
        cache = record (p.cache) { max_size = max_size };
      }

  -- `list.pop_batch(n)` with the bytes taken off the total, then `transfer_cache.insert_range`.
  unfoldable pub give_batch : ℕ → ℕ → Process → Option Process
  give_batch cls n p = do
    let batch = pop_batch n (p.middle.words, p.cache.lists cls)
    let p1 =
        put_list cls batch.list (record p { middle = record (p.middle) { words = batch.words } })
    let p2 =
        put_total (usize_sub p1.cache.total_size (batch.popped * (class_info classes cls).size)) p1
    middle ← insert_range cfg classes fuel cls batch.head batch.tail batch.popped p2.middle
    some (record p2 { middle = middle })

  unfoldable pub release_to_central : ℕ → Process → Option Process
  unfolding give_batch adjust_max_length
  release_to_central cls p = do
    let batch = u32 (class_info classes cls).batch_size
    let to_release = min batch (p.cache.lists cls).length
    let released = (do
      p1 ← give_batch cls to_release p
      some (put_list cls (adjust_max_length cfg.max_overages batch (p1.cache.lists cls)) p1))
    if to_release == 0 then some p else released

  -- The end of a round of `scavenge`: the limit shrinks and the low-water mark starts anew.
  unfoldable pub new_epoch : ℕ → FreeList → FreeList
  new_epoch cls l =
      let batch = u32 (class_info classes cls).batch_size in
      record l {
        max_length = if ltb batch l.max_length then shrunk l.max_length batch else l.max_length;
        low_water_mark = l.length;
      }

  unfoldable pub scavenge_class : ℕ → Process → Option Process
  unfolding give_batch new_epoch
  scavenge_class cls p = do
    let lwm = (p.cache.lists cls).low_water_mark
    let given = give_batch cls (if ltb 1 lwm then lwm / 2 else 1) p
    p1 ← (if ltb 0 lwm then given else some p)
    some (put_list cls (new_epoch cls (p1.cache.lists cls)) p1)

  -- The classes from `cls` on, for the rounds left of the loop.
  unfoldable pub scavenge_from : ℕ → ℕ → Process → Option Process
  unfolding scavenge_class
  scavenge_from zero cls p = some p
  scavenge_from (suc rounds) cls p = scavenge_class cls p >>= scavenge_from rounds (cls + 1)

  unfoldable pub scavenge : Process → Option Process
  unfolding scavenge_from increase_cache_limit
  scavenge p = do
    p1 ← scavenge_from (num_size_classes classes - 1) 1 p
    some (increase_cache_limit p1)

  unfoldable pub fetch_from_central : ℕ → Process → Option (ℕ × Process)
  unfolding grow_max_length_on_fetch
  fetch_from_central cls p = do
    let info = class_info classes cls
    let num_to_move = max (min (p.cache.lists cls).max_length info.batch_size) 1
    (count, head, middle) ← remove_range cfg classes fuel cls num_to_move p.middle
    let p1 = record p { middle = middle }
    let (words, l) =
        push_batch (middle.words head) (u32 (count - 1)) (middle.words, p.cache.lists cls)
    let p2 =
        put_total (usize (p1.cache.total_size + (count - 1) * info.size))
          (put_list cls l (record p1 { middle = record middle { words = words } }))
    let p3 = if ltb 0 (count - 1) then p2 else p1
    let grown =
        grow_max_length_on_fetch cfg.max_free_list_length info.batch_size (p3.cache.lists cls)
    if count == 0 || head == null then some (null, p1) else some (head, put_list cls grown p3)

  -- Null where no memory is left.
  unfoldable pub allocate : ℕ → Process → Option (ℕ × Process)
  unfolding fetch_from_central
  allocate cls p = do
    let (obj, l) = pop p.middle.words (p.cache.lists cls)
    let p1 = put_total (usize_sub p.cache.total_size (class_to_size classes cls)) (put_list cls l p)
    if obj == null then fetch_from_central cls (put_list cls l p) else some (obj, p1)

  unfoldable pub deallocate : ℕ → ℕ → Process → Option Process
  unfolding release_to_central scavenge
  deallocate ptr cls p = do
    let (words, l) = push ptr (p.middle.words, p.cache.lists cls)
    let p1 =
        put_total (usize (p.cache.total_size + class_to_size classes cls))
          (put_list cls l (record p { middle = record (p.middle) { words = words } }))
    p2 ← (if ltb l.max_length l.length then release_to_central cls p1 else some p1)
    if ltb p2.cache.max_size p2.cache.total_size then scavenge p2 else some p2

  unfoldable pub flush_class : ℕ → Process → Option Process
  unfolding give_batch
  flush_class cls p = do
    let n = (p.cache.lists cls).length
    let batch = pop_batch n (p.middle.words, p.cache.lists cls)
    let emptied =
        put_list cls batch.list (record p { middle = record (p.middle) { words = batch.words } })
    if ltb 0 n then if ltb 0 batch.popped then give_batch cls n p else some emptied else some p

  unfoldable pub flush_from : ℕ → ℕ → Process → Option Process
  unfolding flush_class
  flush_from zero cls p = some p
  flush_from (suc rounds) cls p = flush_class cls p >>= flush_from rounds (cls + 1)

  unfoldable pub flush_and_destroy : Process → Option Process
  unfolding flush_from
  flush_and_destroy p = do
    p1 ← flush_from (num_size_classes classes - 1) 1 p
    some (
        if ltb 0 p1.cache.max_size
        then record p1 {
          unclaimed = usize (p1.unclaimed + p1.cache.max_size);
          cache = record (p1.cache) { max_size = 0 };
        }
        else p1)
