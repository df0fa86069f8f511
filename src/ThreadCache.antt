-- ===== src/ThreadCache.antt =====
-- src/thread_cache.rs: the free lists of a thread's cache.
pub mod Accounting
pub mod Cache
pub mod FreeListLaws
pub mod Limits
pub mod Batched
pub mod Budget
pub mod Handing
pub mod Missing
pub mod Moves
pub mod PopBatch
pub mod Refilling
pub mod Returning
pub mod Shorter
pub mod Flushing
pub mod GivenBack
pub mod Serving
use rtmalloc.Base.{ℕ, zero, suc, ◌+◌, ◌-◌, ◌%◌, ◌^◌, Bool, ltb, ◌==◌, ◌||◌, if◌then◌else◌, update}
use rtmalloc.Base.Rounding.{u32, u32_sub}
use rtmalloc.FreeObject.{Words}
use rtmalloc.Span.{null}

pub record FreeList : Type 0 where
  pub head : ℕ
  pub length : ℕ
  pub max_length : ℕ
  pub length_overages : ℕ
  pub low_water_mark : ℕ

abbrev pub new_free_list : FreeList
new_free_list = record {
  head = null;
  length = 0;
  max_length = 1;
  length_overages = 0;
  low_water_mark = 0;
}

-- The object, or null from an empty list.
unfoldable pub pop : Words → FreeList → ℕ × FreeList
pop w l =
    if l.head == null
    then (null, l)
    else let n = u32_sub l.length 1 in
      (
        l.head,
        record l {
          head = w l.head;
          length = n;
          low_water_mark = if ltb n l.low_water_mark then n else l.low_water_mark;
        },
      )

unfoldable pub push : ℕ → Words × FreeList → Words × FreeList
push obj (w, l) = (update w obj l.head, record l { head = obj; length = u32 (l.length + 1) })

-- `for _ in 1..count` with the rounds that are left: the last object reached, at most.
unfoldable pub find_tail : ℕ → Words → ℕ → ℕ
find_tail zero w tail = tail
find_tail (suc rounds) w tail =
    let rest = find_tail rounds w (w tail) in if w tail == null then tail else rest

unfoldable pub push_batch : ℕ → ℕ → Words × FreeList → Words × FreeList
push_batch head count (w, l) =
    if head == null || count == 0
    then (w, l)
    else let tail = find_tail (count - 1) w head in
      (update w tail l.head, record l { head = head; length = u32 (l.length + count) })

-- What `pop_batch` works on: the list, the objects popped so far and their two ends.
pub record Popped : Type 0 where
  pub words : Words
  pub list : FreeList
  pub popped : ℕ
  pub head : ℕ
  pub tail : ℕ

-- One round of the loop of `pop_batch`.
abbrev pub pop_one : Popped → Popped
pop_one s =
    let obj = s.list.head in
    record {
      words = update s.words obj s.head;
      list = record (s.list) { head = s.words obj; length = u32_sub s.list.length 1 };
      popped = u32 (s.popped + 1);
      head = obj;
      tail = if s.tail == null then obj else s.tail;
    }

-- `while popped < count && !self.head.is_null()` with the rounds that are left.
unfoldable pub pop_rounds : ℕ → Popped → Popped
pop_rounds zero s = s
pop_rounds (suc rounds) s =
    let rest = pop_rounds rounds (pop_one s) in if s.list.head == null then s else rest

unfoldable pub pop_batch : ℕ → Words × FreeList → Popped
pop_batch count (w, l) =
    pop_rounds count (record { words = w; list = l; popped = 0; head = null; tail = null })
