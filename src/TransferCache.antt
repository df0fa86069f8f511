-- ===== src/TransferCache.antt =====
-- src/transfer_cache.rs: for each size class a stack of batches in front of the central list.
-- `Middle` is the state that the caches of all threads share.
pub mod Stack
pub mod Writes
use rtmalloc.Base.{
  ℕ, zero, suc, ◌+◌, ◌-◌, Bool, true, false, List, Option, none, some, ltb, leb, ◌==◌,
  if◌then◌else◌, ◌>>=◌, update,
}
use rtmalloc.Build.{ResolvedConfig}
use rtmalloc.Central
use rtmalloc.Central.{Central, CentralFreeList, Removal}
use rtmalloc.Central.Insert.{insert_range_dropping_lock}
use rtmalloc.FreeObject.{Words}
use rtmalloc.PageHeap.{Backend}
use rtmalloc.SizeClass.{SizeClassInfo, class_info}
use rtmalloc.Span.{null}

pub record TransferCacheSlot : Type 0 where
  pub head : ℕ
  pub tail : ℕ

pub record TransferCacheInner : Type 0 where
  pub slots : ℕ → TransferCacheSlot
  pub used : ℕ

abbrev pub new : TransferCacheInner
new = record { slots = λ i. record { head = null; tail = null }; used = 0 }

unfoldable pub pop : TransferCacheInner → Option (ℕ × ℕ) × TransferCacheInner
pop t =
    if t.used == 0
    then (none, t)
    else let slot = t.slots (t.used - 1) in
      (some (slot.head, slot.tail), record t { used = t.used - 1 })

-- Whether the batch was taken, for an array of `max_transfer_slots`.
unfoldable pub push : ℕ → ℕ → ℕ → TransferCacheInner → Bool × TransferCacheInner
push max_transfer_slots head tail t = if leb max_transfer_slots t.used then (false, t) else (
  true,
  record { slots = update t.slots t.used (record { head = head; tail = tail }); used = t.used + 1 },
)

pub record Middle : Type 0 where
  pub caches : ℕ → TransferCacheInner
  pub central : ℕ → CentralFreeList
  pub words : Words
  pub heap : Backend

abbrev pub put_cache : ℕ → TransferCacheInner → Middle → Middle
put_cache cls t s = record s { caches = update s.caches cls t }

-- The central list of a class with what it works on, and its replacement.
abbrev pub central_at : ℕ → Middle → Central
central_at cls s = record { list = s.central cls; words = s.words; heap = s.heap }

abbrev pub put_central : ℕ → Central → Middle → Middle
put_central cls c s = record s {
  central = update s.central cls c.list;
  words = c.words;
  heap = c.heap;
}

module _ (cfg : ResolvedConfig) (classes : List SizeClassInfo) (fuel : ℕ) where
  abbrev pub from_central : ℕ → ℕ → Middle → Option (ℕ × ℕ × Middle)
  from_central cls count s = do
    r ← Central.remove_range_dropping_lock cfg classes fuel cls count (central_at cls s)
    some (r.count, r.head, put_central cls r.central s)

  -- The number of objects and the first one, null for none.
  unfoldable pub remove_range : ℕ → ℕ → Middle → Option (ℕ × ℕ × Middle)
  remove_range cls count s =
      let (got, cache) = pop (s.caches cls) in
      elim got [
        | some (head, tail) ↦
            some ((class_info classes cls).batch_size, head, put_cache cls cache s)
        | none ↦ from_central cls count s
      ]

  abbrev pub to_central : ℕ → ℕ → ℕ → Middle → Option Middle
  to_central cls head count s = do
    c ← insert_range_dropping_lock cfg head count (central_at cls s)
    some (put_central cls c s)

  unfoldable pub insert_range : ℕ → ℕ → ℕ → ℕ → Middle → Option Middle
  insert_range cls head tail count s =
      let (taken, cache) = push cfg.max_transfer_slots head tail (s.caches cls) in
      if count == (class_info classes cls).batch_size
      then if taken then some (put_cache cls cache s) else to_central cls head count s
      else to_central cls head count s
