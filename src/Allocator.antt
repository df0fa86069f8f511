-- ===== src/Allocator.antt =====
-- src/allocator.rs with the feature `std`: the dispatch of `RtMalloc` to the thread's cache, the
-- central lists and the page heap. Counters (`stat_inc!`, `hist_record!`) are left out. The thread's
-- slot `TcSlot` is its `TlsState` with the cache of the `Process`; `TC_CELL.try_with` fails in a
-- thread whose storage is gone, which the state `destroyed` stands for here as well.
pub mod Large
pub mod Routing
pub mod Cutting
pub mod Variants
pub mod Nightly
use rtmalloc.Base.{
  ℕ, zero, suc, ◌+◌, ◌-◌, ◌*◌, ◌/◌, ◌%◌, ◌^◌, Bool, true, false, not, ◌&&◌, ◌||◌, List, Option,
  none, some, ltb, leb, ◌==◌, if◌then◌else◌, ◌>>=◌, update, min, max,
}
use rtmalloc.Allocator.Large.{Layout, alloc_large}
use rtmalloc.Build.{ResolvedConfig}
use rtmalloc.Central
use rtmalloc.Central.Insert
use rtmalloc.PageHeap.{deallocate_span}
use rtmalloc.PageMap
use rtmalloc.SizeClass.{SizeClassInfo, class_to_size, size_to_class}
use rtmalloc.Span.{null}
use rtmalloc.ThreadCache.Cache
use rtmalloc.ThreadCache.Cache.{Process, flush_and_destroy}
use rtmalloc.TransferCache.{Middle, central_at, put_central}

pub data TlsState : Type 0 where
  uninitialized : TlsState
  active : TlsState
  destroyed : TlsState

pub record Thread : Type 0 where
  pub reachable : Bool  -- whether `TC_CELL.try_with` reaches the slot, or its destructor ran
  pub state : TlsState
  pub process : Process

-- `copy_nonoverlapping(from, to, bytes)` and `write_bytes(to, 0, bytes)`.
pub record Copy : Type 0 where
  pub from : ℕ
  pub to : ℕ
  pub bytes : ℕ

pub record Fill : Type 0 where
  pub to : ℕ
  pub bytes : ℕ

-- Where a request goes: to the thread's cache by its class, or to the page heap.
pub data Route : Type 0 where
  small : ℕ → Route
  large : Route

-- The branches of `alloc` for a size that is not 0.
unfoldable pub route : ResolvedConfig → List SizeClassInfo → Layout → Route
route cfg classes layout =
    let class = size_to_class classes layout.size in
    let wide = size_to_class classes (max layout.size layout.align) in
    if leb layout.align 8
    then if class == 0 then Route.large else Route.small class
    else if wide == 0
    then Route.large
    else if ltb cfg.page_size layout.align || not (class_to_size classes wide % layout.align == 0)
    then Route.large
    else Route.small wide

module _ (cfg : ResolvedConfig) (classes : List SizeClassInfo) (fuel : ℕ) where
  unfoldable pub alloc_from_central : ℕ → Middle → Option (ℕ × Middle)
  alloc_from_central size_class s = do
    r ← Central.remove_range cfg classes fuel 1 (central_at size_class s)
    some (
      if r.count == 0 || r.head == null then null else r.head,
      put_central size_class r.central s,
    )

  unfoldable pub dealloc_to_central : ℕ → ℕ → Middle → Option Middle
  dealloc_to_central ptr size_class s = do
    let s1 = record s { words = update s.words ptr null }
    c ← Central.Insert.insert_range cfg ptr 1 (central_at size_class s1)
    some (put_central size_class c s1)

  abbrev pub on_middle : (Middle → Option (ℕ × Middle)) → Thread → Option (ℕ × Thread)
  on_middle f t = do
    (ptr, s) ← f t.process.middle
    some (ptr, record t { process = record (t.process) { middle = s } })

  -- `slot.init()`.
  unfoldable pub slot_init : Thread → Thread
  slot_init t = record t {
    process = Cache.init cfg classes fuel t.process;
    state = TlsState.active;
  }

  -- `slot.destroy()`, at the end of the thread.
  unfoldable pub slot_destroy : Thread → Option Thread
  slot_destroy t = elim (t.state) [
    | TlsState.active ↦ (do
      p ← flush_and_destroy cfg classes fuel t.process
      some (record t { process = p; state = TlsState.destroyed }))
    | _ ↦ some t
  ]

  -- The thread's own part of `alloc_small`, null where it has none.
  abbrev pub cached_alloc : ℕ → Thread → Option (ℕ × Thread)
  cached_alloc class t = do
    (ptr, p) ← Cache.allocate cfg classes fuel class t.process
    some (ptr, record t { process = p })

  unfoldable pub alloc_small : ℕ → Thread → Option (ℕ × Thread)
  unfolding alloc_from_central slot_init
  alloc_small class t = do
    let tried : Option (ℕ × Thread) = elim (t.state) [
      | TlsState.active ↦ cached_alloc class t
      | TlsState.uninitialized ↦ cached_alloc class (slot_init t)
      | TlsState.destroyed ↦ some (null, t)
    ]
    (ptr, t1) ← (if t.reachable then tried else some (null, t))
    let central = on_middle (alloc_from_central class) t1
    if ptr == null then central else some (ptr, t1)

  unfoldable pub dealloc_small : ℕ → ℕ → Thread → Option Thread
  unfolding dealloc_to_central
  dealloc_small ptr class t =
      let central : Option Thread = (do
        s ← dealloc_to_central ptr class t.process.middle
        some (record t { process = record (t.process) { middle = s } })) in
      let tried : Option Thread = elim (t.state) [
        | TlsState.active ↦ (do
          p ← Cache.deallocate cfg classes fuel ptr class t.process
          some (record t { process = p }))
        | _ ↦ central
      ] in
      if t.reachable then tried else central

  unfoldable pub alloc : Layout → Thread → Option (ℕ × Thread)
  unfolding route alloc_small
  alloc layout t =
      if layout.size == 0 then some (layout.align, t) else elim (route cfg classes layout) [
        | Route.small class ↦ alloc_small class t
        | Route.large ↦
            on_middle
              (λ s. do
                (ptr, heap) ← alloc_large cfg layout s.heap
                some (ptr, record s { heap = heap }))
              t
      ]

  -- The pointer, the bytes that are set to 0, and the state.
  unfoldable pub alloc_zeroed : Layout → Thread → Option (ℕ × Option Fill × Thread)
  alloc_zeroed layout t = do
    (ptr, t1) ← alloc layout t
    some (
      ptr,
      if not (ptr == null) && ltb 0 layout.size
          then some (record { to = ptr; bytes = layout.size })
          else none,
      t1,
    )

  abbrev pub span_at : ℕ → Thread → ℕ
  span_at ptr t = PageMap.get t.process.middle.heap.pagemap (ptr / 2 ^ cfg.page_shift)

  unfoldable pub dealloc : ℕ → Layout → Thread → Option Thread
  unfolding dealloc_small
  dealloc ptr layout t =
      let span = span_at ptr t in
      let sc = (t.process.middle.heap.spans span).size_class in
      let to_heap = (do
        heap ← deallocate_span cfg span t.process.middle.heap
        some (record t {
          process = record (t.process) { middle = record (t.process.middle) { heap = heap } };
        })) in
      if layout.size == 0 || span == null
      then some t
      else if sc == 0
      then to_heap
      else dealloc_small ptr sc t

  -- The bytes that the allocation at `ptr` holds.
  unfoldable pub old_usable : ℕ → Layout → Thread → ℕ
  old_usable ptr layout t =
      let s = t.process.middle.heap.spans (span_at ptr t) in
      if span_at ptr t == null
      then layout.size
      else if s.size_class == 0
      then s.num_pages * cfg.page_size
      else class_to_size classes s.size_class

  -- The pointer, the copy that was made, and the state.
  unfoldable pub realloc : ℕ → Layout → ℕ → Thread → Option (ℕ × Option Copy × Thread)
  unfolding alloc dealloc old_usable
  realloc ptr layout new_size t = do
    let new_layout = record layout { size = new_size }
    let fresh = (do (p, t1) ← alloc new_layout t; some (p, none, t1))
    let freed = (do t1 ← dealloc ptr layout t; some (layout.align, none, t1))
    let usable = old_usable ptr layout t
    let moved = (do
      (p, t1) ← alloc new_layout t
      let copy : Copy = record { from = ptr; to = p; bytes = min usable new_size }
      let done = (do t2 ← dealloc ptr layout t1; some (p, some copy, t2))
      if p == null then some (p, none, t1) else done)
    if ptr == null || layout.size == 0
        then fresh
        else if new_size == 0
        then freed
        else if leb new_size usable
        then some (ptr, none, t)
        else moved
