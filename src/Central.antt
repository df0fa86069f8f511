-- ===== src/Central.antt =====
-- src/central_free_list.rs: the middle-end, one list of spans with free objects for each size class.
-- The state of an operation is the list itself, the words of the objects and the page heap with the
-- page map. `none` is a panic of the page heap or the page map, or a loop that runs out of fuel.
pub mod Collect
pub mod Collected
pub mod Insert
pub mod Objects
pub mod Restock
pub mod Returned
pub mod Rounds
pub mod Stocked
pub mod Take
pub mod Writes
use rtmalloc.Base.{
  ℕ, zero, suc, ◌+◌, ◌-◌, ◌*◌, ◌/◌, ◌%◌, ◌^◌, Bool, true, false, not, ◌&&◌, ◌||◌, List, [], ◌∷◌,
  ◌++◌, Option, none, some, ltb, leb, ◌==◌, if◌then◌else◌, ◌>>=◌, update, length,
}
use rtmalloc.Base.Rounding.{usize, u32, u32_sub, usize_sub}
use rtmalloc.Build.{ResolvedConfig}
use rtmalloc.FreeObject.{Words}
use rtmalloc.PageHeap.{Backend, write, on_pagemap, allocate_span, deallocate_span}
use rtmalloc.PageMap
use rtmalloc.PageMap.{register_span}
use rtmalloc.SizeClass.{SizeClassInfo, class_info}
use rtmalloc.Span
use rtmalloc.Span.{Span, SpanState, SpanList, null, is_empty, start_addr}

pub record CentralFreeList : Type 0 where
  pub size_class : ℕ
  pub nonempty_spans : SpanList
  pub num_free : ℕ

abbrev pub new : ℕ → CentralFreeList
new size_class = record { size_class = size_class; nonempty_spans = Span.empty; num_free = 0 }

pub record Central : Type 0 where
  pub list : CentralFreeList
  pub words : Words
  pub heap : Backend

-- `self.nonempty_spans.push(span)` and `self.nonempty_spans.remove(span)`.
abbrev pub put_nonempty : Span.Spans × SpanList → Central → Central
put_nonempty (m, l) c = record c {
  list = record (c.list) { nonempty_spans = l };
  heap = record (c.heap) { slabs = record (c.heap.slabs) { spans = m } };
}

abbrev pub push_nonempty : ℕ → Central → Central
push_nonempty span c = put_nonempty (Span.push span (c.heap.spans, c.list.nonempty_spans)) c

abbrev pub remove_nonempty : ℕ → Central → Central
remove_nonempty span c = put_nonempty (Span.remove span (c.heap.spans, c.list.nonempty_spans)) c

abbrev pub write_span : ℕ → (Span → Span) → Central → Central
write_span span change c = record c { heap = write span change c.heap }

-- What a removal works on: the objects moved so far, as a list from `head`, and their number.
pub record Removal : Type 0 where
  pub central : Central
  pub head : ℕ
  pub count : ℕ

-- The body of the inner loop.
unfoldable pub take_object : ℕ → Removal → Removal
take_object span t =
    let c = t.central in
    let obj = (c.heap.spans span).freelist in
    let c1 =
      write_span span
        (λ s. record s { freelist = c.words obj; allocated_count = u32 (s.allocated_count + 1) })
        c in
    record {
      central = record c1 {
        list = record (c1.list) { num_free = usize_sub c1.list.num_free 1 };
        words = update c1.words obj t.head;
      };
      head = obj;
      count = t.count + 1;
    }

-- `while count < batch_size && !(*span).freelist.is_null()`, for the objects still wanted.
unfoldable pub take_objects : ℕ → ℕ → Removal → Removal
take_objects zero span t = t
take_objects (suc wanted) span t =
    let rest = take_objects wanted span (take_object span t) in
    if (t.central.heap.spans span).freelist == null then t else rest

-- The inner loop on the first span, which leaves the list if it has no object left.
unfoldable pub take_from_head : ℕ → Removal → Removal
take_from_head batch_size t =
    let span = t.central.list.nonempty_spans.head in
    let t1 = take_objects (batch_size - t.count) span t in
    if (t1.central.heap.spans span).freelist == null
    then record t1 { central = remove_nonempty span t1.central }
    else t1

-- Phase 1 of `remove_range_dropping_lock`.
unfoldable pub collect : ℕ → ℕ → Removal → Option Removal
collect zero batch_size t = none
collect (suc fuel) batch_size t =
    let rest = collect fuel batch_size (take_from_head batch_size t) in
    if ltb t.count batch_size && not (is_empty t.central.list.nonempty_spans) then rest else some t

-- `for i in (0..num_objects).rev()`, with the objects still to link: the words and the list.
unfoldable pub link_objects : ℕ → ℕ → ℕ → Words × ℕ → Words × ℕ
link_objects base obj_size zero s = s
link_objects base obj_size (suc i) (w, freelist) =
    let obj = usize (base + i * obj_size) in
    link_objects base obj_size i (update w obj freelist, obj)

module _ (cfg : ResolvedConfig) (classes : List SizeClassInfo) where
  unfoldable pub inject_span : ℕ → Central → Option Central
  inject_span span c = do
    let obj_size = (class_info classes c.list.size_class).size
    let c1 =
        write_span span (λ s. record s { size_class = c.list.size_class; state = SpanState.in_use })
          c
    let s = c1.heap.spans span
    heap ← on_pagemap (register_span cfg.page_size span s.start_page s.num_pages) c1.heap
    let num_objects = usize (s.num_pages * cfg.page_size) / obj_size
    let (words, freelist) =
        link_objects (start_addr cfg.page_shift s) obj_size num_objects (c1.words, null)
    let c2 =
        write_span span
          (λ t. record t {
            total_count = u32 num_objects;
            allocated_count = 0;
            freelist = freelist;
          })
          (record c1 { words = words; heap = heap })
    some (
        push_nonempty span (record c2 {
          list = record (c2.list) { num_free = usize (c2.list.num_free + num_objects) };
        }))

  unfoldable pub populate : Central → Option Central
  unfolding inject_span
  populate c = do
    (span, heap) ← allocate_span cfg (class_info classes c.list.size_class).pages c.heap
    let c1 = record c { heap = heap }
    if span == null then some c1 else inject_span span c1

  -- The outer loop of `CentralFreeList::remove_range`, on fuel.
  unfoldable pub remove_loop : ℕ → ℕ → Removal → Option Removal
  unfolding populate
  remove_loop zero batch_size t = none
  remove_loop (suc fuel) batch_size t =
      let next = remove_loop fuel batch_size (take_from_head batch_size t) in
      let grown = (do
        c ← populate t.central
        let t1 = record t { central = c }
        let rest = remove_loop fuel batch_size (take_from_head batch_size t1)
        if is_empty c.list.nonempty_spans then some t1 else rest) in
      if ltb t.count batch_size
      then if is_empty t.central.list.nonempty_spans then grown else next
      else some t

  abbrev pub nothing_removed : Central → Removal
  nothing_removed c = record { central = c; head = null; count = 0 }

  unfoldable pub remove_range : ℕ → ℕ → Central → Option Removal
  unfolding remove_loop
  remove_range fuel batch_size c = remove_loop fuel batch_size (nothing_removed c)

  -- The rounds of `remove_range_dropping_lock`: collect, and while objects are missing a new span.
  unfoldable pub dropping_loop : ℕ → ℕ → ℕ → Removal → Option Removal
  unfolding inject_span
  dropping_loop zero size_class batch_size t = none
  dropping_loop (suc fuel) size_class batch_size t = do
    t1 ← collect (suc fuel) batch_size t
    let heap1 = t1.central.heap
    let refill = (do
      (span, heap) ← allocate_span cfg (class_info classes size_class).pages heap1
      let c = record (t1.central) { heap = heap }
      let again = (do
        c' ← inject_span span c
        dropping_loop fuel size_class batch_size (record t1 { central = c' }))
      if span == null then some (record t1 { central = c }) else again)
    if leb batch_size t1.count then some t1 else refill

  unfoldable pub remove_range_dropping_lock : ℕ → ℕ → ℕ → Central → Option Removal
  unfolding dropping_loop
  remove_range_dropping_lock fuel size_class batch_size c =
      dropping_loop fuel size_class batch_size (nothing_removed c)
