-- ===== src/Span.antt =====
-- src/span.rs: the metadata of a run of pages and the doubly linked list of spans. A pointer is the
-- address as a number, `null` is 0, and the memory that holds the `Span` structs is a function from
-- addresses, so that lists share and alias the structs as in the source.
pub mod Chain
pub mod Ops
pub mod Unlink
pub mod Slab
use rtmalloc.Base.{ℕ, ◌+◌, ◌-◌, ◌*◌, ◌%◌, ◌^◌, Bool, ◌==◌, if◌then◌else◌, update}
use rtmalloc.Base.Rounding.{usize, usize_sub}

abbrev pub null : ℕ
null = 0

pub data SpanState : Type 0 where
  free : SpanState
  in_use : SpanState

pub record Span : Type 0 where
  pub start_page : ℕ
  pub num_pages : ℕ
  pub size_class : ℕ
  pub state : SpanState
  pub allocated_count : ℕ
  pub total_count : ℕ
  pub freelist : ℕ
  pub prev : ℕ
  pub next : ℕ

abbrev pub Spans : Type 0
Spans = ℕ → Span

abbrev pub start_addr : ℕ → Span → ℕ
start_addr page_shift s = usize (s.start_page * 2 ^ page_shift)

abbrev pub byte_size : ℕ → Span → ℕ
byte_size page_size s = usize (s.num_pages * page_size)

abbrev pub end_page : Span → ℕ
end_page s = usize (s.start_page + s.num_pages)

-- `(*p).next = q` and `(*p).prev = q`.
abbrev pub set_next : Spans → ℕ → ℕ → Spans
set_next m p q = update m p (record (m p) { next = q })

abbrev pub set_prev : Spans → ℕ → ℕ → Spans
set_prev m p q = update m p (record (m p) { prev = q })

pub record SpanList : Type 0 where
  pub head : ℕ
  pub count : ℕ

abbrev pub empty : SpanList
empty = record { head = null; count = 0 }

abbrev pub is_empty : SpanList → Bool
is_empty l = l.head == null

unfoldable pub push : ℕ → Spans × SpanList → Spans × SpanList
push span (m, l) =
    let m1 = set_next m span l.head in
    let m2 = set_prev m1 span null in
    let m3 = if l.head == null then m2 else set_prev m2 l.head span in
    (m3, record { head = span; count = usize (l.count + 1) })

unfoldable pub remove : ℕ → Spans × SpanList → Spans × SpanList
remove span (m, l) =
    let prev = (m span).prev in
    let next = (m span).next in
    let m1 = if prev == null then m else set_next m prev next in
    let head = if prev == null then next else l.head in
    let m2 = if next == null then m1 else set_prev m1 next prev in
    let m3 = set_prev m2 span null in
    let m4 = set_next m3 span null in (m4, record { head = head; count = usize_sub l.count 1 })

-- The span that is popped, and what is left; `null` from an empty list.
unfoldable pub pop : Spans × SpanList → ℕ × Spans × SpanList
pop (m, l) =
    if l.head == null then (null, m, l) else let (m', l') = remove l.head (m, l) in (l.head, m', l')
