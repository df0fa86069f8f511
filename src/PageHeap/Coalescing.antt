-- ===== src/PageHeap/Coalescing.antt =====
-- src/page_heap.rs: the runs of pages that coalescing merges.
use rtmalloc.Base.{
  ℕ, ◌+◌, ◌-◌, ◌≡◌, refl, sym, ap, ◌∙◌, ◌≢◌, ◌⊎◌, inl, inr, Bool, true, false, not, ◌||◌, arith,
  ◌==◌, if◌then◌else◌, Bool-cases, if_true, if_false, ==→eq, update, update_self, update_ne,
}
use mathlib.Core.Path.{subst}
use rtmalloc.Base.Rounding.{usize}
use rtmalloc.Build.{ResolvedConfig}
use rtmalloc.PageHeap.{Backend, write, remove_free, coalesce_left, coalesce_right, is_free, list_at}
use rtmalloc.PageMap
use rtmalloc.Span
use rtmalloc.Span.{SpanState, Span, Spans, SpanList, null, end_page, set_next, set_prev}
use rtmalloc.Span.Slab.{dealloc_span, inner_dealloc_span}
use rtmalloc.PageHeap.Counting.{count_at-put_list, Taken}

-- The run that a struct describes, without its links.
abbrev pub run : Span → ℕ × ℕ × SpanState
run s = (s.start_page, s.num_pages, s.state)

pub run-update :
    (m : Spans) (p : ℕ) (s : Span) (x : ℕ) → run s ≡ run (m p) → run (update m p s x) ≡ run (m x)
run-update m p s x e = elim (Bool-cases (x == p)) [
  | inl same ↦
      subst (λ (y : ℕ). run (update m p s y) ≡ run (m y)) (sym (==→eq x p same))
        (ap run (update_self m p s) ∙ e)
  | inr other ↦ ap run (update_ne m p s x (λ e. ground (arith, other, e)))
]

run-either :
    (c : Bool) (m m1 m2 : Spans) (x : ℕ)
    → run (m1 x) ≡ run (m x)
    → run (m2 x) ≡ run (m x)
    → run ((if c then m1 else m2) x) ≡ run (m x)
run-either true m m1 m2 x e1 e2 = e1
run-either false m m1 m2 x e1 e2 = e2

-- Unlinking a span changes links only.
pub run-remove :
    (span : ℕ) (m : Spans) (l : SpanList) (x : ℕ) → run ((Span.remove span (m, l)).0 x) ≡ run (m x)
unfolding Span.remove
run-remove span m l x =
    let prev = (m span).prev in
    let next = (m span).next in
    let m1 = if prev == null then m else set_next m prev next in
    let m2 = if next == null then m1 else set_prev m1 next prev in
    let m3 = set_prev m2 span null in
    run-update m3 span (record (m3 span) { next = null }) x refl
    ∙ run-update m2 span (record (m2 span) { prev = null }) x refl
    ∙ run-either (next == null) m1 m1 (set_prev m1 next prev) x refl
        (run-update m1 next (record (m1 next) { prev = prev }) x refl)
    ∙ run-either (prev == null) m m (set_next m prev next) x refl
        (run-update m prev (record (m prev) { next = next }) x refl)

pub run-push :
    (span : ℕ) (m : Spans) (l : SpanList) (x : ℕ) → run ((Span.push span (m, l)).0 x) ≡ run (m x)
unfolding Span.push
run-push span m l x =
    let m1 = set_next m span l.head in
    let m2 = set_prev m1 span null in
    run-either (l.head == null) m2 m2 (set_prev m2 l.head span) x refl
      (run-update m2 l.head (record (m2 l.head) { prev = span }) x refl)
    ∙ run-update m1 span (record (m1 span) { prev = null }) x refl
    ∙ run-update m span (record (m span) { next = l.head }) x refl

-- The span that the page map names before `span` is free and ends where that starts.
abbrev pub FitsLeft : ℕ → ℕ → Backend → Type 0
FitsLeft left span b =
    ((b.spans span).start_page ≢ 0)
    × (left ≢ null)
    × ((b.spans left).state ≡ SpanState.free)
    × (end_page (b.spans left) ≡ (b.spans span).start_page)

-- The span that the page map names behind `span` is free and starts where that ends.
abbrev pub FitsRight : ℕ → ℕ → Backend → Type 0
FitsRight right span b =
    (right ≢ null)
    × ((b.spans right).state ≡ SpanState.free)
    × ((b.spans right).start_page ≡ end_page (b.spans span))

module _ (cfg : ResolvedConfig) where
  run-remove_free :
      (span : ℕ) (b : Backend) (x : ℕ) → run ((remove_free cfg span b).spans x) ≡ run (b.spans x)
  unfolding remove_free
  run-remove_free span b x =
      run-remove span b.spans (list_at cfg.max_pages (b.spans span).num_pages b) x

  remove_free-Taken :
      (span : ℕ) (b : Backend) → Taken cfg (b.spans span).num_pages b (remove_free cfg span b)
  unfolding remove_free Span.remove
  remove_free-Taken span b n =
      let m = (b.spans span).num_pages in
      let (s, l) = Span.remove span (b.spans, list_at cfg.max_pages m b) in
      elim (count_at-put_list cfg m s l b n) [
        | inl (one, old, now) ↦ omega (arith, one, old, now)
        | inr (zero_here, now) ↦ omega (arith, zero_here, now)
      ]

  remove_free-pagemap : (span : ℕ) (b : Backend) → (remove_free cfg span b).pagemap ≡ b.pagemap
  unfolding remove_free
  remove_free-pagemap span b = refl

  remove_free-os : (span : ℕ) (b : Backend) → (remove_free cfg span b).os ≡ b.os
  unfolding remove_free
  remove_free-os span b = refl

  -- A run that grew by another one.
  pub record IsGrown (before after : Backend) (kept gone : ℕ) : Type 0 where
    pub start : (after.spans kept).start_page ≡ (before.spans kept).start_page
    pub pages :
        (after.spans kept).num_pages
        ≡ usize ((before.spans kept).num_pages + (before.spans gone).num_pages)
    pub state : (after.spans kept).state ≡ (before.spans kept).state
    pub others : (x : ℕ) → x ≢ kept → run (after.spans x) ≡ run (before.spans x)
    pub pagemap : after.pagemap ≡ before.pagemap
    pub os : after.os ≡ before.os

  -- The span `gone` taken off its list or not (`middle`), its pages added to `kept`, its struct freed.
  grown :
      (before middle : Backend) (kept gone freed : ℕ)
      → ((x : ℕ) → run (middle.spans x) ≡ run (before.spans x))
      → middle.pagemap ≡ before.pagemap
      → middle.os ≡ before.os
      → let b2 =
          write kept
            (λ t. record t { num_pages = usize (t.num_pages + (middle.spans gone).num_pages) })
            middle in
        IsGrown before (record b2 { slabs = dealloc_span freed b2.slabs }) kept gone
  unfolding dealloc_span inner_dealloc_span
  grown before middle kept gone freed same map os_same =
      let pages = usize ((middle.spans kept).num_pages + (middle.spans gone).num_pages) in
      let wide : Span = record (middle.spans kept) { num_pages = pages } in
      let m = update middle.spans kept wide in
      let here : run (set_next m freed middle.slab.free_list kept) ≡ run wide =
        run-update m freed (record (m freed) { next = middle.slab.free_list }) kept refl
        ∙ ap run (update_self middle.spans kept wide) in
      record {
        start = ap (λ r. r.0) here ∙ ap (λ r. r.0) (same kept);
        pages =
            ap (λ r. r.1) here
            ∙ ap usize (omega (arith, ap (λ r. r.1) (same kept), ap (λ r. r.1) (same gone)));
        state = ap (λ r. r.2) here ∙ ap (λ r. r.2) (same kept);
        others = λ x ne.
            run-update m freed (record (m freed) { next = middle.slab.free_list }) x refl
            ∙ ap run (update_ne middle.spans kept wide x ne)
            ∙ same x;
        pagemap = map;
        os = os_same;
      }

  -- What `coalesce_left` returns: the free span that ends where the span starts, grown by its pages,
  -- or, only where there is no such span, the span, and nothing is changed.
  abbrev pub LeftOutcome : ℕ → Backend → ℕ × Backend → Type 0
  LeftOutcome span b (kept, b') =
      ((kept ≡ span)
        × (b' ≡ b)
        × (¬ FitsLeft (PageMap.get b.pagemap ((b.spans span).start_page - 1)) span b))
      ⊎ ((kept ≡ PageMap.get b.pagemap ((b.spans span).start_page - 1))
          × ((b.spans span).start_page ≢ 0)
          × (kept ≢ null)
          × (is_free cfg (b.spans kept).state ≡ true)
          × (end_page (b.spans kept) ≡ (b.spans span).start_page)
          × IsGrown b b' kept span
          × Taken cfg (b.spans kept).num_pages b b')

  pub coalesce_left-Outcome :
      (span : ℕ) (b : Backend) → LeftOutcome span b (coalesce_left cfg span b)
  unfolding coalesce_left
  coalesce_left-Outcome span b =
      let start = (b.spans span).start_page in
      let left = PageMap.get b.pagemap (start - 1) in
      let l = b.spans left in
      let refused =
        start == 0
        || left == null
        || not (is_free cfg l.state)
        || not (usize (l.start_page + l.num_pages) == start) in
      elim (Bool-cases refused) [
        | inl stays ↦ subst (LeftOutcome span b) (sym (if_true _ _ _ stays)) (
            inl (
              refl,
              refl,
              λ (later, some_span, free, ends).
                  ground (arith, stays, later, some_span, ap (is_free cfg) free, ends),
            ))
        | inr merges ↦ subst (LeftOutcome span b) (sym (if_false _ _ _ merges)) (
            inr (
              refl,
              ground (arith, merges),
              ground (arith, merges),
              ground (arith, merges),
              ground (arith, merges),
              grown b (remove_free cfg left b) left span span (run-remove_free left b)
                  (remove_free-pagemap left b) (remove_free-os left b),
              remove_free-Taken left b,
            ))
      ]

  -- What `coalesce_right` returns: the span, grown by the pages of the free span that starts where it
  -- ends, or, only where there is no such span, with nothing changed.
  abbrev pub RightOutcome : ℕ → Backend → ℕ × Backend → Type 0
  RightOutcome span b (kept, b') =
      (kept ≡ span)
      × (((b' ≡ b) × (¬ FitsRight (PageMap.get b.pagemap (end_page (b.spans span))) span b))
          ⊎ (let right = PageMap.get b.pagemap (end_page (b.spans span)) in
              (right ≢ null)
              × (is_free cfg (b.spans right).state ≡ true)
              × ((b.spans right).start_page ≡ end_page (b.spans span))
              × IsGrown b b' span right
              × Taken cfg (b.spans right).num_pages b b'))

  pub coalesce_right-Outcome :
      (span : ℕ) (b : Backend) → RightOutcome span b (coalesce_right cfg span b)
  unfolding coalesce_right
  coalesce_right-Outcome span b =
      let end = end_page (b.spans span) in
      let right = PageMap.get b.pagemap end in
      let r = b.spans right in
      let refused = right == null || not (is_free cfg r.state) || not (r.start_page == end) in
      elim (Bool-cases refused) [
        | inl stays ↦ subst (RightOutcome span b) (sym (if_true _ _ _ stays)) (
          refl,
          inl (
            refl,
            λ (some_span, free, begins).
                ground (arith, stays, some_span, ap (is_free cfg) free, begins),
          ),
        )
        | inr merges ↦ subst (RightOutcome span b) (sym (if_false _ _ _ merges)) (
          refl,
          inr (
            ground (arith, merges),
            ground (arith, merges),
            ground (arith, merges),
            grown b (remove_free cfg right b) span right right (run-remove_free right b)
                (remove_free-pagemap right b) (remove_free-os right b),
            remove_free-Taken right b,
          ),
        )
      ]
