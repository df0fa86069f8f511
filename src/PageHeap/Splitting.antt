-- ===== src/PageHeap/Splitting.antt =====
-- src/page_heap.rs: handing out a span, and the split that `carve_span` makes.
use mathlib.Core.Path.{subst}
use rtmalloc.Base.{
  ℕ, ◌+◌, ◌-◌, ◌≡◌, refl, sym, ap, ◌∙◌, ◌≢◌, Option, none, some, ◌>>=◌, update_self, update_ne,
}
use rtmalloc.Base.Rounding.{usize}
use rtmalloc.Build.{ResolvedConfig}
use rtmalloc.PageHeap.{
  Backend, write, set_state, insert_free, split_span, hand_out, list_at, on_pagemap,
}
use rtmalloc.PageHeap.Coalescing.{run}
use rtmalloc.PageHeap.Inserting.{insert_free-run, insert_free-list_at, insert_free-kept}
use rtmalloc.PageMap.{PageMap, register_span, register_span_endpoints}
use rtmalloc.Platform.{Os}
use rtmalloc.Span
use rtmalloc.Span.{SpanState, Span, SpanList, null}

abbrev pub SameLists : Backend → Backend → Type 0
SameLists b b' = (b'.free_lists ≡ b.free_lists) × (b'.large_spans ≡ b.large_spans)

module _ (cfg : ResolvedConfig) where
  -- What the page map answers for the pages of the span that is handed out.
  abbrev pub Registered : ℕ → ℕ → Backend → PageMap × Os → Option (PageMap × Os) → Type 0
  Registered span pages b s found =
      register_span cfg.page_size span (b.spans span).start_page pages s ≡ found

  -- The span in use with the pages it had, and the other runs as they were; or the page map refused
  -- its pages.
  abbrev pub Handed : ℕ → Backend → Option (ℕ × Backend) → Type 0
  Handed span b none = Registered span (b.spans span).num_pages b (b.pagemap, b.os) none
  Handed span b (some (r, b')) =
      (r ≡ span)
      × (run (b'.spans span)
          ≡ ((b.spans span).start_page, (b.spans span).num_pages, SpanState.in_use))
      × ((x : ℕ) → x ≢ span → run (b'.spans x) ≡ run (b.spans x))
      × Registered span (b.spans span).num_pages b (b.pagemap, b.os) (some (b'.pagemap, b'.os))
      × SameLists b b'

  pub hand_out-Handed : (span : ℕ) (b : Backend) → Handed span b (hand_out cfg span b)
  hand_out-Handed span b =
      let s = b1.spans span in
      answered (register_span cfg.page_size span s.start_page s.num_pages (b1.pagemap, b1.os)) (
        ap
          (λ (t : Span).
            register_span cfg.page_size span t.start_page t.num_pages (b.pagemap, b.os))
          (sym here))
    where
      marked : Span
      marked = set_state SpanState.in_use (b.spans span)

      b1 : Backend
      b1 = write span (set_state SpanState.in_use) b

      here : b1.spans span ≡ marked
      here = update_self b.spans span marked

      answered :
          (found : Option (PageMap × Os))
          → Registered span (b.spans span).num_pages b (b.pagemap, b.os) found
          → Handed span b (do b' ← on_pagemap (λ s. found) b1; some (span, b'))
      answered none e = e
      answered (some (map, os)) e =
          (refl, ap run here, λ x ne. ap run (update_ne b.spans span marked x ne), e, (refl, refl))

  -- What the page map answers for the end pages of the remainder.
  abbrev pub RestRegistered : ℕ → ℕ → ℕ → Backend → PageMap × Os → Option (PageMap × Os) → Type 0
  RestRegistered span remainder num_pages b s found =
      register_span_endpoints cfg.page_size remainder
        (usize ((b.spans span).start_page + num_pages)) ((b.spans span).num_pages - num_pages) s
      ≡ found

  -- The remainder in front in the list of its size, which counts one more.
  abbrev pub Listed : ℕ → ℕ → Backend → Backend → Type 0
  Listed remainder pages b b' =
      ((list_at cfg.max_pages pages b').head ≡ remainder)
      × ((list_at cfg.max_pages pages b').count ≡ usize ((list_at cfg.max_pages pages b).count + 1))

  -- The two parts of a run, and the other runs as they were; or the page map refused the remainder.
  abbrev pub Split : ℕ → ℕ → ℕ → Backend → Option Backend → Type 0
  Split span remainder num_pages b none =
      RestRegistered span remainder num_pages b (b.pagemap, b.os) none
  Split span remainder num_pages b (some b') =
      (run (b'.spans span) ≡ ((b.spans span).start_page, num_pages, (b.spans span).state))
      × (run (b'.spans remainder) ≡ (
        usize ((b.spans span).start_page + num_pages),
        (b.spans span).num_pages - num_pages,
        SpanState.free,
      ))
      × ((x : ℕ) → x ≢ span → x ≢ remainder → run (b'.spans x) ≡ run (b.spans x))
      × RestRegistered span remainder num_pages b (b.pagemap, b.os) (some (b'.pagemap, b'.os))
      × Listed remainder ((b.spans span).num_pages - num_pages) b b'

  insert_free-Listed :
      (remainder pages : ℕ) (b : Backend)
      → (b.spans remainder).num_pages ≡ pages
      → Listed remainder pages b (insert_free cfg remainder b)
  unfolding Span.push
  insert_free-Listed remainder pages b e =
      let there = insert_free-list_at cfg remainder b in
      subst (λ (n : ℕ). Listed remainder n b (insert_free cfg remainder b)) e
        (ap (λ (l : SpanList). l.head) there, ap (λ (l : SpanList). l.count) there)

  pub split_span-Split :
      (span remainder num_pages : ℕ) (b : Backend)
      → remainder ≢ span
      → Split span remainder num_pages b (split_span cfg span remainder num_pages b)
  unfolding split_span
  split_span-Split span remainder num_pages b ne =
      let r = b2.spans remainder in
      answered
        (register_span_endpoints cfg.page_size remainder r.start_page r.num_pages
          (b2.pagemap, b2.os))
        (ap
          (λ (t : Span).
            register_span_endpoints cfg.page_size remainder t.start_page t.num_pages
              (b.pagemap, b.os))
          (sym rest))
    where
      tail : Span
      tail = record (b.spans remainder) {
        start_page = usize ((b.spans span).start_page + num_pages);
        num_pages = (b.spans span).num_pages - num_pages;
        state = SpanState.free;
      }

      b1 : Backend
      b1 = write remainder (λ r. tail) b

      b2 : Backend
      b2 = write span (λ t. record t { num_pages = num_pages }) b1

      front : Span
      front = record (b1.spans span) { num_pages = num_pages }

      rest : b2.spans remainder ≡ tail
      rest = update_ne b1.spans span front remainder ne ∙ update_self b.spans remainder tail

      answered :
          (found : Option (PageMap × Os))
          → RestRegistered span remainder num_pages b (b.pagemap, b.os) found
          → Split span remainder num_pages b
              (do b3 ← on_pagemap (λ s. found) b2; some (insert_free cfg remainder b3))
      answered none e = e
      answered (some (map, os)) e =
          let b3 : Backend = record b2 { slabs = record (b2.slabs) { os = os }; pagemap = map } in
          let pushed = insert_free-run cfg remainder b3 in
          (
            pushed span
                ∙ ap run (update_self b1.spans span front)
                ∙ ap (λ (s : Span). (s.start_page, num_pages, s.state))
                    (update_ne b.spans remainder tail span (λ e. ne (sym e))),
            pushed remainder ∙ ap run rest,
            λ x not_span not_rest.
                pushed x
                ∙ ap run (
                    update_ne b1.spans span front x not_span
                    ∙ update_ne b.spans remainder tail x not_rest),
            e ∙ insert_free-kept cfg remainder b3,
            insert_free-Listed remainder ((b.spans span).num_pages - num_pages) b3
                (ap (λ (s : Span). s.num_pages) rest),
          )
