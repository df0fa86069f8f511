-- ===== src/PageMap/Ranges.antt =====
-- src/pagemap.rs: `get` after a span is registered or unregistered.
use rtmalloc.Base.{
  ℕ, zero, suc, ◌+◌, ◌-◌, ◌^◌, ◌<◌, ◌≡◌, inl, inr, false, Bool, some, sym, ap, ◌&&◌, ◌||◌, arith,
  ltb, leb, ◌==◌, if◌then◌else◌, Bool-cases, >>=-eq-some, some_inj,
}
use rtmalloc.Base.Rounding.{usize}
use rtmalloc.Platform.{Os}
use rtmalloc.Span.{null}
use rtmalloc.PageMap.{
  PageMap, get, set, set_pages, range_len, register_span, register_span_endpoints, unregister_span,
}
use rtmalloc.PageMap.Laws.{get-set}

-- Whether `q` is one of the `count` pages from `start` on.
abbrev pub within : ℕ → ℕ → ℕ → Bool
within start count q = leb start q && ltb q (start + count)

set_pages-get :
    (page_size rounds page span : ℕ) (s r : PageMap × Os)
    → set_pages page_size rounds page span s ≡ some r
    → (q : ℕ) → get r.0 q ≡ (if within page rounds q then span else get s.0 q)
unfolding set_pages
set_pages-get page_size zero page span s r h q =
    let outside : within page 0 q ≡ false = ground arith in
    rw outside (ap (λ (t : PageMap × Os). get t.0 q) (sym (some_inj h)))
set_pages-get page_size (suc rounds) page span s r h q =
    let (s', first, rest) = >>=-eq-some (set page_size page span s) _ h in
    let later = set_pages-get page_size rounds (page + 1) span s' r rest q in
    let now = get-set page_size page span s.0 s'.0 s.1 s'.1 first q in ground (arith, later, now)

-- If a span is registered, each of its pages maps to it and every other page to what it was.
pub get-register_span :
    (page_size span start count : ℕ) (s r : PageMap × Os)
    → start + count < 2 ^ 64
    → register_span page_size span start count s ≡ some r
    → (q : ℕ) → get r.0 q ≡ (if within start count q then span else get s.0 q)
unfolding register_span
get-register_span page_size span start count s r small h q =
    let rounds : range_len start count ≡ count = omega arith in
    set_pages-get page_size count start span s r (rw rounds at h) q

-- If a span is unregistered, none of its pages maps to a span and every other page to what it was.
get-unregister_span :
    (page_size start count : ℕ) (s r : PageMap × Os)
    → start + count < 2 ^ 64
    → unregister_span page_size start count s ≡ some r
    → (q : ℕ) → get r.0 q ≡ (if within start count q then null else get s.0 q)
unfolding unregister_span
get-unregister_span page_size start count s r small h q =
    let rounds : range_len start count ≡ count = omega arith in
    set_pages-get page_size count start null s r (rw rounds at h) q

-- If the endpoints of a free span are registered, its first and its last page map to it and every
-- other page to what it was.
pub get-register_span_endpoints :
    (page_size span start count : ℕ) (s r : PageMap × Os)
    → 0 < count
    → start + count < 2 ^ 64
    → register_span_endpoints page_size span start count s ≡ some r
    → (q : ℕ) → get r.0 q ≡ (if (q == start) || (q == start + count - 1) then span else get s.0 q)
unfolding register_span_endpoints
get-register_span_endpoints page_size span start count s r p small h q =
    let (s', first, rest) = >>=-eq-some (set page_size start span s) _ h in
    let front = get-set page_size start span s.0 s'.0 s.1 s'.1 first q in
    elim (Bool-cases (ltb 1 count)) [
      | inl many ↦
          let last : usize (start + count - 1) ≡ start + count - 1 = omega arith in
          let back =
            get-set page_size (start + count - 1) span s'.0 r.0 s'.1 r.1 (rw (many, last) at rest)
              q in
          ground (arith, front, back)
      | inr one ↦
          let same : get s'.0 q ≡ get r.0 q =
            ap (λ (t : PageMap × Os). get t.0 q) (some_inj (rw one at rest)) in
          ground (arith, front, same)
    ]
