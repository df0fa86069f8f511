-- ===== src/PageHeap/BestFit.antt =====
-- src/page_heap.rs: the search of the large spans.
use rtmalloc.Base.{
  ℕ, zero, suc, ◌+◌, ◌-◌, ◌^◌, ◌≤◌, ◌<◌, ◌≡◌, refl, sym, ap, ◌⊎◌, inl, inr, true, false, ◌&&◌, List,
  [], ◌∷◌, some, arith, ltb, leb, ◌==◌, if◌then◌else◌, Bool-cases, length, eq→==, ne→==, ==→eq,
}
use mathlib.Core.Path.{subst}
use native.Mathlib.Nat.{lt_of_not-le}
use rtmalloc.Build.{ResolvedConfig}
use rtmalloc.PageHeap.{Backend, best_walk, find_best_large_span}
use rtmalloc.Span.{Spans, null}
use rtmalloc.Span.Chain.{Chain, has}
use rtmalloc.Span.Ops.{IsList}

-- The same choice over a list of spans.
best_in : Spans → ℕ → ℕ → ℕ → List ℕ → ℕ
best_in m num_pages best best_pages [] = best
best_in m num_pages best best_pages (x ∷ xs) =
    if leb num_pages (m x).num_pages && ltb (m x).num_pages best_pages
    then if (m x).num_pages == num_pages then x else best_in m num_pages x (m x).num_pages xs
    else best_in m num_pages best best_pages xs

best_walk-best_in :
    (fuel : ℕ) (m : Spans) (num_pages best best_pages before p : ℕ) (xs : List ℕ)
    → Chain m before p xs
    → length xs < fuel
    → best_walk fuel m num_pages best best_pages p ≡ some (best_in m num_pages best best_pages xs)
unfolding best_walk best_in
best_walk-best_in zero m num_pages best best_pages before p xs c enough = elim enough [ ]
best_walk-best_in (suc fuel) m num_pages best best_pages before p [] c enough = rw (eq→== p null c)
best_walk-best_in (suc fuel) m num_pages best best_pages before p (x ∷ xs) (e, ne, back, out, rest)
      enough =
    let some_span : (x == null) ≡ false = ne→== x null ne in
    let taken =
      best_walk-best_in fuel m num_pages x (m x).num_pages x (m x).next xs rest (omega arith) in
    let passed =
      best_walk-best_in fuel m num_pages best best_pages x (m x).next xs rest (omega arith) in
    subst
      (λ t.
        best_walk (suc fuel) m num_pages best best_pages t
        ≡ some (best_in m num_pages best best_pages (x ∷ xs)))
      (sym e) (rw (some_span, taken, passed) (ground arith))

-- `r` is the span that a search of `xs` chose, where `best` was the choice before: that one, if no
-- span of `xs` is large enough and smaller, and else a smallest one that is large enough.
record Better (m : Spans) (num_pages best_pages : ℕ) (xs : List ℕ) (r : ℕ) : Type 0 where
  member : has r xs ≡ true
  fits : num_pages ≤ (m r).num_pages
  smaller : (m r).num_pages < best_pages
  least :
      (x : ℕ) → has x xs ≡ true → num_pages ≤ (m x).num_pages → (m r).num_pages ≤ (m x).num_pages

abbrev NoneBetter : Spans → ℕ → ℕ → List ℕ → Type 0
NoneBetter m num_pages best_pages xs =
    (x : ℕ) → has x xs ≡ true → num_pages ≤ (m x).num_pages → best_pages ≤ (m x).num_pages

abbrev Chosen : Spans → ℕ → ℕ → ℕ → List ℕ → ℕ → Type 0
Chosen m num_pages best best_pages xs r =
    ((r ≡ best) × NoneBetter m num_pages best_pages xs) ⊎ Better m num_pages best_pages xs r

module _ (m : Spans) (num_pages y : ℕ) (ys : List ℕ) where
  pages-at : (x : ℕ) → (x == y) ≡ true → (m x).num_pages ≡ (m y).num_pages
  pages-at x e = ap (λ t. (m t).num_pages) (==→eq x y e)

  extend :
      (P : ℕ → Type 0)
      → P (m y).num_pages
      → ((x : ℕ) → has x ys ≡ true → num_pages ≤ (m x).num_pages → P (m x).num_pages)
      → (x : ℕ) → has x (y ∷ ys) ≡ true
      → num_pages ≤ (m x).num_pages
      → P (m x).num_pages
  extend P here later x i h = elim (Bool-cases (x == y)) [
    | inl e ↦ subst P (sym (pages-at x e)) here
    | inr ne ↦ later x (ground arith) h
  ]

  Chosen-exact :
      (best best_pages : ℕ)
      → (m y).num_pages ≡ num_pages
      → num_pages < best_pages
      → Chosen m num_pages best best_pages (y ∷ ys) y
  Chosen-exact best best_pages e lt = inr (record {
    member = ground arith;
    fits = omega arith;
    smaller = omega arith;
    least = λ x i h. omega arith;
  })

  Chosen-take :
      (best best_pages r : ℕ)
      → num_pages ≤ (m y).num_pages
      → (m y).num_pages < best_pages
      → Chosen m num_pages y (m y).num_pages ys r
      → Chosen m num_pages best best_pages (y ∷ ys) r
  Chosen-take best best_pages r fit lt (inl (e, none_better)) =
      let same : (m r).num_pages ≡ (m y).num_pages = ap (λ t. (m t).num_pages) e in
      inr (record {
        member = ground arith;
        fits = omega arith;
        smaller = omega arith;
        least =
            extend (λ n. (m r).num_pages ≤ n) (omega arith)
              (λ x i h. omega (arith, none_better x i h));
      })
  Chosen-take best best_pages r fit lt (inr b) = inr (record {
    member = ground (arith, b.member);
    fits = b.fits;
    smaller = omega (arith, b.smaller);
    least = extend (λ n. (m r).num_pages ≤ n) (omega (arith, b.smaller)) b.least;
  })

  Chosen-pass :
      (best best_pages r : ℕ)
      → (num_pages ≤ (m y).num_pages → best_pages ≤ (m y).num_pages)
      → Chosen m num_pages best best_pages ys r
      → Chosen m num_pages best best_pages (y ∷ ys) r
  Chosen-pass best best_pages r not_better (inl (e, none_better)) = inl (
    e,
    λ x i h. elim (Bool-cases (x == y)) [
      | inl same ↦ omega (arith, pages-at x same, not_better)
      | inr other ↦ none_better x (ground arith) h
    ],
  )
  Chosen-pass best best_pages r not_better (inr b) = inr (record {
    member = ground (arith, b.member);
    fits = b.fits;
    smaller = b.smaller;
    least = λ x i h. elim (Bool-cases (x == y)) [
      | inl same ↦ omega (arith, pages-at x same, not_better, b.smaller)
      | inr other ↦ b.least x (ground arith) h
    ];
  })

best_in-Chosen :
    (m : Spans) (num_pages best best_pages : ℕ) (xs : List ℕ)
    → Chosen m num_pages best best_pages xs (best_in m num_pages best best_pages xs)
unfolding best_in
best_in-Chosen m num_pages best best_pages [] = inl (refl, λ x i. cc)
best_in-Chosen m num_pages best best_pages (y ∷ ys) =
    elim (Bool-cases (leb num_pages (m y).num_pages && ltb (m y).num_pages best_pages)) [
      | inr worse ↦ rw worse (
          Chosen-pass m num_pages y ys best best_pages _ (ground arith)
            (best_in-Chosen m num_pages best best_pages ys))
      | inl better ↦ elim (Bool-cases ((m y).num_pages == num_pages)) [
        | inl exact ↦
            rw (better, exact)
              (Chosen-exact m num_pages y ys best best_pages (==→eq _ _ exact) (ground arith))
        | inr more ↦
            rw (better, more)
              (Chosen-take m num_pages y ys best best_pages _ (ground arith) (ground arith)
                (best_in-Chosen m num_pages y (m y).num_pages ys))
      ]
    ]

-- On a list of large spans, fewer than 2^64 of them and each of fewer than 2^64 - 1 pages, the search
-- ends. It answers null if no span has enough pages, and otherwise a span of the list that has
-- enough pages and no more than any other that has enough.
pub find_best_large_span_fits :
    (cfg : ResolvedConfig) (num_pages : ℕ) (b : Backend) (xs : List ℕ)
    → IsList b.spans b.large_spans xs
    → length xs < 2 ^ 64
    → ((x : ℕ) → has x xs ≡ true → (b.spans x).num_pages < 2 ^ 64 - 1)
    → (r : ℕ) × (find_best_large_span cfg num_pages b ≡ some r)
      × (((r ≡ null) × ((x : ℕ) → has x xs ≡ true → (b.spans x).num_pages < num_pages))
          ⊎ ((has r xs ≡ true)
              × (num_pages ≤ (b.spans r).num_pages)
              × ((x : ℕ)
                  → has x xs ≡ true
                  → num_pages ≤ (b.spans x).num_pages
                  → (b.spans r).num_pages ≤ (b.spans x).num_pages)))
unfolding find_best_large_span
find_best_large_span_fits cfg num_pages b xs is few bounded = (
  best_in b.spans num_pages null (2 ^ 64 - 1) xs,
  best_walk-best_in (b.large_spans.count + 1) b.spans num_pages null (2 ^ 64 - 1) null
      b.large_spans.head xs is.chain (omega (arith, is.count)),
  said (best_in-Chosen b.spans num_pages null (2 ^ 64 - 1) xs),
)
  where
    said :
        Chosen b.spans num_pages null
          (2 ^ 64 - 1)
          xs
          (best_in b.spans num_pages null (2 ^ 64 - 1) xs)
        → ((best_in b.spans num_pages null (2 ^ 64 - 1) xs ≡ null)
            × ((x : ℕ) → has x xs ≡ true → (b.spans x).num_pages < num_pages))
          ⊎ ((has (best_in b.spans num_pages null (2 ^ 64 - 1) xs) xs ≡ true)
              × (num_pages ≤ (b.spans (best_in b.spans num_pages null (2 ^ 64 - 1) xs)).num_pages)
              × ((x : ℕ)
                  → has x xs ≡ true
                  → num_pages ≤ (b.spans x).num_pages
                  → (b.spans (best_in b.spans num_pages null (2 ^ 64 - 1) xs)).num_pages
                    ≤ (b.spans x).num_pages))
    said (inl (e, none_better)) =
        inl (e, λ x i. lt_of_not-le (λ le. absurd (omega (arith, none_better x i le, bounded x i))))
    said (inr c) = inr (c.member, c.fits, c.least)
