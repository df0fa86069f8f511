-- ===== src/PageHeap/Buckets.antt =====
-- src/page_heap.rs: the search of the exact lists that `allocate_span` starts with.
use rtmalloc.Base.{
  ℕ, zero, suc, ◌+◌, ◌-◌, ◌≤◌, ◌<◌, ◌≡◌, inl, inr, true, false, Option, none, some, arith, ◌==◌,
  Bool-cases, ==→eq,
}
use mathlib.Core.Path.{subst}
use rtmalloc.Build.{ResolvedConfig}
use rtmalloc.PageHeap.{Backend, first_bucket, bucket_for}
use rtmalloc.Span.{is_empty}

-- The lists of `n` to `m - 1` pages are empty.
abbrev Empties : Backend → ℕ → ℕ → Type 0
Empties b n m = (k : ℕ) → n ≤ k → k < m → is_empty (b.free_lists k) ≡ true

Empties-cons :
    (b : Backend) (n m : ℕ) → is_empty (b.free_lists n) ≡ true → Empties b (n + 1) m → Empties b n m
Empties-cons b n m e es k le lt = elim (Bool-cases (k == n)) [
  | inl here ↦ subst (λ t. is_empty (b.free_lists t) ≡ true) (==→eq n k (ground arith)) e
  | inr later ↦ es k (ground arith) lt
]

-- What a search from `n` below `last` answers: the first list that is not empty, or none is.
abbrev pub Found : Backend → ℕ → ℕ → Option ℕ → Type 0
Found b n last none = Empties b n last
Found b n last (some k) = (n ≤ k) × (k < last) × (is_empty (b.free_lists k) ≡ false) × Empties b n k

module _ (cfg : ResolvedConfig) where
  Found-step :
      (b : Backend) (n last : ℕ) (o : Option ℕ)
      → is_empty (b.free_lists n) ≡ true
      → Found b (n + 1) last o
      → Found b n last o
  Found-step b n last none e f = Empties-cons b n last e f
  Found-step b n last (some k) e (le, lt, full, es) =
      (omega arith, lt, full, Empties-cons b n k e es)

  first_bucket-Found :
      (rounds n : ℕ) (b : Backend) → Found b n (n + rounds) (first_bucket cfg rounds n b)
  unfolding first_bucket
  first_bucket-Found zero n b = λ k le lt. absurd (omega arith)
  first_bucket-Found (suc rounds) n b = elim (Bool-cases (is_empty (b.free_lists n))) [
    | inl e ↦ rw e (
        Found-step b n (n + suc rounds) (first_bucket cfg rounds (n + 1) b) e (
          subst (λ t. Found b (n + 1) t (first_bucket cfg rounds (n + 1) b)) (omega arith)
            (first_bucket-Found rounds (n + 1) b)))
    | inr full ↦ rw full (omega arith, omega arith, full, λ k le lt. absurd (omega arith))
  ]

  -- The search of the exact lists finds the smallest number of pages, from the one asked for to
  -- `MAX_PAGES`, whose list has a span, and answers none only if all those lists are empty.
  pub bucket_for-smallest :
      (num_pages : ℕ) (b : Backend)
      → num_pages ≤ cfg.max_pages + 1
      → Found b num_pages (cfg.max_pages + 1) (bucket_for cfg num_pages b)
  bucket_for-smallest num_pages b le =
      subst (λ t. Found b num_pages t (bucket_for cfg num_pages b)) (omega arith)
        (first_bucket-Found (cfg.max_pages + 1 - num_pages) num_pages b)
