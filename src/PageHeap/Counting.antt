-- ===== src/PageHeap/Counting.antt =====
-- src/page_heap.rs: how many spans the lists by number of pages count.
use rtmalloc.Base.{
  leb, ℕ, ◌+◌, ◌≡◌, refl, sym, ap, ◌∙◌, ◌⊎◌, inl, inr, true, arith, ◌==◌, if◌then◌else◌, Bool-cases,
  if_true, if_false, ==→eq, update, update_self, update_ne,
}
use mathlib.Core.Path.{subst}
use rtmalloc.Base.Rounding.{usize}
use rtmalloc.Build.{ResolvedConfig}
use rtmalloc.PageHeap.{Backend, put_list, list_at}
use rtmalloc.Span.{Spans, SpanList}

module _ (cfg : ResolvedConfig) where
  -- How many spans the list for `n` pages counts, and whether a span of `m` pages is in that list.
  abbrev pub count_at : ℕ → Backend → ℕ
  count_at n b = (list_at cfg.max_pages n b).count

  abbrev pub in_list : ℕ → ℕ → ℕ
  in_list n m =
      if leb n cfg.max_pages
      then if leb m cfg.max_pages then if n == m then 1 else 0 else 0
      else if leb m cfg.max_pages
      then 0
      else 1

  -- The list of a size, put back and read again.
  pub list_at-put_list :
      (n : ℕ) (m : Spans) (l : SpanList) (b : Backend)
      → list_at cfg.max_pages n (put_list cfg.max_pages n (m, l) b) ≡ l
  list_at-put_list n m l b = elim (Bool-cases (leb n cfg.max_pages)) [
    | inl small ↦ rw small (update_self b.free_lists n l)
    | inr large ↦ rw large refl
  ]

  -- What putting back the list for `m` pages does to the count of that for `n`.
  abbrev PutCount : ℕ → Spans → SpanList → Backend → ℕ → Type 0
  PutCount m s l b n =
      ((in_list n m ≡ 1)
        × (count_at n b ≡ count_at m b)
        × (count_at n (put_list cfg.max_pages m (s, l) b) ≡ l.count))
      ⊎ ((in_list n m ≡ 0) × (count_at n (put_list cfg.max_pages m (s, l) b) ≡ count_at n b))

  small_lists :
      (m : ℕ) (s : Spans) (l : SpanList) (b : Backend)
      → leb m cfg.max_pages ≡ true
      → (put_list cfg.max_pages m (s, l) b).free_lists ≡ update b.free_lists m l
  small_lists m s l b e = if_true _ _ _ e

  in_list_self : (m : ℕ) → in_list m m ≡ 1
  in_list_self m = ground arith

  pub count_at-put_list :
      (m : ℕ) (s : Spans) (l : SpanList) (b : Backend) (n : ℕ) → PutCount m s l b n
  count_at-put_list m s l b n =
      let b' = put_list cfg.max_pages m (s, l) b in
      let count = λ (t : SpanList). t.count in
      elim (Bool-cases (leb n cfg.max_pages)) [
        | inl n_small ↦ elim (Bool-cases (leb m cfg.max_pages)) [
          | inl m_small ↦ elim (Bool-cases (n == m)) [
            | inl same ↦
                subst (PutCount m s l b) (sym (==→eq n m same))
                  (inl (in_list_self m, refl, ap count (list_at-put_list m s l b)))
            | inr other ↦ inr (
              rw (n_small, m_small, other) refl,
              ap count (
                  if_true _ _ _ n_small
                  ∙ ap (λ (f : ℕ → SpanList). f n) (small_lists m s l b m_small)
                  ∙ update_ne b.free_lists m l n (λ e. ground (arith, other, e))
                  ∙ sym (if_true _ _ _ n_small)),
            )
          ]
          | inr m_large ↦ inr (
            rw (n_small, m_large) refl,
            ap count (
                if_true _ _ _ n_small
                ∙ ap (λ (f : ℕ → SpanList). f n) (if_false _ _ _ m_large)
                ∙ sym (if_true _ _ _ n_small)),
          )
        ]
        | inr n_large ↦ elim (Bool-cases (leb m cfg.max_pages)) [
          | inl m_small ↦ inr (
            rw (n_large, m_small) refl,
            ap count
                (if_false _ _ _ n_large ∙ if_true _ _ _ m_small ∙ sym (if_false _ _ _ n_large)),
          )
          | inr m_large ↦ inl (
            rw (n_large, m_large) refl,
            ap count (if_false _ _ _ n_large ∙ sym (if_false _ _ _ m_large)),
            ap count (if_false _ _ _ n_large ∙ if_false _ _ _ m_large),
          )
        ]
      ]

  -- A span of `m` pages left its list, and every other list counts what it did.
  abbrev pub Taken : ℕ → Backend → Backend → Type 0
  Taken m b b' = (n : ℕ) → usize (count_at n b' + in_list n m) ≡ usize (count_at n b)
