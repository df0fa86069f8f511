-- ===== src/Histogram/Suggest/Smallest.antt =====
-- src/histogram.rs: what `suggest_classes` returns for a snapshot.
use mathlib.Core.Path.{subst}
use rtmalloc.Base.{
  ℕ, zero, suc, ◌+◌, ◌^◌, ◌<◌, ◌≤◌, ◌≡◌, refl, sym, ap, ◌∙◌, inl, inr, List, [], ◌∷◌, ◌++◌, arith,
  ltb, ◌==◌, if◌then◌else◌, Bool-cases, length, max,
}
use rtmalloc.Base.Rounding.{u64}
use rtmalloc.Histogram.{Snapshot, num_buckets}
use rtmalloc.Histogram.Suggest.{total_from, pairs_from, greedy, suggest_classes}
use rtmalloc.Histogram.Suggest.Fewest.{
  sum_of, sizes_of, Descending, Selects, greedy-fewest, greedy-covers,
}

module _ {ℓ} {A : Type ℓ} where
  abbrev pub weigh : (A → ℕ) → List A → ℕ
  weigh f [] = 0
  weigh f (x ∷ xs) = f x + weigh f xs

  -- The same elements, each as often: every weight adds up to the same.
  abbrev pub Rearranged : List A → List A → Type ℓ
  Rearranged xs ys = (f : A → ℕ) → weigh f xs ≡ weigh f ys

  weigh-length : (xs : List A) → weigh (λ x. 1) xs ≡ length xs
  weigh-length [] = refl
  weigh-length (x ∷ xs) = omega (arith, weigh-length xs)

weigh-sum_of : (pairs : List (ℕ × ℕ)) → weigh (λ p. p.1) pairs ≡ sum_of pairs
weigh-sum_of [] = refl
weigh-sum_of (p ∷ pairs) = ap (λ n. p.1 + n) (weigh-sum_of pairs)

total_from-sum_of :
    (counts : ℕ → ℕ) (left i : ℕ)
    → total_from counts left i ≡ u64 (sum_of (pairs_from counts left i))
unfolding total_from pairs_from
total_from-sum_of counts zero i = omega arith
total_from-sum_of counts (suc left) i = elim (Bool-cases (ltb 0 (counts i))) [
  | inl some_count ↦ rw some_count (omega (arith, total_from-sum_of counts left (i + 1)))
  | inr no_count ↦ rw no_count (ground (arith, no_count, total_from-sum_of counts left (i + 1)))
]

Selects-sum_of : (pairs other : List (ℕ × ℕ)) → Selects pairs other → sum_of other ≤ sum_of pairs
Selects-sum_of [] [] s = omega arith
Selects-sum_of [] (q ∷ other) s = absurd (omega arith)
Selects-sum_of (p ∷ pairs) [] s = omega arith
Selects-sum_of (p ∷ pairs) (q ∷ other) (inl s) = omega (arith, Selects-sum_of pairs (q ∷ other) s)
Selects-sum_of (p ∷ pairs) (q ∷ other) (inr (e, s)) =
    omega (arith, Selects-sum_of pairs other s, ap (λ z. z.1) e)

-- The suggested sizes are those of the first pairs of the descending list, whose counts reach the
-- target, and no more of them, or one, than another choice that reaches it.
abbrev pub IsSuggestion : List (ℕ × ℕ) → List (ℕ × ℕ) → ℕ → List ℕ → Type 0
IsSuggestion sorted other target sizes =
    (length sizes ≤ max 1 (length other))
    × (chosen left : List (ℕ × ℕ)) × (sorted ≡ chosen ++ left)
    × Rearranged sizes (sizes_of chosen)
    × (target ≤ sum_of chosen)

module _ (target_of : ℕ → ℕ) (sort_by_count : List (ℕ × ℕ) → List (ℕ × ℕ))
    (sort_sizes : List ℕ → List ℕ) where
  greedy-IsSuggestion :
      (target : ℕ) (sorted other : List (ℕ × ℕ))
      → sum_of sorted < 2 ^ 64
      → Descending sorted
      → ((sizes : List ℕ) → Rearranged (sort_sizes sizes) sizes)
      → Selects sorted other
      → target ≤ sum_of other
      → IsSuggestion sorted other target (sort_sizes (greedy target 0 sorted))
  greedy-IsSuggestion target sorted other small desc sorts s reach =
      let sizes = greedy target 0 sorted in
      let (chosen, left, e, f, enough) =
        greedy-covers target 0 sorted (omega (arith, small))
          (omega (arith, Selects-sum_of sorted other s)) in
      let fewest =
        greedy-fewest target 0 sorted other (omega (arith, small)) desc s (omega (arith, reach)) in
      (
        omega (
          arith,
          fewest,
          sorts sizes (λ x. 1),
          weigh-length sizes,
          weigh-length (sort_sizes sizes),
        ),
        chosen,
        left,
        e,
        subst (Rearranged (sort_sizes sizes)) f (sorts sizes),
        omega (arith, enough),
      )

  empty-IsSuggestion :
      (target : ℕ) (sorted other : List (ℕ × ℕ))
      → sum_of sorted ≡ 0
      → Selects sorted other
      → target ≤ sum_of other
      → IsSuggestion sorted other target []
  empty-IsSuggestion target sorted other none s reach =
      (omega arith, [], sorted, refl, λ f. refl, omega (arith, none, Selects-sum_of sorted other s))

  -- For counts whose sum stays below 2^64, sorts that rearrange, and the first of them by descending
  -- count: `suggest_classes` gives the sizes with the highest counts, which together reach the target
  -- wherever some choice of sizes does, and it gives no more of them than any such choice, or one.
  pub suggest_classes-IsSuggestion :
      (snap : Snapshot) (other : List (ℕ × ℕ))
      → let pairs = pairs_from snap.counts num_buckets 0 in
        sum_of pairs < 2 ^ 64
        → Rearranged (sort_by_count pairs) pairs
        → Descending (sort_by_count pairs)
        → ((sizes : List ℕ) → Rearranged (sort_sizes sizes) sizes)
        → Selects (sort_by_count pairs) other
        → target_of (sum_of pairs) ≤ sum_of other
        → IsSuggestion
            (sort_by_count pairs)
            other
            (target_of (sum_of pairs))
            (suggest_classes target_of sort_by_count sort_sizes snap)
  unfolding suggest_classes
  suggest_classes-IsSuggestion snap other small rearranged desc sorts s reach =
      let pairs = pairs_from snap.counts num_buckets 0 in
      let sorted = sort_by_count pairs in
      let same : sum_of sorted ≡ sum_of pairs =
        sym (weigh-sum_of sorted) ∙ rearranged (λ p. p.1) ∙ weigh-sum_of pairs in
      let total_e : total_from snap.counts num_buckets 0 ≡ sum_of pairs =
        omega (arith, total_from-sum_of snap.counts num_buckets 0, small) in
      subst
        (λ n.
          IsSuggestion sorted other (target_of (sum_of pairs))
            (if n == 0 then [] else sort_sizes (greedy (target_of n) 0 sorted)))
        (sym total_e)
        (elim (Bool-cases (sum_of pairs == 0)) [
          | inl none ↦ rw none (
              empty-IsSuggestion (target_of (sum_of pairs)) sorted other
                (ground (arith, none, same)) s reach)
          | inr some_count ↦ rw some_count (
              greedy-IsSuggestion (target_of (sum_of pairs)) sorted other
                (omega (arith, same, small)) desc sorts s reach)
        ])
