-- ===== src/Histogram/Suggest/Fewest.antt =====
-- src/histogram.rs: the loop of `suggest_classes` beside any other choice of sizes.
use rtmalloc.Base.{
  ℕ, suc, ◌+◌, ◌^◌, ◌<◌, ◌≤◌, ◌≡◌, refl, ap, ◌≢◌, ◌⊎◌, inl, inr, true, List, [], ◌∷◌, ◌++◌, arith,
  leb, Bool-cases, length, max,
}
use rtmalloc.Base.Rounding.{u64}
use rtmalloc.Histogram.Suggest.{greedy}

abbrev pub sum_of : List (ℕ × ℕ) → ℕ
sum_of [] = 0
sum_of (p ∷ pairs) = p.1 + sum_of pairs

abbrev pub sizes_of : List (ℕ × ℕ) → List ℕ
sizes_of [] = []
sizes_of (p ∷ pairs) = p.0 ∷ sizes_of pairs

abbrev pub AtMost : ℕ → List (ℕ × ℕ) → Type 0
AtMost n [] = Unit
AtMost n (p ∷ pairs) = (p.1 ≤ n) × AtMost n pairs

-- The counts do not rise.
abbrev pub Descending : List (ℕ × ℕ) → Type 0
Descending [] = Unit
Descending (p ∷ pairs) = AtMost p.1 pairs × Descending pairs

-- The second list is some of the pairs of the first, in their order.
abbrev pub Selects : List (ℕ × ℕ) → List (ℕ × ℕ) → Type 0
Selects [] [] = Unit
Selects [] (q ∷ other) = q.1 + 1 ≡ 0
Selects (p ∷ pairs) [] = Unit
Selects (p ∷ pairs) (q ∷ other) = Selects pairs (q ∷ other) ⊎ ((q ≡ p) × Selects pairs other)

Selects-nil : (pairs : List (ℕ × ℕ)) → Selects pairs []
Selects-nil [] = tt
Selects-nil (p ∷ pairs) = tt

Selects-more :
    (p : ℕ × ℕ) (pairs other : List (ℕ × ℕ)) → Selects pairs other → Selects (p ∷ pairs) other
Selects-more p pairs [] s = tt
Selects-more p pairs (q ∷ other) s = inl s

-- Without its first pair a selection is one still.
Selects-tail :
    (pairs : List (ℕ × ℕ)) (q : ℕ × ℕ) (other : List (ℕ × ℕ))
    → Selects pairs (q ∷ other)
    → Selects pairs other
Selects-tail [] q other s = absurd (omega arith)
Selects-tail (p ∷ pairs) q other (inl s) = Selects-more p pairs other (Selects-tail pairs q other s)
Selects-tail (p ∷ pairs) q other (inr (e, s)) = Selects-more p pairs other s

Selects-bound :
    (n : ℕ) (pairs : List (ℕ × ℕ)) (q : ℕ × ℕ) (other : List (ℕ × ℕ))
    → AtMost n pairs
    → Selects pairs (q ∷ other)
    → q.1 ≤ n
Selects-bound n [] q other all s = absurd (omega arith)
Selects-bound n (p ∷ pairs) q other (le, all) (inl s) = Selects-bound n pairs q other all s
Selects-bound n (p ∷ pairs) q other (le, all) (inr (e, s)) = omega (arith, ap (λ z. z.1) e, le)

-- A selection of a descending list without its first pair is one of the rest, and that first pair
-- counts for no more than the head of the list.
first_of-bound :
    (p : ℕ × ℕ) (pairs : List (ℕ × ℕ)) (q : ℕ × ℕ) (other : List (ℕ × ℕ))
    → AtMost p.1 pairs
    → Selects (p ∷ pairs) (q ∷ other)
    → (q.1 ≤ p.1) × Selects pairs other
first_of-bound p pairs q other most (inl s) =
    (Selects-bound p.1 pairs q other most s, Selects-tail pairs q other s)
first_of-bound p pairs q other most (inr (e, s)) = (omega (arith, ap (λ z. z.1) e), s)

pub greedy-fewest :
    (target covered : ℕ) (pairs other : List (ℕ × ℕ))
    → covered + sum_of pairs < 2 ^ 64
    → Descending pairs
    → Selects pairs other
    → target ≤ covered + sum_of other
    → length (greedy target covered pairs) ≤ max 1 (length other)
unfolding greedy
greedy-fewest target covered [] other small desc s reach = omega arith
greedy-fewest target covered (p ∷ pairs) [] small (most, desc) s reach =
    let stop : leb target (u64 (covered + p.1)) ≡ true = ground arith in rw stop (omega arith)
greedy-fewest target covered (p ∷ pairs) (q ∷ other) small (most, desc) s reach =
    let (le, rest) = first_of-bound p pairs q other most s in
    let covered1 = u64 (covered + p.1) in
    elim (Bool-cases (leb target covered1)) [
      | inl stop ↦ rw stop (omega arith)
      | inr on ↦
          let later : length (greedy target covered1 pairs) ≤ max 1 (length other) =
            greedy-fewest target covered1 pairs other (omega (arith, small)) desc rest
              (omega (arith, reach, le, small)) in
          rw on (at_least other later (ground (arith, on, reach, le, small)))
    ]
  where
    at_least :
        (other : List (ℕ × ℕ))
        → length (greedy target (u64 (covered + p.1)) pairs) ≤ max 1 (length other)
        → other ≢ []
        → suc (length (greedy target (u64 (covered + p.1)) pairs)) ≤ max 1 (suc (length other))
    at_least [] later ne = absurd (ne refl)
    at_least (o ∷ other) later ne = omega arith

pub greedy-covers :
    (target covered : ℕ) (pairs : List (ℕ × ℕ))
    → covered + sum_of pairs < 2 ^ 64
    → target ≤ covered + sum_of pairs
    → (chosen left : List (ℕ × ℕ)) × (pairs ≡ chosen ++ left)
      × (greedy target covered pairs ≡ sizes_of chosen)
      × (target ≤ covered + sum_of chosen)
unfolding greedy
greedy-covers target covered [] small reach = ([], [], refl, refl, reach)
greedy-covers target covered (p ∷ pairs) small reach =
    let covered1 = u64 (covered + p.1) in
    elim (Bool-cases (leb target covered1)) [
      | inl stop ↦ (p ∷ [], pairs, refl, rw stop refl, ground (arith, stop, small))
      | inr on ↦
          let (chosen, left, e, f, enough) =
            greedy-covers target covered1 pairs (omega (arith, small))
              (omega (arith, small, reach)) in
          (
            p ∷ chosen,
            left,
            ap (λ ps. p ∷ ps) e,
            rw on (ap (λ ns. p.0 ∷ ns) f),
            omega (arith, enough, small),
          )
    ]
