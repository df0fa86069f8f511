-- ===== src/Histogram/Merging.antt =====
-- src/histogram.rs: what merging keeps, and that it ends.
use mathlib.Core.Path.{subst}
use rtmalloc.Base.{
  ℕ, zero, suc, ◌+◌, ◌*◌, ◌≤◌, ◌<◌, ◌≡◌, refl, sym, ap, ◌∙◌, ◌⊎◌, inl, inr, Bool, true, arith, List,
  [], ◌∷◌, Option, none, some, ltb, leb, if◌then◌else◌, ◌>>=◌, Bool-cases, if_true, if_false,
  length, get_or,
}
use rtmalloc.Histogram.{
  Snapshot, Range, num_buckets, collect, added_waste, cheapest, merge_at, merged_at, nothing_in,
  too_wasteful, merge_rounds, total, layout_of, layout_from, ClassLayout, optimal_layout,
}

-- The largest class, or `d` where there is none, and classes that ascend from above `d`.
unfoldable pub last_from : ℕ → List Range → ℕ
last_from d [] = d
last_from d (r ∷ rs) = last_from r.class rs

abbrev pub AscendingFrom : ℕ → List Range → Type 0
AscendingFrom d [] = Unit
AscendingFrom d (r ∷ rs) = (d < r.class) × AscendingFrom r.class rs

-- The waste that a merge of the ranges `i` and `i + 1` adds.
abbrev pub cost_at : ℕ → List Range → ℕ
cost_at i rs = added_waste (get_or rs i nothing_in) (get_or rs (suc i) nothing_in)

total-merge_at :
    (i : ℕ) (rs : List Range) → total (λ r. r.count) (merge_at i rs) ≡ total (λ r. r.count) rs
unfolding total merge_at
total-merge_at i [] = refl
total-merge_at i (a ∷ []) = refl
total-merge_at zero (a ∷ b ∷ rs) = omega arith
total-merge_at (suc i) (a ∷ b ∷ rs) = omega (arith, total-merge_at i (b ∷ rs))

last_from-merge_at : (i d : ℕ) (rs : List Range) → last_from d (merge_at i rs) ≡ last_from d rs
unfolding last_from merge_at
last_from-merge_at i d [] = refl
last_from-merge_at i d (a ∷ []) = refl
last_from-merge_at zero d (a ∷ b ∷ rs) = refl
last_from-merge_at (suc i) d (a ∷ b ∷ rs) = last_from-merge_at i a.class (b ∷ rs)

merge_at-AscendingFrom :
    (i d : ℕ) (rs : List Range) → AscendingFrom d rs → AscendingFrom d (merge_at i rs)
unfolding merge_at
merge_at-AscendingFrom i d [] up = up
merge_at-AscendingFrom i d (a ∷ []) up = up
merge_at-AscendingFrom zero d (a ∷ b ∷ rs) (lt, (next, up)) = (omega arith, up)
merge_at-AscendingFrom (suc i) d (a ∷ b ∷ rs) (lt, up) =
    (lt, merge_at-AscendingFrom i a.class (b ∷ rs) up)

length-merge_at :
    (i : ℕ) (rs : List Range) → i + 1 < length rs → length (merge_at i rs) + 1 ≡ length rs
unfolding merge_at
length-merge_at i [] lt = absurd (omega arith)
length-merge_at i (a ∷ []) lt = absurd (omega arith)
length-merge_at zero (a ∷ b ∷ rs) lt = omega arith
length-merge_at (suc i) (a ∷ b ∷ rs) lt = omega (arith, length-merge_at i (b ∷ rs) (omega arith))

-- No neighbours are left, or the pair is one whose merge adds the least waste.
abbrev IsCheapest : List Range → Option (ℕ × ℕ) → Type 0
IsCheapest rs none = length rs ≤ 1
IsCheapest rs (some (i, cost)) =
    (i + 1 < length rs)
    × (cost ≡ cost_at i rs)
    × ((j : ℕ) → j + 1 < length rs → cost ≤ cost_at j rs)

least_on :
    (a b : Range) (rs : List Range) (cost : ℕ)
    → cost ≤ added_waste a b
    → ((j : ℕ) → j + 1 < length (b ∷ rs) → cost ≤ cost_at j (b ∷ rs))
    → (j : ℕ) → j + 1 < length (a ∷ b ∷ rs)
    → cost ≤ cost_at j (a ∷ b ∷ rs)
least_on a b rs cost le least zero lt = le
least_on a b rs cost le least (suc j) lt = least j (omega arith)

IsCheapest-step :
    (a b : Range) (rs : List Range) (best : Option (ℕ × ℕ))
    → IsCheapest (b ∷ rs) best
    → IsCheapest (a ∷ b ∷ rs) (elim best [
      | none ↦ some (0, added_waste a b)
      | some best ↦
          if leb (added_waste a b) best.1
          then some (0, added_waste a b)
          else some (suc best.0, best.1)
    ])
IsCheapest-step a b rs none is =
    let added = added_waste a b in
    (omega arith, refl, least_on a b rs added (omega arith) (λ j lt. absurd (omega arith)))
IsCheapest-step a b rs (some (i, cost)) (lt, e, least) =
    let added = added_waste a b in
    elim (Bool-cases (leb added cost)) [
      | inl first ↦ subst (IsCheapest (a ∷ b ∷ rs)) (sym (if_true _ _ _ first)) (
        omega arith,
        refl,
        least_on a b rs added (omega arith) (λ j lt_j. ground (arith, least j lt_j, first)),
      )
      | inr later ↦
          subst (IsCheapest (a ∷ b ∷ rs)) (sym (if_false _ _ _ later))
            (omega arith, e, least_on a b rs cost (ground (arith, later)) least)
    ]

cheapest-IsCheapest : (rs : List Range) → IsCheapest rs (cheapest rs)
unfolding cheapest
cheapest-IsCheapest [] = omega arith
cheapest-IsCheapest (a ∷ []) = omega arith
cheapest-IsCheapest (a ∷ b ∷ rs) =
    IsCheapest-step a b rs (cheapest (b ∷ rs)) (cheapest-IsCheapest (b ∷ rs))

-- How the ranges `out` come from `rs`: no count is lost, the largest class stays, the classes ascend,
-- and merging has stopped for a reason: few enough ranges, no two, or a cheapest pair too wasteful.
pub record IsMerged (exceeds : ℕ → ℕ → ℕ → Bool) (max_classes d : ℕ) (rs out : List Range)
    : Type 0 where
  pub conserved : total (λ r. r.count) out ≡ total (λ r. r.count) rs
  pub largest : last_from d out ≡ last_from d rs
  pub ascending : AscendingFrom d out
  pub stopped :
      (length out ≤ max_classes)
      ⊎ (length out ≤ 1)
      ⊎ ((i : ℕ) × (i + 1 < length out)
          × ((j : ℕ) → j + 1 < length out → cost_at i out ≤ cost_at j out)
          × (too_wasteful exceeds max_classes (merged_at i out) ≡ true))

module _ (exceeds : ℕ → ℕ → ℕ → Bool) (max_classes d : ℕ) where
  abbrev Result : List Range → Option (List Range) → Type 0
  Result rs found = (out : List Range) × (found ≡ some out) × IsMerged exceeds max_classes d rs out

  -- A round that merges, and the rest.
  Result-merge_at :
      (i : ℕ) (rs : List Range) (found : Option (List Range))
      → Result (merge_at i rs) found
      → Result rs found
  Result-merge_at i rs found (out, e, is) = (
    out,
    e,
    record {
      conserved = is.conserved ∙ total-merge_at i rs;
      largest = is.largest ∙ last_from-merge_at i d rs;
      ascending = is.ascending;
      stopped = is.stopped;
    },
  )

  stays :
      (rs : List Range)
      → AscendingFrom d rs
      → (length rs ≤ max_classes)
        ⊎ (length rs ≤ 1)
        ⊎ ((i : ℕ) × (i + 1 < length rs)
            × ((j : ℕ) → j + 1 < length rs → cost_at i rs ≤ cost_at j rs)
            × (too_wasteful exceeds max_classes (merged_at i rs) ≡ true))
      → Result rs (some rs)
  stays rs up why =
      (rs, refl, record { conserved = refl; largest = refl; ascending = up; stopped = why })

  -- A round on the cheapest pair that was found.
  round-Result :
      (rs : List Range) (best : Option (ℕ × ℕ)) (rest : List Range → Option (List Range))
      → AscendingFrom d rs
      → IsCheapest rs best
      → ((i : ℕ) → i + 1 < length rs → Result (merge_at i rs) (rest (merge_at i rs)))
      → Result rs (elim best [
        | none ↦ some rs
        | some best ↦
            if too_wasteful exceeds max_classes (merged_at best.0 rs)
            then some rs
            else rest (merge_at best.0 rs)
      ])
  round-Result rs none rest up is later = stays rs up (inr (inl is))
  round-Result rs (some (i, cost)) rest up (lt, e, least) later =
      elim (Bool-cases (too_wasteful exceeds max_classes (merged_at i rs))) [
        | inl wasteful ↦
            subst (Result rs) (sym (if_true _ _ _ wasteful))
              (stays rs up (inr (inr (i, lt, λ j lt_j. omega (arith, e, least j lt_j), wasteful))))
        | inr cheap ↦
            subst (Result rs) (sym (if_false _ _ _ cheap))
              (Result-merge_at i rs (rest (merge_at i rs)) (later i lt))
      ]

  merge_rounds-Result :
      (fuel : ℕ) (rs : List Range)
      → 0 < length rs
      → length rs ≤ fuel
      → AscendingFrom d rs
      → Result rs (merge_rounds exceeds max_classes fuel rs)
  unfolding merge_rounds
  merge_rounds-Result zero rs some_range enough up = absurd (omega arith)
  merge_rounds-Result (suc fuel) rs some_range enough up =
      elim (Bool-cases (leb (length rs) max_classes)) [
        | inl few ↦
            subst (Result rs) (sym (if_true _ _ _ few)) (stays rs up (inl (ground (arith, few))))
        | inr many ↦ subst (Result rs) (sym (if_false _ _ _ many)) (
            round-Result rs (cheapest rs) (merge_rounds exceeds max_classes fuel) up
              (cheapest-IsCheapest rs)
              (λ i lt.
                let shorter = length-merge_at i rs lt in
                merge_rounds-Result fuel (merge_at i rs) (omega (arith, shorter))
                  (omega (arith, shorter)) (merge_at-AscendingFrom i d rs up)))
      ]

pub collect-AscendingFrom :
    (counts : ℕ → ℕ) (left i d : ℕ) → d < (i + 1) * 8 → AscendingFrom d (collect counts left i)
unfolding collect
collect-AscendingFrom counts zero i d lt = tt
collect-AscendingFrom counts (suc left) i d lt = elim (Bool-cases (ltb 0 (counts i))) [
  | inl some_there ↦
      subst (AscendingFrom d) (sym (if_true _ _ _ some_there))
        (lt, collect-AscendingFrom counts left (i + 1) ((i + 1) * 8) (omega arith))
  | inr none_there ↦
      subst (AscendingFrom d) (sym (if_false _ _ _ none_there))
        (collect-AscendingFrom counts left (i + 1) d (omega arith))
]

abbrev Laid : (ℕ → ℕ → ℕ → Bool) → ℕ → List Range → Option ClassLayout → Type 0
Laid exceeds max_classes rs found =
    (out : List Range) × (found ≡ some (layout_of out)) × IsMerged exceeds max_classes 0 rs out

layout_from-Laid :
    (exceeds : ℕ → ℕ → ℕ → Bool) (max_classes : ℕ) (rs : List Range)
    → AscendingFrom 0 rs
    → Laid exceeds max_classes rs (layout_from exceeds max_classes rs)
unfolding total
layout_from-Laid exceeds max_classes [] up = (
  [],
  refl,
  record { conserved = refl; largest = refl; ascending = up; stopped = inr (inl (omega arith)) },
)
layout_from-Laid exceeds max_classes (r ∷ rs) up =
    let (out, e, is) =
      merge_rounds-Result exceeds max_classes 0 (length (r ∷ rs)) (r ∷ rs) (omega arith)
        (omega arith) up in
    (out, ap (λ o. o >>= (λ out. some (layout_of out))) e, is)

-- `optimal_layout` ends with a layout for every snapshot and limit, whatever the waste test says. Its
-- classes ascend and end with the largest bucket that has a count; their counts add up, modulo 2^64,
-- to those of the buckets; and merging has gone on until there are few enough classes, or only one, or
-- the pair of neighbours whose merge adds the least waste is too wasteful.
pub optimal_layout-IsMerged :
    (exceeds : ℕ → ℕ → ℕ → Bool) (max_classes : ℕ) (s : Snapshot)
    → (out : List Range) × (optimal_layout exceeds max_classes s ≡ some (layout_of out))
      × IsMerged exceeds max_classes 0 (collect s.counts num_buckets 0) out
unfolding optimal_layout
optimal_layout-IsMerged exceeds max_classes s =
    layout_from-Laid exceeds max_classes (collect s.counts num_buckets 0)
      (collect-AscendingFrom s.counts num_buckets 0 0 (omega arith))
