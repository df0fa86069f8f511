-- ===== src/Tests/Suggestions.antt =====
-- A histogram of two sizes, of which one covers half of the allocations.
use mathlib.Core.List.{reverse}
use rtmalloc.Base.{ℕ, ◌/◌, ◌≡◌, refl, inr, List, [], ◌∷◌, arith, if◌then◌else◌, ◌==◌}
use rtmalloc.Histogram.{Snapshot, num_buckets}
use rtmalloc.Histogram.Suggest.{pairs_from, total_from, greedy, suggest_classes}
use rtmalloc.Histogram.Suggest.Fewest.{sum_of}
use rtmalloc.Histogram.Suggest.Smallest.{Rearranged, IsSuggestion, suggest_classes-IsSuggestion}

abbrev two_sizes : Snapshot
two_sizes = record { counts = λ i. if i == 1 then 5 else if i == 3 then 9 else 0; overflow = 2 }

abbrev pairs : List (ℕ × ℕ)
pairs = pairs_from two_sizes.counts num_buckets 0

pairs-eq : pairs ≡ (16, 5) ∷ (32, 9) ∷ []
unfolding pairs_from
pairs-eq = refl

abbrev half : ℕ → ℕ
half n = n / 2

abbrev larger : List (ℕ × ℕ)
larger = (32, 9) ∷ []

-- For these pairs in the reverse order is descending.
suggested : suggest_classes half reverse (λ sizes. sizes) two_sizes ≡ 32 ∷ []
unfolding suggest_classes total_from pairs_from greedy
suggested = refl

reversed-Rearranged : Rearranged (reverse pairs) pairs
unfolding pairs_from
reversed-Rearranged f = omega arith

suggest_classes-IsSuggestion_example :
    IsSuggestion
      (reverse pairs)
      larger
      (half (sum_of pairs))
      (suggest_classes half reverse (λ sizes. sizes) two_sizes)
unfolding pairs_from
suggest_classes-IsSuggestion_example =
    suggest_classes-IsSuggestion half reverse (λ sizes. sizes) two_sizes larger (omega arith)
      reversed-Rearranged ((omega arith, tt), (tt, tt)) (λ sizes f. refl) (inr (refl, tt))
      (omega arith)
