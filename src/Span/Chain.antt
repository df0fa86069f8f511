-- ===== src/Span/Chain.antt =====
-- src/span.rs: doubly linked chains of spans as lists of addresses.
use mathlib.Core.Bool.{false≢true}
use mathlib.Core.Path.{subst}
use rtmalloc.Base.{
  ℕ, ◌+◌, ◌≡◌, refl, sym, ◌∙◌, ◌≢◌, ◌⊎◌, inl, inr, Bool, true, false, ◌||◌, List, [], ◌∷◌, arith,
  ◌==◌, if◌then◌else◌, Bool-cases, length, ==→eq,
}
use rtmalloc.Span.{Spans, null}

abbrev pub has : ℕ → List ℕ → Bool
has a [] = false
has a (x ∷ xs) = (a == x) || has a xs

-- Drops the first occurrence.
abbrev pub erase : ℕ → List ℕ → List ℕ
erase a [] = []
erase a (x ∷ xs) = if x == a then xs else x ∷ erase a xs

-- From `p` the `next` pointers lead through the distinct spans `xs` to null, and each `prev`
-- pointer leads to the span before; that of the first is `before`.
abbrev pub Chain : Spans → ℕ → ℕ → List ℕ → Type 0
Chain m before p [] = p ≡ null
Chain m before p (x ∷ xs) =
    (p ≡ x) × (x ≢ null) × ((m x).prev ≡ before) × (has x xs ≡ false) × Chain m x (m x).next xs

pub length-erase : (a : ℕ) (xs : List ℕ) → has a xs ≡ true → length (erase a xs) + 1 ≡ length xs
length-erase a [] h = cc
length-erase a (x ∷ xs) h = ground (arith, length-erase a xs)

pub has-erase : (a b : ℕ) (xs : List ℕ) → has a xs ≡ false → has a (erase b xs) ≡ false
has-erase a b [] h = refl
has-erase a b (x ∷ xs) h = ground (arith, has-erase a b xs)

-- A chain survives any change that spares the links of its own spans.
pub Chain-frame :
    (m g : Spans) (before p : ℕ) (xs : List ℕ)
    → ((a : ℕ) → has a xs ≡ true → ((g a).next ≡ (m a).next) × ((g a).prev ≡ (m a).prev))
    → Chain m before p xs
    → Chain g before p xs
Chain-frame m g before p [] same c = c
Chain-frame m g before p (x ∷ xs) same (e, ne, back, out, rest) =
    let here : has x (x ∷ xs) ≡ true = ground arith in
    (
      e,
      ne,
      (same x here).1 ∙ back,
      out,
      rw (same x here).0 (Chain-frame m g x (m x).next xs (λ a i. same a (ground arith)) rest),
    )

-- The successor of a span of the chain is null or a span of the chain, and is another span.
pub Chain-next :
    (m : Spans) (before p a : ℕ) (xs : List ℕ)
    → Chain m before p xs
    → has a xs ≡ true
    → (((m a).next ≡ null) ⊎ (has (m a).next xs ≡ true)) × ((m a).next ≢ a)
Chain-next m before p a [] c h = cc
Chain-next m before p a (x ∷ []) (e, ne, back, out, rest) h = ground arith
Chain-next m before p a (x ∷ y ∷ ys) (e, ne, back, out, rest) h = elim (Bool-cases (a == x)) [
  | inl here ↦ ground arith
  | inr later ↦ ground (arith, Chain-next m x (m x).next a (y ∷ ys) rest)
]

-- The predecessor of a span of the chain is the one before the chain or a span of it.
pub Chain-prev :
    (m : Spans) (before p a : ℕ) (xs : List ℕ)
    → Chain m before p xs
    → has a xs ≡ true
    → ((m a).prev ≡ before) ⊎ (has (m a).prev xs ≡ true)
Chain-prev m before p a [] c h = cc
Chain-prev m before p a (x ∷ xs) (e, ne, back, out, rest) h = elim (Bool-cases (a == x)) [
  | inl here ↦ ground arith
  | inr later ↦ ground (arith, Chain-prev m x (m x).next a xs rest)
]

pub Chain-ne_null :
    (m : Spans) (before p a : ℕ) (xs : List ℕ) → Chain m before p xs → has a xs ≡ true → a ≢ null
Chain-ne_null m before p a [] c h = cc
Chain-ne_null m before p a (x ∷ xs) (e, ne, back, out, rest) h = elim (Bool-cases (a == x)) [
  | inl here ↦ rw (==→eq _ _ here) ne
  | inr later ↦ Chain-ne_null m x (m x).next a xs rest (ground arith)
]

pub has-ne : (a b : ℕ) (xs : List ℕ) → has a xs ≡ false → has b xs ≡ true → a ≢ b
has-ne a b xs out there e = false≢true (sym out ∙ subst (λ t. has t xs ≡ true) (sym e) there)
