-- ===== src/FreeObject/Links.antt =====
-- src/span.rs: null-terminated lists of free objects as lists of addresses.
use rtmalloc.Base.{
  ℕ, ◌≡◌, refl, ◌≢◌, inl, inr, true, false, ◌||◌, List, [], ◌∷◌, ◌++◌, arith, ◌==◌, Bool-cases,
  update_self, update, ==→eq,
}
use rtmalloc.FreeObject.{Words}
use rtmalloc.Span.{null}
use rtmalloc.Span.Chain.{has}

-- From `p` the words lead through the distinct objects `xs` to null.
abbrev pub Links : Words → ℕ → List ℕ → Type 0
Links w p [] = p ≡ null
Links w p (x ∷ xs) = (p ≡ x) × (x ≢ null) × (has x xs ≡ false) × Links w (w x) xs

-- Two lists with no object in common.
abbrev pub Disjoint : List ℕ → List ℕ → Type 0
Disjoint xs ys = (a : ℕ) → has a xs ≡ true → has a ys ≡ false

pub Links-frame :
    (w v : Words) (p : ℕ) (xs : List ℕ)
    → ((a : ℕ) → has a xs ≡ true → v a ≡ w a)
    → Links w p xs
    → Links v p xs
Links-frame w v p [] same c = c
Links-frame w v p (x ∷ xs) same (e, ne, out, rest) = (
  e,
  ne,
  out,
  rw (same x (ground arith)) (Links-frame w v (w x) xs (λ a i. same a (ground arith)) rest),
)

-- A write at an address that is not in the list leaves it.
pub Links-update :
    (w : Words) (p : ℕ) (xs : List ℕ) (a v : ℕ)
    → has a xs ≡ false
    → Links w p xs
    → Links (update w a v) p xs
Links-update w p xs a v out c = Links-frame w (update w a v) p xs (other) c
  where
    other : (b : ℕ) → has b xs ≡ true → update w a v b ≡ w b
    other b i = unfold update in ground arith

-- An object that is made to point at a list stands in front of it.
pub Links-cons :
    (w : Words) (x h : ℕ) (ys : List ℕ)
    → x ≢ null
    → Links w h ys
    → has x ys ≡ false
    → Links (update w x h) x (x ∷ ys)
Links-cons w x h ys ne d out = (refl, ne, out, rw update_self (Links-update w h ys x h out d))

pub Links-ne_null : (w : Words) (p a : ℕ) (xs : List ℕ) → Links w p xs → has a xs ≡ true → a ≢ null
Links-ne_null w p a [] c h = cc
Links-ne_null w p a (x ∷ xs) (e, ne, out, rest) h = elim (Bool-cases (a == x)) [
  | inl here ↦ rw (==→eq _ _ here) ne
  | inr later ↦ Links-ne_null w (w x) a xs rest (ground arith)
]

pub Links-null : (w : Words) (xs : List ℕ) → Links w null xs → xs ≡ []
Links-null w [] c = refl
Links-null w (x ∷ xs) (e, ne, out, rest) = absurd (omega arith)

pub has-append : (a : ℕ) (xs ys : List ℕ) → has a (xs ++ ys) ≡ (has a xs || has a ys)
has-append a [] ys = refl
has-append a (x ∷ xs) ys = ground (arith, has-append a xs ys)

pub Disjoint-sym : (a : ℕ) (xs ys : List ℕ) → Disjoint xs ys → has a ys ≡ true → has a xs ≡ false
Disjoint-sym a xs ys apart i = elim (Bool-cases (has a xs)) [
  | inl there ↦ ground (arith, apart a there)
  | inr absent ↦ absent
]
