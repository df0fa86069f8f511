-- ===== src/Span/Ops.antt =====
-- src/span.rs: the operations of `SpanList` beside those of a list of addresses.
use rtmalloc.Base.{
  ℕ, suc, ◌+◌, ◌≡◌, refl, sym, ◌∙◌, ◌≢◌, inl, inr, true, false, List, [], ◌∷◌, arith, ◌==◌,
  Bool-cases, length, ==→eq, update,
}
use mathlib.Core.Bool.{false≢true}
use rtmalloc.Base.Rounding.{usize}
use rtmalloc.Span.{Span, Spans, null, SpanList, push}
use rtmalloc.Span.Chain.{Chain, has, Chain-frame}

-- The handle `l` stands for the spans `xs`, in order.
pub record IsList (m : Spans) (l : SpanList) (xs : List ℕ) : Type 0 where
  pub chain : Chain m null l.head xs
  pub count : l.count ≡ usize (length xs)

-- A span without its links.
abbrev pub unlinked : Span → Span
unlinked s = record s { prev = null; next = null }

-- Only links differ, and none outside the spans `xs`.
pub record Relinked (xs : List ℕ) (m g : Spans) : Type 0 where
  pub bodies : (a : ℕ) → unlinked (g a) ≡ unlinked (m a)
  pub outside : (a : ℕ) → has a xs ≡ false → g a ≡ m a

-- What a chain says of its first span when the one before it changes.
Chain-behind :
    (m g : Spans) (before before' p : ℕ) (xs : List ℕ)
    → Chain m before p xs
    → (p ≢ null → (g p).prev ≡ before')
    → ((a : ℕ) → has a xs ≡ true → (g a).next ≡ (m a).next)
    → ((a : ℕ) → has a xs ≡ true → a ≢ p → (g a).prev ≡ (m a).prev)
    → Chain g before' p xs
Chain-behind m g before before' p [] c first nexts prevs = c
Chain-behind m g before before' p (x ∷ xs) (e, ne, back, out, rest) first nexts prevs = (
  e,
  ne,
  ground (arith, first),
  out,
  rw (nexts x (ground arith)) (
      Chain-frame m g x (m x).next xs
        (λ a i. (nexts a (ground arith), prevs a (ground arith) (ground arith))) rest),
)

pub head-has :
    (m : Spans) (before p : ℕ) (xs : List ℕ) → Chain m before p xs → p ≢ null → has p xs ≡ true
head-has m before p [] c ne = absurd (ne c)
head-has m before p (x ∷ xs) c ne = ground (arith, c.0)

-- After a push the new span leads to the old head and back, and the rest keeps its fields.
record Pushed (span head : ℕ) (m g : Spans) : Type 0 where
  span_next : (g span).next ≡ head
  span_prev : (g span).prev ≡ null
  head_prev : head ≢ null → (g head).prev ≡ span
  nexts : (a : ℕ) → a ≢ span → (g a).next ≡ (m a).next
  prevs : (a : ℕ) → a ≢ span → a ≢ head → (g a).prev ≡ (m a).prev
  bodies : (a : ℕ) → unlinked (g a) ≡ unlinked (m a)
  outside : (a : ℕ) → a ≢ span → (a ≡ head → head ≡ null) → g a ≡ m a

push-outside :
    (m : Spans) (l : SpanList) (span a : ℕ)
    → a ≢ span
    → (a ≡ l.head → l.head ≡ null)
    → (push span (m, l)).0 a ≡ m a
unfolding push update
push-outside m l span a h i = elim (Bool-cases (a == l.head)) [
  | inl e ↦ ground (arith, i (==→eq _ _ e))
  | inr e ↦ ground arith
]

push-Pushed :
    (m : Spans) (l : SpanList) (span : ℕ)
    → l.head ≢ span
    → Pushed span l.head m (push span (m, l)).0
unfolding push update
push-Pushed m l span ne = record {
  span_next = ground arith;
  span_prev = ground arith;
  head_prev = λ h. ground arith;
  nexts = λ a h. ground arith;
  prevs = λ a h i. ground arith;
  bodies = λ a. ground arith;
  outside = λ a h i. push-outside m l span a h i;
}

-- `push` puts a span that is not in the list in front of it, keeps the count, and changes no field
-- but the links of that span and of the spans in the list.
pub push-IsList :
    (m : Spans) (l : SpanList) (xs : List ℕ) (span : ℕ)
    → IsList m l xs
    → span ≢ null
    → has span xs ≡ false
    → IsList (push span (m, l)).0 (push span (m, l)).1 (span ∷ xs)
      × Relinked (span ∷ xs) m (push span (m, l)).0
push-IsList m l xs span is ne out = (
  record {
    chain = unfold push in (refl, ne, w.span_prev, out, rw w.span_next behind);
    count = unfold push in (count_suc);
  },
  record {
    bodies = w.bodies;
    outside = λ a o. w.outside a (ground arith) (apart a (ground arith));
  },
)
  where
    member : (l.head == null) ≡ false → has l.head xs ≡ true
    member z = head-has m null l.head xs is.chain (ground arith)

    apart : (a : ℕ) → has a xs ≡ false → a ≡ l.head → l.head ≡ null
    apart a o e = elim (Bool-cases (l.head == null)) [
      | inl z ↦ ==→eq _ _ z
      | inr z ↦ absurd (false≢true (sym o ∙ rw (← e) at (member z)))
    ]

    fresh : l.head ≢ span
    fresh e = elim (Bool-cases (l.head == null)) [
      | inl z ↦ ne (sym e ∙ ==→eq _ _ z)
      | inr z ↦ false≢true (sym out ∙ rw e at (member z))
    ]

    w : Pushed span l.head m (push span (m, l)).0
    w = push-Pushed m l span fresh

    count_suc : usize (l.count + 1) ≡ usize (suc (length xs))
    count_suc = omega (arith, is.count)

    behind : Chain (push span (m, l)).0 span l.head xs
    behind =
        Chain-behind m (push span (m, l)).0 null span l.head xs is.chain w.head_prev
          (λ a i. w.nexts a (ground arith)) (λ a i h. w.prevs a (ground arith) h)
