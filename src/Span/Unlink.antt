-- ===== src/Span/Unlink.antt =====
-- src/span.rs: `SpanList::remove` and `pop` beside removal from a list of addresses.
use rtmalloc.Base.{
  ℕ, ◌≡◌, refl, ◌∙◌, ◌≢◌, inl, inr, true, false, List, [], ◌∷◌, arith, ◌==◌, if◌then◌else◌,
  Bool-cases, ==→eq, update,
}
use rtmalloc.Span.{Spans, null, SpanList, remove, pop}
use rtmalloc.Span.Chain.{
  Chain, has, erase, length-erase, has-erase, Chain-frame, Chain-next, Chain-prev, Chain-ne_null,
}
use rtmalloc.Span.Ops.{IsList, unlinked, Relinked}

-- After a removal the two neighbours of the span are linked to one another.
record Removed (span prev next : ℕ) (m g : Spans) : Type 0 where
  span_next : (g span).next ≡ null
  span_prev : (g span).prev ≡ null
  nexts : (a : ℕ) → a ≢ span → a ≢ null → (g a).next ≡ (if a == prev then next else (m a).next)
  prevs : (a : ℕ) → a ≢ span → a ≢ null → (g a).prev ≡ (if a == next then prev else (m a).prev)
  bodies : (a : ℕ) → unlinked (g a) ≡ unlinked (m a)
  outside : (a : ℕ) → a ≢ span → (a ≡ prev → prev ≡ null) → (a ≡ next → next ≡ null) → g a ≡ m a

remove-nexts :
    (m : Spans) (l : SpanList) (span a : ℕ)
    → a ≢ span
    → a ≢ null
    → ((remove span (m, l)).0 a).next ≡ (if a == (m span).prev then (m span).next else (m a).next)
unfolding remove update
remove-nexts m l span a h i = ground arith

remove-prevs :
    (m : Spans) (l : SpanList) (span a : ℕ)
    → a ≢ span
    → a ≢ null
    → ((remove span (m, l)).0 a).prev ≡ (if a == (m span).next then (m span).prev else (m a).prev)
unfolding remove update
remove-prevs m l span a h i = ground arith

remove-outside :
    (m : Spans) (l : SpanList) (span a : ℕ)
    → a ≢ span
    → (a ≡ (m span).prev → (m span).prev ≡ null)
    → (a ≡ (m span).next → (m span).next ≡ null)
    → (remove span (m, l)).0 a ≡ m a
unfolding remove update
remove-outside m l span a h i j = elim (Bool-cases (a == (m span).prev)) [
  | inl e ↦ elim (Bool-cases (a == (m span).next)) [
    | inl f ↦ ground (arith, i (==→eq _ _ e), j (==→eq _ _ f))
    | inr f ↦ ground (arith, i (==→eq _ _ e))
  ]
  | inr e ↦ elim (Bool-cases (a == (m span).next)) [
    | inl f ↦ ground (arith, j (==→eq _ _ f))
    | inr f ↦ ground arith
  ]
]

remove-bodies :
    (m : Spans) (l : SpanList) (span a : ℕ) → unlinked ((remove span (m, l)).0 a) ≡ unlinked (m a)
unfolding remove update
remove-bodies m l span a = ground arith

remove-Removed :
    (m : Spans) (l : SpanList) (span : ℕ)
    → Removed span (m span).prev (m span).next m (remove span (m, l)).0
remove-Removed m l span = record {
  span_next = unfold remove update in ground arith;
  span_prev = unfold remove update in ground arith;
  nexts = remove-nexts m l span;
  prevs = remove-prevs m l span;
  bodies = remove-bodies m l span;
  outside = remove-outside m l span;
}

-- The first span of the chain without `span`.
abbrev skip : Spans → ℕ → ℕ → ℕ
skip m span p = if p == span then (m span).next else p

module _ (m g : Spans) (span : ℕ) (r : Removed span (m span).prev (m span).next m g) where
  -- Behind the removed span the chain starts with its successor.
  Chain-behind_removed :
      (p : ℕ) (xs : List ℕ)
      → (m span).next ≡ p
      → has span xs ≡ false
      → has (m span).prev xs ≡ false
      → Chain m span p xs
      → Chain g (m span).prev p xs
  Chain-behind_removed p [] e out apart c = c
  Chain-behind_removed p (x ∷ xs) e out apart (h, ne, back, fresh, rest) = (
    h,
    ne,
    ground (arith, r.prevs x),
    fresh,
    rw kept (
        Chain-frame m g x (m x).next xs
          (λ a i.
            let some_span : a ≢ null = Chain-ne_null m x (m x).next a xs rest i in
            (ground (arith, r.nexts a), ground (arith, r.prevs a)))
          rest),
  )
    where
      kept : (g x).next ≡ (m x).next
      kept = ground (arith, r.nexts x)

  Chain-removed_here :
      (before : ℕ) (xs : List ℕ)
      → (m span).prev ≡ before
      → has span xs ≡ false
      → has before xs ≡ false
      → Chain m span (m span).next xs
      → Chain g before (m span).next xs
  Chain-removed_here before xs e out apart c =
      rw (← e) (Chain-behind_removed (m span).next xs refl out (rw e apart) c)

  -- Only the span before the removed one gets another successor.
  skip-next :
      (x q : ℕ) (xs : List ℕ)
      → Chain m x q xs
      → has x xs ≡ false
      → has span xs ≡ true
      → (if x == (m span).prev then (m span).next else q) ≡ skip m span q
  skip-next x q [] c out h = cc
  skip-next x q (y ∷ ys) (e, ne, back, fresh, rest) out h = elim (Bool-cases (y == span)) [
    | inl here ↦ ground arith
    | inr later ↦ ground (arith, Chain-prev m y (m y).next span ys rest)
  ]

  Chain-removed :
      (before p : ℕ) (xs : List ℕ)
      → Chain m before p xs
      → has before xs ≡ false
      → has span xs ≡ true
      → Chain g before (skip m span p) (erase span xs)
  Chain-removed before p [] c out h = cc
  Chain-removed before p (x ∷ xs) (e, ne, back, fresh, rest) out h = elim (Bool-cases (x == span)) [
    | inl here ↦
        let same : x ≡ span = ==→eq _ _ here in
        let first : skip m span p ≡ (m span).next = ground arith in
        rw (here, first)
          (Chain-removed_here before xs (rw same at back) (rw same at fresh) (ground arith)
            (rw same at rest))
    | inr later ↦
        let inside : has span xs ≡ true = ground arith in
        let first : skip m span p ≡ p = ground arith in
        let linked : (g x).next ≡ skip m span (m x).next =
          r.nexts x (ground arith) ne ∙ skip-next x (m x).next xs rest fresh inside in
        rw (later, first)
          (
            e,
            ne,
            ground (arith, r.prevs x, Chain-next m x (m x).next span xs rest inside),
            has-erase x span xs fresh,
            rw linked (Chain-removed x (m x).next xs rest fresh inside),
          )
  ]

not-has-null : (m : Spans) (before p : ℕ) (xs : List ℕ) → Chain m before p xs → has null xs ≡ false
not-has-null m before p xs c = elim (Bool-cases (has null xs)) [
  | inl there ↦ absurd (Chain-ne_null m before p null xs c there refl)
  | inr absent ↦ absent
]

-- `remove` takes a span of the list out of it, clears its links, keeps the count and the order of
-- the others, and changes no field but links of spans in the list.
pub remove-IsList :
    (m : Spans) (l : SpanList) (xs : List ℕ) (span : ℕ)
    → IsList m l xs
    → has span xs ≡ true
    → IsList (remove span (m, l)).0 (remove span (m, l)).1 (erase span xs)
      × Relinked xs m (remove span (m, l)).0
      × (((remove span (m, l)).0 span).next ≡ null)
      × (((remove span (m, l)).0 span).prev ≡ null)
remove-IsList m l xs span is there = (
  record {
    chain = rw (head_lem) (Chain-removed m _ span w null l.head xs is.chain no_null there);
    count = unfold remove in omega (arith, is.count, length-erase span xs there);
  },
  record {
    bodies = w.bodies;
    outside = λ a o. w.outside a (ground arith) (before a o) (behind a o);
  },
  w.span_next,
  w.span_prev,
)
  where
    w : Removed span (m span).prev (m span).next m (remove span (m, l)).0
    w = remove-Removed m l span

    no_null : has null xs ≡ false
    no_null = not-has-null m null l.head xs is.chain

    head_lem : (remove span (m, l)).1.head ≡ skip m span l.head
    head_lem =
        unfold remove in ground (arith, skip-next m _ span w null l.head xs is.chain no_null there)

    before : (a : ℕ) → has a xs ≡ false → a ≡ (m span).prev → (m span).prev ≡ null
    before a o e = ground (arith, Chain-prev m null l.head span xs is.chain there)

    behind : (a : ℕ) → has a xs ≡ false → a ≡ (m span).next → (m span).next ≡ null
    behind a o e = ground (arith, Chain-next m null l.head span xs is.chain there)

-- `pop` takes the first span of the list, whose links it clears, and leaves the others in order;
-- from an empty list it returns null and changes nothing.
pub pop-IsList :
    (m : Spans) (l : SpanList) (x : ℕ) (xs : List ℕ)
    → IsList m l (x ∷ xs)
    → ((pop (m, l)).0 ≡ x)
      × IsList (pop (m, l)).1 (pop (m, l)).2 xs
      × Relinked (x ∷ xs) m (pop (m, l)).1
unfolding pop
pop-IsList m l x xs is =
    let some_head : (l.head == null) ≡ false = ground (arith, is.chain.0, is.chain.1) in
    let first : (x == l.head) ≡ true = ground (arith, is.chain.0) in
    let (list, links, _, _) = remove-IsList m l (x ∷ xs) l.head is (ground (arith, is.chain.0)) in
    rw some_head (is.chain.0, rw first at list, links)

pub pop-nil : (m : Spans) (l : SpanList) → IsList m l [] → pop (m, l) ≡ (null, m, l)
unfolding pop
pop-nil m l is = ground (arith, is.chain)
