-- ===== src/Central/Take.antt =====
-- src/central_free_list.rs: the inner loop of a removal.
use mathlib.Core.List.{reverse_aux}
use mathlib.Core.Path.{subst}
use rtmalloc.Base.{
  ℕ, zero, suc, ◌+◌, ◌≡◌, refl, sym, ap, ◌∙◌, ◌≢◌, false, List, [], ◌∷◌, arith, ◌==◌, length,
  update, update_self, update_ne, take, drop, eq→==, min,
}
use rtmalloc.Base.Rounding.{usize, u32}
use rtmalloc.Central.{Removal, take_object, take_objects}
use rtmalloc.FreeObject.Links.{Links, Disjoint, Links-update, Links-cons}
use rtmalloc.Span.{Span, null}
use rtmalloc.Span.Chain.{has, has-ne}

-- The span has the free objects `xs`, the batch has `acc`, the last moved first.
pub record Halfway (span : ℕ) (t : Removal) (xs acc : List ℕ) : Type 0 where
  pub left : Links t.central.words (t.central.heap.spans span).freelist xs
  pub got : Links t.central.words t.head acc
  pub apart : Disjoint xs acc
  pub count : t.count ≡ length acc

-- What a removal of `moved` objects leaves: the other spans, all of this one but its list and its
-- count of allocated objects, the words of objects that were not in its list, the rest of the state.
pub record Untouched (span moved : ℕ) (xs : List ℕ) (s t : Removal) : Type 0 where
  pub others : (p : ℕ) → p ≢ span → t.central.heap.spans p ≡ s.central.heap.spans p
  pub next : (t.central.heap.spans span).next ≡ (s.central.heap.spans span).next
  pub prev : (t.central.heap.spans span).prev ≡ (s.central.heap.spans span).prev
  pub total_count :
      (t.central.heap.spans span).total_count ≡ (s.central.heap.spans span).total_count
  pub words : (a : ℕ) → has a xs ≡ false → t.central.words a ≡ s.central.words a
  pub nonempty_spans : t.central.list.nonempty_spans ≡ s.central.list.nonempty_spans
  pub allocated :
      u32 (t.central.heap.spans span).allocated_count
      ≡ u32 ((s.central.heap.spans span).allocated_count + moved)
  pub num_free : usize (t.central.list.num_free + moved) ≡ usize s.central.list.num_free

take_object-Halfway :
    (span : ℕ) (t : Removal) (x : ℕ) (xs acc : List ℕ)
    → Halfway span t (x ∷ xs) acc
    → Halfway span (take_object span t) xs (x ∷ acc)
unfolding take_object
take_object-Halfway span t x xs acc is =
    let (e, ne, out, rest) = is.left in
    let w = t.central.words in
    let spans = t.central.heap.spans in
    let s1 : Span = record (spans span) {
      freelist = w (spans span).freelist;
      allocated_count = u32 ((spans span).allocated_count + 1);
    } in
    let here : (update spans span s1 span).freelist ≡ w x =
      ap (λ s. s.freelist) (update_self spans span s1) ∙ ap w e in
    record {
      left =
          subst (λ o. Links (update w o t.head) (update spans span s1 span).freelist xs) (sym e)
            (subst (λ f. Links (update w x t.head) f xs) (sym here)
              (Links-update w (w x) xs x t.head out rest));
      got =
          subst (λ o. Links (update w o t.head) o (x ∷ acc)) (sym e)
            (Links-cons w x t.head acc ne is.got (is.apart x (ground arith)));
      apart = λ a i. ground (arith, is.apart a, has-ne x a xs out i);
      count = omega (arith, is.count);
    }

take_object-Untouched :
    (span : ℕ) (t : Removal) (x : ℕ) (xs : List ℕ)
    → (t.central.heap.spans span).freelist ≡ x
    → Untouched span 1 (x ∷ xs) t (take_object span t)
unfolding take_object
take_object-Untouched span t x xs e =
    let spans = t.central.heap.spans in
    let s1 : Span = record (spans span) {
      freelist = t.central.words (spans span).freelist;
      allocated_count = u32 ((spans span).allocated_count + 1);
    } in
    let at : update spans span s1 span ≡ s1 = update_self spans span s1 in
    record {
      others = λ p ne. update_ne spans span s1 p ne;
      next = ap (λ s. s.next) at;
      prev = ap (λ s. s.prev) at;
      total_count = ap (λ s. s.total_count) at;
      words = λ a out. update_ne t.central.words (spans span).freelist t.head a (ground arith);
      nonempty_spans = refl;
      allocated = ap (λ s. u32 (s.allocated_count)) at ∙ (omega arith);
      num_free = omega arith;
    }

Untouched-trans :
    (span m n x : ℕ) (xs : List ℕ) (s t r : Removal)
    → Untouched span m (x ∷ xs) s t
    → Untouched span n xs t r
    → Untouched span (m + n) (x ∷ xs) s r
Untouched-trans span m n x xs s t r a b = record {
  others = λ p ne. b.others p ne ∙ a.others p ne;
  next = b.next ∙ a.next;
  prev = b.prev ∙ a.prev;
  total_count = b.total_count ∙ a.total_count;
  words = λ o out. b.words o (ground arith) ∙ a.words o out;
  nonempty_spans = b.nonempty_spans ∙ a.nonempty_spans;
  allocated = omega (arith, a.allocated, b.allocated);
  num_free = omega (arith, a.num_free, b.num_free);
}

Untouched-refl : (span : ℕ) (xs : List ℕ) (t : Removal) → Untouched span 0 xs t t
Untouched-refl span xs t = record {
  others = λ p ne. refl;
  next = refl;
  prev = refl;
  total_count = refl;
  words = λ a out. refl;
  nonempty_spans = refl;
  allocated = omega arith;
  num_free = omega arith;
}

-- From a span with the free objects `xs`, the inner loop moves the first ones, as many as are wanted
-- if there are so many and else all, in front of the batch, where they stand in reverse; the counters
-- of the span and of the list account for each, and nothing else of the state changes.
pub take_objects-moves :
    (wanted span : ℕ) (t : Removal) (xs acc : List ℕ)
    → Halfway span t xs acc
    → Halfway span (take_objects wanted span t) (drop wanted xs) (reverse_aux (take wanted xs) acc)
      × Untouched span (min wanted (length xs)) xs t (take_objects wanted span t)
unfolding take_objects
take_objects-moves zero span t xs acc is =
    (is, subst (λ n. Untouched span n xs t t) (omega arith) (Untouched-refl span xs t))
take_objects-moves (suc wanted) span t [] acc is =
    rw (eq→== _ _ is.left)
      (is, subst (λ n. Untouched span n [] t t) (omega arith) (Untouched-refl span [] t))
take_objects-moves (suc wanted) span t (x ∷ xs) acc is =
    let (e, ne, out, rest) = is.left in
    let some_object : ((t.central.heap.spans span).freelist == null) ≡ false = ground arith in
    let (done, same) =
      take_objects-moves wanted span (take_object span t) xs (x ∷ acc)
        (take_object-Halfway span t x xs acc is) in
    let r = take_objects wanted span (take_object span t) in
    rw some_object (
      done,
      subst (λ n. Untouched span n (x ∷ xs) t r) (omega arith)
          (Untouched-trans span 1 (min wanted (length xs)) x xs t (take_object span t) r
            (take_object-Untouched span t x xs e) same),
    )
