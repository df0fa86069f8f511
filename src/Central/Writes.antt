-- ===== src/Central/Writes.antt =====
-- src/central_free_list.rs: the words that an insertion writes.
use mathlib.Core.Path.{subst}
use rtmalloc.Base.{
  ℕ, zero, suc, ◌≡◌, refl, ap, ◌∙◌, ◌≢◌, true, false, List, [], ◌∷◌, ◌++◌, arith, ◌==◌, ltb, length,
  update_ne, Ensures, Ensures->>=, Ensures-if, Ensures-any, Ensures-weaken,
}
use rtmalloc.Build.{ResolvedConfig}
use rtmalloc.Central.{Central}
use rtmalloc.Central.Insert.{
  add_object, detach_span, return_span, return_spans, span_of, is_surplus, max_freed,
  insert_deferring, insert_range_dropping_lock,
}
use rtmalloc.FreeObject.{Words}
use rtmalloc.FreeObject.Links.{Links, Links-frame}
use rtmalloc.PageHeap.{deallocate_span}
use rtmalloc.Span.{null}
use rtmalloc.Span.Chain.{has, has-ne}

-- Only the words of the objects `xs` differ.
abbrev pub SameBut : List ℕ → Words → Words → Type 0
SameBut xs w v = (a : ℕ) → has a xs ≡ false → v a ≡ w a

add_object-SameBut :
    (obj span : ℕ) (c : Central) (xs : List ℕ)
    → SameBut (obj ∷ xs) c.words (add_object obj span c).words
unfolding add_object
add_object-SameBut obj span c xs a out =
    let other : a ≢ obj = ground (arith, out) in
    let same = update_ne c.words obj (c.heap.spans span).freelist a other in ground (arith, same)

detach_span-words : (span : ℕ) (c : Central) → (detach_span span c).words ≡ c.words
unfolding detach_span
detach_span-words span c = refl

module _ (cfg : ResolvedConfig) where
  return_span-words :
      (span : ℕ) (c : Central) → Ensures (λ r. r.words ≡ c.words) (return_span cfg span c)
  return_span-words span c =
      Ensures->>= (λ r. r.words ≡ c.words) (deallocate_span cfg span c.heap) _ (Ensures-any _)
        (λ heap _. refl)

  return_spans-words :
      (spans : List ℕ) (c : Central) → Ensures (λ r. r.words ≡ c.words) (return_spans cfg spans c)
  unfolding return_spans
  return_spans-words [] c = refl
  return_spans-words (span ∷ spans) c =
      Ensures->>= (λ r. r.words ≡ c.words) (return_span cfg span c) (return_spans cfg spans)
        (return_span-words span c)
        (λ r e.
          subst (λ w. Ensures (λ s. s.words ≡ w) (return_spans cfg spans r)) e
            (return_spans-words spans r))

  insert_deferring-SameBut :
      (head n : ℕ) (freed_spans : List ℕ) (c : Central) (xs : List ℕ)
      → Links c.words head xs
      → Ensures (λ r. SameBut xs c.words r.1.words) (insert_deferring cfg head n freed_spans c)
  unfolding insert_deferring
  insert_deferring-SameBut head zero freed_spans c xs links = λ a out. refl
  insert_deferring-SameBut head (suc n) freed_spans c [] links =
      let stop : (head == null) ≡ true = ground arith in rw stop (λ a out. refl)
  insert_deferring-SameBut head (suc n) freed_spans c (x ∷ xs) (e, ne, out, rest) =
      let span = span_of cfg head c in
      let c1 = add_object head span c in
      let c2 = detach_span span c1 in
      let Q : List ℕ × Central → Type 0 = λ r. SameBut (x ∷ xs) c.words r.1.words in
      let first : SameBut (x ∷ []) c.words c1.words =
        λ a o. add_object-SameBut head span c [] a (ground arith) in
      let later : (freed : List ℕ) (c' : Central)
          → SameBut (x ∷ []) c.words c'.words
          → Ensures Q (insert_deferring cfg (c.words head) n freed c') =
        λ freed c' same.
          Ensures-weaken Q (insert_deferring cfg (c.words head) n freed c')
            (insert_deferring-SameBut (c.words head) n freed c' xs (
              Links-frame c.words c'.words (c.words head) xs
                (λ a i. same a (ground (arith, has-ne x a xs out i))) (rw e rest)))
            (λ r s a o. s a (ground arith) ∙ same a (ground arith)) in
      Ensures-if Q (head == null) _ _ (λ a o. refl)
        (Ensures-if Q (span == null) _ _ (later freed_spans c (λ a o. refl)) (
          Ensures-if Q (is_surplus span c1) _ _
            (Ensures-if Q (ltb (length freed_spans) (max_freed cfg)) _ _
              (later (freed_spans ++ span ∷ []) c2 first)
              (Ensures->>= Q (return_span cfg span c2) _ (return_span-words span c2)
                (λ c3 w. later freed_spans c3 (λ a o. ap (λ v. v a) w ∙ first a o))))
            (later freed_spans c1 first)))

  -- The objects of the chain are written, and no other.
  pub insert_range_dropping_lock-SameBut :
      (head n : ℕ) (c : Central) (xs : List ℕ)
      → Links c.words head xs
      → Ensures (λ r. SameBut xs c.words r.words) (insert_range_dropping_lock cfg head n c)
  unfolding insert_range_dropping_lock
  insert_range_dropping_lock-SameBut head n c xs links =
      Ensures->>= (λ r. SameBut xs c.words r.words) (insert_deferring cfg head n [] c) _
        (insert_deferring-SameBut head n [] c xs links)
        (λ r same.
          Ensures-weaken (λ s. SameBut xs c.words s.words) (return_spans cfg r.0 r.1)
            (return_spans-words r.0 r.1) (λ s w a o. ap (λ v. v a) w ∙ same a o))
