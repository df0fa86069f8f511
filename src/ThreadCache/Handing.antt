-- ===== src/ThreadCache/Handing.antt =====
-- src/thread_cache.rs: what a removal from a central list hands to the cache, and what it leaves.
use mathlib.Core.List.{reverse}
use mathlib.Core.Path.{subst}
use rtmalloc.Base.{
  ℕ, ◌-◌, ◌≡◌, refl, sym, ap, ◌∙◌, inl, inr, false, List, [], ◌∷◌, some, arith, Bool-cases, length,
  update_self, take,
}
use rtmalloc.Build.{ResolvedConfig}
use rtmalloc.Central.{Removal, nothing_removed, remove_range_dropping_lock}
use rtmalloc.Central.Collected.{Collected}
use rtmalloc.Central.Stocked.{Shelf, Stocked, objects_of, spans_of, Free-frame, has-reverse_aux}
use rtmalloc.FreeObject.Links.{Links, Disjoint}
use rtmalloc.SizeClass.{SizeClassInfo}
use rtmalloc.Span.{null}
use rtmalloc.Span.Chain.{has}
use rtmalloc.Span.Ops.{IsList}
use rtmalloc.ThreadCache.Accounting.{Objects}
use rtmalloc.ThreadCache.Cache.{Process}
use rtmalloc.ThreadCache.Refilling.{Handed, Fetched, wanted}
use rtmalloc.TransferCache.Stack.{remove_range-miss}
use rtmalloc.TransferCache.{Middle, central_at, put_central, remove_range}

absent-tail : (a x : ℕ) (ys zs : List ℕ) → zs ≡ x ∷ ys → has a zs ≡ false → has a ys ≡ false
absent-tail a x ys zs e out =
    let both : has a (x ∷ ys) ≡ false = subst (λ l. has a l ≡ false) e out in ground (arith, both)

module _ (cfg : ResolvedConfig) (classes : List SizeClassInfo) (fuel : ℕ) where
  pub remove_range-removed :
      (cls count : ℕ) (s : Middle) (r : Removal)
      → (s.caches cls).used ≡ 0
      → remove_range_dropping_lock cfg classes fuel cls count (central_at cls s) ≡ some r
      → remove_range cfg classes fuel cls count s
        ≡ some (r.count, r.head, put_central cls r.central s)
  remove_range-removed cls count s r empty e =
      remove_range-miss cfg classes fuel cls null null count s empty ∙ (rw e refl)

  module _ (cls : ℕ) (objects : Objects) (p : Process) (shelf : Shelf) (r : Removal) (x : ℕ)
      (ys : List ℕ) where
    abbrev k : ℕ
    k = wanted cfg classes fuel cls p

    abbrev start : Removal
    start = nothing_removed cfg classes (central_at cls p.middle)

    abbrev m : Middle
    m = put_central cls r.central p.middle

    -- The chain that a removal from the list gives.
    pub removed-Handed :
        Collected k shelf [] start r
        → reverse (take (k - 0) (objects_of shelf)) ≡ x ∷ ys
        → ((c : ℕ) → Disjoint (objects c) (objects_of shelf))
        → Handed cfg classes fuel objects p r.count r.head m x ys
    removed-Handed done e apart = record {
      chain = subst (Links r.central.words r.head) e done.stocked.got;
      number = done.stocked.count ∙ ap (λ zs. length zs) e;
      apart = λ c a i. elim (Bool-cases (has a (objects c))) [
        | inl there ↦
            let out : has a (reverse (take (k - 0) (objects_of shelf))) ≡ false =
              has-reverse_aux (k - 0) a (objects_of shelf) [] (apart c a there) refl in
            absurd (ground (arith, absent-tail a x ys _ e out, i))
        | inr absent ↦ absent
      ];
      kept = λ c a i. done.moves.words a (apart c a i);
    }

    -- The list after the cache took its objects.
    pub left-Stocked :
        (q : Process)
        → (done : Collected k shelf [] start r) → reverse (take (k - 0) (objects_of shelf)) ≡ x ∷ ys
        → Fetched cfg classes fuel objects cls ys m q
        → Stocked (nothing_removed cfg classes (central_at cls q.middle)) done.shelf_left []
    left-Stocked q done e fetched =
        let left = done.shelf_left in
        let list_e : q.middle.central cls ≡ r.central.list =
          ap (λ f. f cls) fetched.central ∙ update_self p.middle.central cls r.central.list in
        record {
          list =
              subst (λ h. IsList h.spans (q.middle.central cls).nonempty_spans (spans_of left))
                (sym fetched.heap)
                (subst (λ l. IsList r.central.heap.spans l.nonempty_spans (spans_of left))
                  (sym list_e) done.stocked.list);
          free =
              Free-frame r.central.heap.spans q.middle.heap.spans r.central.words q.middle.words
                left (λ s i. ap (λ h. (h.spans s).freelist) fetched.heap)
                (λ a i. fetched.words a (absent-tail a x ys _ e (done.stocked.apart a i)))
                done.stocked.free;
          got = refl;
          apart = λ a i. refl;
          count = refl;
        }
