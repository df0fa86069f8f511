-- ===== src/ThreadCache/Missing.antt =====
-- src/thread_cache.rs: an allocation that the cache cannot serve and the central list can.
use mathlib.Core.List.{reverse}
use mathlib.Core.Path.{subst}
use rtmalloc.Base.{
  ℕ, ◌+◌, ◌-◌, ◌*◌, ◌^◌, ◌<◌, ◌≤◌, ◌≡◌, refl, sym, ap, ◌∙◌, List, [], ◌∷◌, ◌++◌, some, arith,
  length, length-take, length-reverse_aux, update, update_self, eq→==, take, drop, min, max,
}
use rtmalloc.Build.{ResolvedConfig}
use rtmalloc.Central.{nothing_removed}
use rtmalloc.Central.Collect.{remove_range_dropping_lock-Collected}
use rtmalloc.Central.Stocked.{Shelf, Stocked, objects_of}
use rtmalloc.FreeObject.Links.{Links, Disjoint}
use rtmalloc.SizeClass.{SizeClassInfo, class_info, class_to_size, num_size_classes}
use rtmalloc.Span.{null}
use rtmalloc.ThreadCache.{FreeList, pop}
use rtmalloc.ThreadCache.Accounting.{Objects, IsCached}
use rtmalloc.ThreadCache.Cache.{Process, put_list, fetch_from_central, allocate}
use rtmalloc.ThreadCache.Handing.{remove_range-removed, removed-Handed, left-Stocked}
use rtmalloc.ThreadCache.Moves.{put_list-IsCached}
use rtmalloc.ThreadCache.Refilling.{wanted, fetch_from_central-Fetched}
use rtmalloc.TransferCache.{central_at, put_central}

cons-of : (zs : List ℕ) → 0 < length zs → (x : ℕ) × (ys : List ℕ) × (zs ≡ x ∷ ys)
cons-of [] lt = absurd (omega arith)
cons-of (x ∷ ys) lt = (x, ys, refl)

pub ++-nil : (xs : List ℕ) → xs ++ [] ≡ xs
++-nil [] = refl
++-nil (x ∷ xs) = ap (λ zs. x ∷ zs) (++-nil xs)

module _ (cfg : ResolvedConfig) (classes : List SizeClassInfo) (fuel : ℕ) where
  -- What an allocation from the central list leaves: of the first `k` objects of the list, in reverse,
  -- `x` is handed out and `ys` is in the cache; the others are in the list as before.
  pub record Refilled (cls k : ℕ) (objects : Objects) (shelf : Shelf) (x : ℕ) (q : Process)
      : Type 0 where
    pub rest : List ℕ
    pub taken : reverse (take k (objects_of shelf)) ≡ x ∷ rest
    pub cached : IsCached classes (update objects cls rest) q
    pub left : Shelf
    pub kept : objects_of left ≡ drop k (objects_of shelf)
    pub stocked : Stocked (nothing_removed cfg classes (central_at cls q.middle)) left []

  module _ (cls : ℕ) (objects : Objects) (shelf : Shelf) where
    fetch_from_central-Refilled :
        (p : Process)
        → let k = wanted cfg classes fuel cls p in
          IsCached classes objects p
          → cls < num_size_classes classes
          → objects cls ≡ []
          → (p.middle.caches cls).used ≡ 0
          → Stocked (nothing_removed cfg classes (central_at cls p.middle)) shelf []
          → length shelf < fuel
          → ((c : ℕ) → Disjoint (objects c) (objects_of shelf))
          → k ≤ length (objects_of shelf)
          → k < 2 ^ 32
          → p.cache.total_size + k * class_to_size classes cls < 2 ^ 64
          → (x : ℕ) × (q : Process) × (fetch_from_central cfg classes fuel cls p ≡ some (x, q))
            × Refilled cls k objects shelf x q
    fetch_from_central-Refilled p is lt empty idle stocked fueled apart enough small fits =
        let k = wanted cfg classes fuel cls p in
        let os = objects_of shelf in
        let (r, e, done, count_e) =
          remove_range_dropping_lock-Collected cfg classes fuel cls k shelf
            (central_at cls p.middle) stocked fueled enough in
        let whole : k - 0 ≡ k = omega arith in
        let some_object : 0 < length (reverse (take (k - 0) os)) =
          omega (arith, length-reverse_aux (take (k - 0) os) [], length-take (k - 0) os, enough) in
        let (x, ys, taken) = cons-of (reverse (take (k - 0) os)) some_object in
        let none_cached : length (objects cls) ≡ 0 = ap (λ zs. length zs) empty in
        let (q, fetched_e, fetched) =
          fetch_from_central-Fetched cfg classes fuel cls r.count r.head x ys
            (put_central cls r.central p.middle) objects p is lt
            (remove_range-removed cfg classes fuel cls k p.middle r idle e)
            (removed-Handed cfg classes fuel cls objects p shelf r x ys done taken apart)
            (omega (arith, none_cached, count_e))
            (subst (λ n. p.cache.total_size + n * class_to_size classes cls < 2 ^ 64) (sym count_e)
              fits) in
        (
          x,
          q,
          fetched_e,
          record {
            rest = ys;
            taken = ap (λ n. reverse (take n os)) (sym whole) ∙ taken;
            cached =
                subst (λ zs. IsCached classes (update objects cls zs) q)
                  (ap (λ zs. ys ++ zs) empty ∙ ++-nil ys) fetched.cached;
            left = done.shelf_left;
            kept = done.left ∙ ap (λ n. drop n os) whole;
            stocked = left-Stocked cfg classes fuel cls objects p shelf r x ys q done taken fetched;
          },
        )

    pub allocate-miss :
        (p : Process)
        → (p.cache.lists cls).head ≡ null
        → allocate cfg classes fuel cls p
          ≡ fetch_from_central cfg classes fuel cls (put_list cls (p.cache.lists cls) p)
    unfolding allocate pop
    allocate-miss p e = rw (eq→== (p.cache.lists cls).head null e) refl

    -- A cache in order has no object of the class, the class has no ready batch, and the spans of
    -- its central list have the objects of a fetch, which do not stand in the cache. With fuel for
    -- one round more than the list has spans, and where a fetch is of fewer than 2^32 objects and
    -- the bytes stay below 2^64, `allocate` returns an object of the list: the first ones, as many
    -- as a fetch wants, are reversed, the first of these is handed out, and the cache, in order,
    -- holds the others; the list keeps all objects behind them.
    pub allocate-Refilled :
        (p : Process)
        → let k = wanted cfg classes fuel cls p in
          IsCached classes objects p
          → cls < num_size_classes classes
          → objects cls ≡ []
          → (p.middle.caches cls).used ≡ 0
          → Stocked (nothing_removed cfg classes (central_at cls p.middle)) shelf []
          → length shelf < fuel
          → ((c : ℕ) → Disjoint (objects c) (objects_of shelf))
          → k ≤ length (objects_of shelf)
          → k < 2 ^ 32
          → p.cache.total_size + k * class_to_size classes cls < 2 ^ 64
          → (x : ℕ) × (q : Process) × (allocate cfg classes fuel cls p ≡ some (x, q))
            × Refilled cls k objects shelf x q
    allocate-Refilled p is lt empty idle stocked fueled apart enough small fits =
        let l = p.cache.lists cls in
        let p1 = put_list cls l p in
        let none_cached : l.head ≡ null =
          subst (Links p.middle.words l.head) empty (is.lists cls).links in
        let same : wanted cfg classes fuel cls p1 ≡ wanted cfg classes fuel cls p =
          ap (λ (l : FreeList). max (min l.max_length (class_info classes cls).batch_size) 1)
            (update_self p.cache.lists cls l) in
        let (x, q, e, done) =
          fetch_from_central-Refilled p1
            (put_list-IsCached cfg classes fuel cls l objects p is refl refl) lt empty idle stocked
            fueled apart (omega (arith, same, enough)) (omega (arith, same, small))
            (subst (λ n. p.cache.total_size + n * class_to_size classes cls < 2 ^ 64) (sym same)
              fits) in
        (
          x,
          q,
          allocate-miss p none_cached ∙ e,
          subst (λ n. Refilled cls n objects shelf x q) same done,
        )
