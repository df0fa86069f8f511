-- ===== src/ThreadCache/Serving.antt =====
-- src/thread_cache.rs: an allocation that the cache can serve.
use mathlib.Core.Path.{subst}
use rtmalloc.Base.{ℕ, ◌<◌, ◌≡◌, refl, sym, ap, false, List, ◌∷◌, some, arith, ◌==◌, length, update}
use rtmalloc.Base.Rounding.{usize_sub}
use rtmalloc.Build.{ResolvedConfig}
use rtmalloc.SizeClass.{SizeClassInfo, class_to_size, num_size_classes}
use rtmalloc.Span.{null}
use rtmalloc.ThreadCache.{FreeList, pop}
use rtmalloc.ThreadCache.Accounting.{Objects, IsCached, IsCached-replace}
use rtmalloc.ThreadCache.Cache.{Process, put_list, put_total, allocate}
use rtmalloc.ThreadCache.FreeListLaws.{IsFree, pop-IsFree}
use rtmalloc.ThreadCache.Moves.{bytes-class, split_product}

module _ (cfg : ResolvedConfig) (classes : List SizeClassInfo) (fuel : ℕ) where
  popped-IsCached :
      (cls x : ℕ) (xs : List ℕ) (objects : Objects) (p : Process) (l : FreeList)
      → IsCached classes objects p
      → cls < num_size_classes classes
      → objects cls ≡ x ∷ xs
      → IsFree p.middle.words l xs
      → IsCached classes
          (update objects cls xs)
          (put_total (usize_sub p.cache.total_size (class_to_size classes cls)) (put_list cls l p))
  popped-IsCached cls x xs objects p l is lt e now =
      let size = class_to_size classes cls in
      let more : length (objects cls) ≡ length (x ∷ xs) = ap (λ zs. length zs) e in
      let q = put_total (usize_sub p.cache.total_size size) (put_list cls l p) in
      IsCached-replace classes objects p q cls xs l is lt refl now (λ d ne. is.lists d)
        (λ d ne a i. is.apart cls d (λ f. ne (sym f)) a (rw e (ground arith)))
        (omega (arith, is.short cls, more))
        (omega (
          arith,
          is.total,
          is.bound,
          more,
          bytes-class cfg classes fuel cls objects lt,
          split_product (length xs) 1 (length (objects cls)) size (omega (arith, more)),
        ))
        (omega arith)

  -- Where a cache in order holds an object of the class, `allocate` returns the one that was put in
  -- last; the others stay, and all lists and the total are in order.
  pub allocate-IsCached :
      (cls x : ℕ) (xs : List ℕ) (objects : Objects) (p : Process)
      → IsCached classes objects p
      → cls < num_size_classes classes
      → objects cls ≡ x ∷ xs
      → (q : Process) × (allocate cfg classes fuel cls p ≡ some (x, q))
        × IsCached classes (update objects cls xs) q
  unfolding allocate
  allocate-IsCached cls x xs objects p is lt e =
      let l = p.cache.lists cls in
      let free : IsFree p.middle.words l (x ∷ xs) =
        subst (IsFree p.middle.words l) e (is.lists cls) in
      let (first, now, _) = pop-IsFree p.middle.words l x xs free in
      let some_object : ((pop p.middle.words l).0 == null) ≡ false =
        ground (arith, first, free.links.1) in
      let q =
        put_total (usize_sub p.cache.total_size (class_to_size classes cls))
          (put_list cls (pop p.middle.words l).1 p) in
      let done = popped-IsCached cls x xs objects p (pop p.middle.words l).1 is lt e now in
      (q, rw some_object (ap (λ o. some (o, q)) first), done)
