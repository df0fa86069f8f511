-- ===== src/ThreadCache/Batched.antt =====
-- src/thread_cache.rs: an allocation that takes a ready batch of the transfer cache.
use mathlib.Core.Path.{subst}
use rtmalloc.Base.{
  ℕ, ◌+◌, ◌*◌, ◌^◌, ◌<◌, ◌≡◌, refl, sym, ap, ◌∙◌, List, [], ◌∷◌, ◌++◌, Option, some, arith, length,
  update, update_self,
}
use rtmalloc.Build.{ResolvedConfig}
use rtmalloc.FreeObject.Links.{Links, Disjoint}
use rtmalloc.SizeClass.{SizeClassInfo, class_info, class_to_size, num_size_classes}
use rtmalloc.Span.{null}
use rtmalloc.ThreadCache.Accounting.{Objects, IsCached}
use rtmalloc.ThreadCache.Cache.{Process, put_list, allocate}
use rtmalloc.ThreadCache.Missing.{allocate-miss, ++-nil}
use rtmalloc.ThreadCache.Moves.{put_list-IsCached}
use rtmalloc.ThreadCache.Refilling.{wanted, fetch_from_central-Fetched}
use rtmalloc.TransferCache.{pop, put_cache}
use rtmalloc.TransferCache.Stack.{IsStack, pop-IsStack, remove_range-hit}

module _ (cfg : ResolvedConfig) (classes : List SizeClassInfo) (fuel : ℕ) where
  -- A cache in order has no object of the class, and the class has a ready batch, a chain of as
  -- many objects as its batch size, fewer than 2^32, that do not stand in the cache. Where the
  -- bytes stay below 2^64, `allocate` returns the first object of the batch on top; the cache, in
  -- order, holds all the others, however few a fetch wanted, and the batches below are ready as
  -- before.
  pub allocate-pop :
      (cls head tail x : ℕ) (ys : List ℕ) (batches : List (ℕ × ℕ)) (objects : Objects) (p : Process)
      → IsCached classes objects p
      → cls < num_size_classes classes
      → objects cls ≡ []
      → IsStack cfg.max_transfer_slots (p.middle.caches cls) ((head, tail) ∷ batches)
      → Links p.middle.words head (x ∷ ys)
      → length (x ∷ ys) ≡ (class_info classes cls).batch_size
      → ((c : ℕ) → Disjoint ys (objects c))
      → (class_info classes cls).batch_size < 2 ^ 32
      → p.cache.total_size + (class_info classes cls).batch_size * class_to_size classes cls
        < 2 ^ 64
      → (q : Process) × (allocate cfg classes fuel cls p ≡ some (x, q))
        × IsCached classes (update objects cls ys) q
        × IsStack cfg.max_transfer_slots (q.middle.caches cls) batches
  allocate-pop cls head tail x ys batches objects p is lt empty stack links whole apart small fits =
      let l = p.cache.lists cls in
      let p1 = put_list cls l p in
      let batch = (class_info classes cls).batch_size in
      let popped = pop (p.middle.caches cls) in
      let m = put_cache cls popped.1 p.middle in
      let none_cached : l.head ≡ null =
        subst (Links p.middle.words l.head) empty (is.lists cls).links in
      let no_object : length (objects cls) ≡ 0 = ap (λ zs. length zs) empty in
      let (top, below) =
        pop-IsStack cfg.max_transfer_slots (p.middle.caches cls) ((head, tail) ∷ batches) stack in
      let hit =
        remove_range-hit cfg classes fuel cls head tail (wanted cfg classes fuel cls p1) p.middle
          popped.1 (ap (λ (o : Option (ℕ × ℕ)). (o, popped.1)) top) in
      let (q, e, fetched) =
        fetch_from_central-Fetched cfg classes fuel cls batch head x ys m objects p1
          (put_list-IsCached cfg classes fuel cls l objects p is refl refl) lt hit
          (record { chain = links; number = sym whole; apart = apart; kept = λ c a i. refl })
          (omega (arith, no_object, small)) fits in
      (
        q,
        allocate-miss cfg classes fuel cls objects [] p none_cached ∙ e,
        subst (λ zs. IsCached classes (update objects cls zs) q)
            (ap (λ zs. ys ++ zs) empty ∙ ++-nil ys) fetched.cached,
        subst (λ t. IsStack cfg.max_transfer_slots t batches)
            (sym (ap (λ f. f cls) fetched.caches ∙ update_self p.middle.caches cls popped.1)) below,
      )
