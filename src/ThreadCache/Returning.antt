-- ===== src/ThreadCache/Returning.antt =====
-- src/thread_cache.rs: the objects of the cache while objects are returned and memory is given back.
use rtmalloc.Base.{
  ℕ, zero, suc, ◌+◌, ◌-◌, ◌/◌, ◌^◌, ◌<◌, ◌≤◌, ◌≡◌, refl, sym, ◌≢◌, false, List, ◌∷◌, some, arith,
  ◌==◌, if◌then◌else◌, ltb, length, update, drop, min, Ensures, Ensures->>=, Ensures-weaken,
  Ensures-if, Ensures-some,
}
use rtmalloc.Base.Rounding.{usize, u32}
use rtmalloc.Build.{ResolvedConfig}
use rtmalloc.FreeObject.Links.{Links-update}
use rtmalloc.SizeClass.{SizeClassInfo, class_info, class_to_size, num_size_classes}
use rtmalloc.Span.{null}
use rtmalloc.Span.Chain.{has}
use rtmalloc.ThreadCache.{FreeList, push}
use rtmalloc.ThreadCache.Accounting.{Objects, IsCached, IsCached-replace}
use rtmalloc.ThreadCache.Cache.{
  Process, put_list, put_total, give_batch, adjust_max_length, release_to_central, new_epoch,
  scavenge_class, scavenge_from, scavenge, increase_cache_limit, deallocate,
}
use rtmalloc.ThreadCache.FreeListLaws.{push-IsFree}
use rtmalloc.ThreadCache.Shorter.{Shorter, Shorter-refl, Shorter-trans, Shorter-update}
use rtmalloc.ThreadCache.Moves.{split_product, give_batch-IsCached, put_list-IsCached}

adjust_max_length-kept :
    (max_overages batch : ℕ) (l : FreeList)
    → ((adjust_max_length max_overages batch l).head ≡ l.head)
      × ((adjust_max_length max_overages batch l).length ≡ l.length)
unfolding adjust_max_length
adjust_max_length-kept max_overages batch l = ground arith

module _ (cfg : ResolvedConfig) (classes : List SizeClassInfo) (fuel : ℕ) where
  -- The cache is in order, and what it holds is left of `objects`.
  abbrev pub Holds : Objects → Process → Type 0
  Holds objects p = (left : Objects) × Shorter objects left × IsCached classes left p

  pub give_batch-Holds :
      (cls n : ℕ) (objects : Objects) (p : Process)
      → Holds objects p
      → cls < num_size_classes classes
      → Ensures (Holds objects) (give_batch cfg classes fuel cls n p)
  give_batch-Holds cls n objects p (left, shorter, is) lt =
      Ensures-weaken (Holds objects) (give_batch cfg classes fuel cls n p)
        (give_batch-IsCached cfg classes fuel cls n left p is lt)
        (λ q now. (
          update left cls (drop n (left cls)),
          Shorter-trans objects left (update left cls (drop n (left cls))) shorter
              (Shorter-update left cls n),
          now,
        ))

  put_list-Holds :
      (cls : ℕ) (l : FreeList) (objects : Objects) (p : Process)
      → Holds objects p
      → l.head ≡ (p.cache.lists cls).head
      → l.length ≡ (p.cache.lists cls).length
      → Holds objects (put_list cls l p)
  put_list-Holds cls l objects p (left, shorter, is) h n =
      (left, shorter, put_list-IsCached cfg classes fuel cls l left p is h n)

  release_to_central-Holds :
      (cls : ℕ) (objects : Objects) (p : Process)
      → Holds objects p
      → cls < num_size_classes classes
      → Ensures (Holds objects) (release_to_central cfg classes fuel cls p)
  unfolding release_to_central
  release_to_central-Holds cls objects p is lt =
      let batch = u32 (class_info classes cls).batch_size in
      let to_release = min batch (p.cache.lists cls).length in
      Ensures-if (Holds objects) (to_release == 0) _ _ is (
        Ensures->>= (Holds objects) (give_batch cfg classes fuel cls to_release p) _
          (give_batch-Holds cls to_release objects p is lt)
          (λ q now.
            put_list-Holds cls (adjust_max_length cfg.max_overages batch (q.cache.lists cls))
              objects q now (adjust_max_length-kept cfg.max_overages batch (q.cache.lists cls)).0
              (adjust_max_length-kept cfg.max_overages batch (q.cache.lists cls)).1))

  scavenge_class-Holds :
      (cls : ℕ) (objects : Objects) (p : Process)
      → Holds objects p
      → cls < num_size_classes classes
      → Ensures (Holds objects) (scavenge_class cfg classes fuel cls p)
  unfolding scavenge_class new_epoch
  scavenge_class-Holds cls objects p is lt =
      let lwm = (p.cache.lists cls).low_water_mark in
      let n = if ltb 1 lwm then lwm / 2 else 1 in
      Ensures->>= (Holds objects)
        (if ltb 0 lwm then give_batch cfg classes fuel cls n p else some p) _
        (Ensures-if (Holds objects) (ltb 0 lwm) _ _ (give_batch-Holds cls n objects p is lt) is)
        (λ q now.
          put_list-Holds cls (new_epoch cfg classes fuel cls (q.cache.lists cls)) objects q now refl
            refl)

  scavenge_from-Holds :
      (rounds cls : ℕ) (objects : Objects) (p : Process)
      → Holds objects p
      → cls + rounds ≤ num_size_classes classes
      → Ensures (Holds objects) (scavenge_from cfg classes fuel rounds cls p)
  unfolding scavenge_from
  scavenge_from-Holds zero cls objects p is le = is
  scavenge_from-Holds (suc rounds) cls objects p is le =
      Ensures->>= (Holds objects) (scavenge_class cfg classes fuel cls p)
        (scavenge_from cfg classes fuel rounds (cls + 1))
        (scavenge_class-Holds cls objects p is (omega arith))
        (λ q now. scavenge_from-Holds rounds (cls + 1) objects q now (omega arith))

  scavenge-Holds :
      (objects : Objects) (p : Process)
      → Holds objects p
      → 0 < num_size_classes classes
      → Ensures (Holds objects) (scavenge cfg classes fuel p)
  unfolding scavenge increase_cache_limit
  scavenge-Holds objects p is lt =
      Ensures->>= (Holds objects)
        (scavenge_from cfg classes fuel (num_size_classes classes - 1) 1 p) _
        (scavenge_from-Holds (num_size_classes classes - 1) 1 objects p is (omega arith))
        (λ q (left, shorter, now). (
          left,
          shorter,
          record {
            lists = now.lists;
            apart = now.apart;
            short = now.short;
            total = now.total;
            bound = now.bound;
          },
        ))

  -- The cache's part of `deallocate`, before the tests.
  abbrev added : ℕ → ℕ → Process → Process
  added ptr cls p =
      let (words, l) = push ptr (p.middle.words, p.cache.lists cls) in
      put_total (usize (p.cache.total_size + class_to_size classes cls))
        (put_list cls l (record p { middle = record (p.middle) { words = words } }))

  added-IsCached :
      (ptr cls : ℕ) (objects : Objects) (p : Process)
      → IsCached classes objects p
      → cls < num_size_classes classes
      → ptr ≢ null
      → ((c : ℕ) → has ptr (objects c) ≡ false)
      → length (objects cls) + 1 < 2 ^ 32
      → p.cache.total_size + class_to_size classes cls < 2 ^ 64
      → IsCached classes (update objects cls (ptr ∷ objects cls)) (added ptr cls p)
  unfolding push
  added-IsCached ptr cls objects p is lt ne fresh short fits =
      IsCached-replace classes objects p (added ptr cls p) cls (ptr ∷ objects cls)
        (push ptr (p.middle.words, p.cache.lists cls)).1 is lt refl
        (push-IsFree p.middle.words (p.cache.lists cls) (objects cls) ptr (is.lists cls) ne
          (fresh cls))
        (λ d other. record {
          links =
              Links-update p.middle.words (p.cache.lists d).head (objects d) ptr
                (p.cache.lists cls).head (fresh d) (is.lists d).links;
          count = (is.lists d).count;
        })
        (λ d other a i. ground (arith, fresh d, is.apart cls d (λ e. other (sym e)) a))
        (omega arith)
        (omega (
          arith,
          split_product (length (objects cls)) 1 (length (ptr ∷ objects cls))
              (class_to_size classes cls) (omega arith),
        ))
        (omega arith)

  deallocate-Holds :
      (ptr cls : ℕ) (objects : Objects) (p : Process)
      → IsCached classes objects p
      → cls < num_size_classes classes
      → ptr ≢ null
      → ((c : ℕ) → has ptr (objects c) ≡ false)
      → length (objects cls) + 1 < 2 ^ 32
      → p.cache.total_size + class_to_size classes cls < 2 ^ 64
      → Ensures
          (Holds (update objects cls (ptr ∷ objects cls)))
          (deallocate cfg classes fuel ptr cls p)
  unfolding deallocate
  deallocate-Holds ptr cls objects p is lt ne fresh short fits =
      let more = update objects cls (ptr ∷ objects cls) in
      let p1 = added ptr cls p in
      let l = (push ptr (p.middle.words, p.cache.lists cls)).1 in
      let now : Holds more p1 =
        (more, Shorter-refl more, added-IsCached ptr cls objects p is lt ne fresh short fits) in
      Ensures->>= (Holds more)
        (if ltb l.max_length l.length then release_to_central cfg classes fuel cls p1 else some p1)
        _
        (Ensures-if (Holds more) (ltb l.max_length l.length)
          (release_to_central cfg classes fuel cls p1) (some p1)
          (release_to_central-Holds cls more p1 now lt) now)
        (λ q later.
          Ensures-if (Holds more) (ltb q.cache.max_size q.cache.total_size)
            (scavenge cfg classes fuel q) (some q) (scavenge-Holds more q later (omega arith))
            later)

  -- To a cache in order an object that is in none of its lists is returned, the tests of both
  -- limits and what they give back included, where the list stays below 2^32 objects and the bytes
  -- below 2^64 and no assertion of the tiers below fails. Then each list holds objects that it held
  -- or the new one, in their order and less some first ones; no object is in two lists, and the
  -- total counts exactly their bytes.
  pub deallocate-IsCached :
      (ptr cls : ℕ) (objects : Objects) (p q : Process)
      → IsCached classes objects p
      → cls < num_size_classes classes
      → ptr ≢ null
      → ((c : ℕ) → has ptr (objects c) ≡ false)
      → length (objects cls) + 1 < 2 ^ 32
      → p.cache.total_size + class_to_size classes cls < 2 ^ 64
      → deallocate cfg classes fuel ptr cls p ≡ some q
      → (left : Objects) × Shorter (update objects cls (ptr ∷ objects cls)) left
        × IsCached classes left q
  deallocate-IsCached ptr cls objects p q is lt ne fresh short fits e =
      Ensures-some (Holds (update objects cls (ptr ∷ objects cls)))
        (deallocate cfg classes fuel ptr cls p)
        (deallocate-Holds ptr cls objects p is lt ne fresh short fits) e
