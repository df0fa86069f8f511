-- ===== src/ThreadCache/Moves.antt =====
-- src/thread_cache.rs: one batch leaves the cache, or one object enters it.
use mathlib.Core.List.{reverse}
use mathlib.Core.Path.{subst}
use rtmalloc.Base.{
  ℕ, ◌+◌, ◌*◌, ◌<◌, ◌≤◌, ◌≡◌, refl, sym, ◌∙◌, inl, inr, true, false, List, [], arith, length,
  update, update_self, update_ne, take, drop, length-take, length-drop, length-reverse_aux, Ensures,
  Ensures->>=,
}
use rtmalloc.Base.Rounding.{usize_sub}
use rtmalloc.Build.{ResolvedConfig}
use rtmalloc.Central.Stocked.{drop-has, has-reverse_aux}
use rtmalloc.Central.Writes.{SameBut}
use rtmalloc.FreeObject.{Words}
use rtmalloc.FreeObject.Links.{Links-frame}
use rtmalloc.SizeClass.{SizeClassInfo, class_info, class_to_size, num_size_classes}
use rtmalloc.Span.Chain.{has}
use rtmalloc.ThreadCache.{FreeList, pop_batch}
use rtmalloc.ThreadCache.Accounting.{
  Objects, IsCached, IsCached-replace, bytes, bytes-update, eq_or_ne,
}
use rtmalloc.ThreadCache.Cache.{Process, put_list, put_total, give_batch}
use rtmalloc.ThreadCache.FreeListLaws.{IsFree}
use rtmalloc.ThreadCache.PopBatch.{pop_batch-IsPopped}
use rtmalloc.TransferCache.{Middle, insert_range}
use rtmalloc.TransferCache.Writes.{insert_range-SameBut}

pub IsFree-frame :
    (w v : Words) (l : FreeList) (xs : List ℕ)
    → ((a : ℕ) → has a xs ≡ true → v a ≡ w a)
    → IsFree w l xs
    → IsFree v l xs
IsFree-frame w v l xs same is = record {
  links = Links-frame w v l.head xs same is.links;
  count = is.count;
}

pub split_product : (k m n s : ℕ) → k + m ≡ n → k * s + m * s ≡ n * s
split_product k m n s e = grind (arith, e)

module _ (cfg : ResolvedConfig) (classes : List SizeClassInfo) (fuel : ℕ) where
  -- The bytes of one class are a part of all.
  pub bytes-class :
      (cls : ℕ) (objects : Objects)
      → cls < num_size_classes classes
      → length (objects cls) * class_to_size classes cls
        ≤ bytes classes (num_size_classes classes) objects
  bytes-class cls objects lt =
      omega (arith, bytes-update classes (num_size_classes classes) cls [] objects lt)

  -- After a batch of `n` objects was popped and is on its way, the state with the new middle tiers.
  abbrev given : ℕ → ℕ → Process → Middle → Process
  given cls n p m =
      let batch = pop_batch n (p.middle.words, p.cache.lists cls) in
      record (put_total
        (usize_sub p.cache.total_size (batch.popped * (class_info classes cls).size))
        (put_list cls batch.list p)) { middle = m }

  given-IsCached :
      (cls n : ℕ) (objects : Objects) (p : Process) (m : Middle)
      → IsCached classes objects p
      → cls < num_size_classes classes
      → SameBut
          (reverse (take n (objects cls)))
          (pop_batch n (p.middle.words, p.cache.lists cls)).words
          m.words
      → IsCached classes (update objects cls (drop n (objects cls))) (given cls n p m)
  given-IsCached cls n objects p m is lt same =
      let xs = objects cls in
      let batch = pop_batch n (p.middle.words, p.cache.lists cls) in
      let (popped, kept) =
        pop_batch-IsPopped n p.middle.words (p.cache.lists cls) xs (is.lists cls) in
      IsCached-replace classes objects p (given cls n p m) cls (drop n xs) batch.list is lt refl
        (record {
          links =
              Links-frame batch.words m.words batch.list.head (drop n xs)
                (λ a i. same a (popped.apart a i)) popped.rest;
          count = popped.count;
        })
        (λ d ne.
          IsFree-frame p.middle.words m.words (p.cache.lists d) (objects d)
            (λ a i.
              let out : has a xs ≡ false = is.apart d cls ne a i in
              same a (has-reverse_aux n a xs [] out refl) ∙ kept.words a out)
            (is.lists d))
        (λ d ne a i. is.apart cls d (λ e. ne (sym e)) a (drop-has n a xs i))
        (omega (arith, is.short cls, length-drop n xs))
        (omega (
          arith,
          is.total,
          is.bound,
          bytes-class cls objects lt,
          split_product batch.popped (length (drop n xs)) (length xs) (class_to_size classes cls)
              parts,
        ))
        (omega arith)
    where
      parts :
          (pop_batch n (p.middle.words, p.cache.lists cls)).popped + length (drop n (objects cls))
          ≡ length (objects cls)
      parts =
          let xs = objects cls in
          let (popped, _) =
            pop_batch-IsPopped n p.middle.words (p.cache.lists cls) xs (is.lists cls) in
          omega (
            arith,
            popped.popped,
            length-reverse_aux (take n xs) [],
            length-take n xs,
            length-drop n xs,
            is.short cls,
          )

  -- A batch of the first `n` objects of a class leaves the cache, and their bytes the total.
  pub give_batch-IsCached :
      (cls n : ℕ) (objects : Objects) (p : Process)
      → IsCached classes objects p
      → cls < num_size_classes classes
      → Ensures
          (IsCached classes (update objects cls (drop n (objects cls))))
          (give_batch cfg classes fuel cls n p)
  unfolding give_batch
  give_batch-IsCached cls n objects p is lt =
      let batch = pop_batch n (p.middle.words, p.cache.lists cls) in
      let (popped, _) =
        pop_batch-IsPopped n p.middle.words (p.cache.lists cls) (objects cls) (is.lists cls) in
      Ensures->>= (IsCached classes (update objects cls (drop n (objects cls))))
        (insert_range cfg classes fuel cls batch.head batch.tail batch.popped
          (record (p.middle) { words = batch.words }))
        _
        (insert_range-SameBut cfg classes fuel cls batch.head batch.tail batch.popped
          (record (p.middle) { words = batch.words }) (reverse (take n (objects cls))) popped.got)
        (λ m same. given-IsCached cls n objects p m is lt same)

  -- A change of a list's limits and marks.
  pub put_list-IsCached :
      (cls : ℕ) (l : FreeList) (objects : Objects) (p : Process)
      → IsCached classes objects p
      → l.head ≡ (p.cache.lists cls).head
      → l.length ≡ (p.cache.lists cls).length
      → IsCached classes objects (put_list cls l p)
  put_list-IsCached cls l objects p is head_e length_e = record {
    lists = λ d. elim (eq_or_ne d cls) [
      | inl e ↦
          subst (λ c. IsFree p.middle.words (update p.cache.lists cls l c) (objects c)) (sym e)
            (rw (update_self p.cache.lists cls l) (record {
              links = rw head_e (is.lists cls).links;
              count = length_e ∙ (is.lists cls).count;
            }))
      | inr ne ↦ rw (update_ne p.cache.lists cls l d ne) (is.lists d)
    ];
    apart = is.apart;
    short = is.short;
    total = is.total;
    bound = is.bound;
  }
