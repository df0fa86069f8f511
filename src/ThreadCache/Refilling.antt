-- ===== src/ThreadCache/Refilling.antt =====
-- src/thread_cache.rs: objects that `fetch_from_central` moves into the cache.
use mathlib.Core.Path.{subst}
use rtmalloc.Base.{
  ℕ, ◌+◌, ◌-◌, ◌*◌, ◌^◌, ◌<◌, ◌≡◌, refl, sym, ap, ◌∙◌, inl, inr, true, false, List, [], ◌∷◌, ◌++◌,
  some, arith, ◌==◌, ◌||◌, ltb, Bool-cases, length, length-append, update, update_ne, min, max,
}
use rtmalloc.Base.Rounding.{usize, u32}
use rtmalloc.Build.{ResolvedConfig}
use rtmalloc.Central.Writes.{SameBut}
use rtmalloc.FreeObject.{Words}
use rtmalloc.FreeObject.Links.{Links, Disjoint, Disjoint-sym, has-append}
use rtmalloc.SizeClass.{SizeClassInfo, class_info, class_to_size, num_size_classes}
use rtmalloc.Span.{null}
use rtmalloc.Span.Chain.{has, has-ne}
use rtmalloc.ThreadCache.{FreeList, push_batch, find_tail}
use rtmalloc.ThreadCache.Accounting.{Objects, IsCached, IsCached-replace}
use rtmalloc.ThreadCache.Cache.{
  Process, put_list, put_total, grow_max_length_on_fetch, fetch_from_central,
}
use rtmalloc.ThreadCache.FreeListLaws.{IsFree, find_tail-has, push_batch-IsFree}
use rtmalloc.ThreadCache.Moves.{split_product, IsFree-frame, put_list-IsCached}
use rtmalloc.TransferCache.{Middle, remove_range}

-- Only the last object of the batch is written.
pub push_batch-SameBut :
    (w : Words) (l : FreeList) (head count : ℕ) (ys : List ℕ)
    → Links w head ys
    → SameBut ys w (push_batch head count (w, l)).0
unfolding push_batch
push_batch-SameBut w l head count [] links a out =
    let idle : (head == null) ≡ true = ground arith in rw idle refl
push_batch-SameBut w l head count (y ∷ ys) (e, ne, fresh, rest) a out =
    elim (Bool-cases (head == null || count == 0)) [
      | inl idle ↦ rw idle refl
      | inr busy ↦
          let there : has (find_tail (count - 1) w head) (y ∷ ys) ≡ true =
            subst (λ h. has (find_tail (count - 1) w h) (y ∷ ys) ≡ true) (sym e)
              (find_tail-has w (count - 1) y ys rest) in
          rw busy
            (update_ne w (find_tail (count - 1) w head) l.head a (has-ne a _ (y ∷ ys) out there))
    ]

grow_max_length_on_fetch-kept :
    (max_free_list_length batch_size : ℕ) (l : FreeList)
    → ((grow_max_length_on_fetch max_free_list_length batch_size l).head ≡ l.head)
      × ((grow_max_length_on_fetch max_free_list_length batch_size l).length ≡ l.length)
unfolding grow_max_length_on_fetch
grow_max_length_on_fetch-kept max_free_list_length batch_size l = (refl, refl)

module _ (cfg : ResolvedConfig) (classes : List SizeClassInfo) (fuel : ℕ) where
  -- What the middle tiers handed over: the chain of `x` and `ys`, with the cache's objects as they were.
  pub record Handed (objects : Objects) (p : Process) (count head : ℕ) (m : Middle) (x : ℕ)
      (ys : List ℕ) : Type 0 where
    pub chain : Links m.words head (x ∷ ys)
    pub number : count ≡ length (x ∷ ys)
    pub apart : (c : ℕ) → Disjoint ys (objects c)
    pub kept : (c a : ℕ) → has a (objects c) ≡ true → m.words a ≡ p.middle.words a

  -- The batch without its first object stands in front of the list.
  abbrev filled : ℕ → ℕ → ℕ → Middle → Process → Process
  filled cls count head m p =
      let (words, l) = push_batch (m.words head) (u32 (count - 1)) (m.words, p.cache.lists cls) in
      put_total (usize (p.cache.total_size + (count - 1) * (class_info classes cls).size))
        (put_list cls l (record p { middle = record m { words = words } }))

  filled-IsCached :
      (cls count head x : ℕ) (ys : List ℕ) (m : Middle) (objects : Objects) (p : Process)
      → IsCached classes objects p
      → cls < num_size_classes classes
      → Handed objects p count head m x ys
      → length (objects cls) + count < 2 ^ 32
      → p.cache.total_size + count * class_to_size classes cls < 2 ^ 64
      → IsCached classes (update objects cls (ys ++ objects cls)) (filled cls count head m p)
  filled-IsCached cls count head x ys m objects p is lt handed short fits =
      let (e, ne, fresh, rest) = handed.chain in
      let chain : Links m.words (m.words head) ys = rw e rest in
      let size = class_to_size classes cls in
      let l = p.cache.lists cls in
      let batch = push_batch (m.words head) (u32 (count - 1)) (m.words, l) in
      let more = length-append {0} ys (objects cls) in
      let one : (count - 1) * size + 1 * size ≡ count * size =
        split_product (count - 1) 1 count size (omega (arith, handed.number)) in
      let all : (count - 1) * size + length (objects cls) * size
          ≡ length (ys ++ objects cls) * size =
        split_product (count - 1) (length (objects cls)) (length (ys ++ objects cls)) size
          (omega (arith, handed.number, more)) in
      let before : (d : ℕ) → IsFree m.words (p.cache.lists d) (objects d) = λ d.
        IsFree-frame p.middle.words m.words (p.cache.lists d) (objects d) (handed.kept d)
          (is.lists d) in
      IsCached-replace classes objects p (filled cls count head m p) cls (ys ++ objects cls) batch.1
        is lt refl
        (push_batch-IsFree m.words l (m.words head) (u32 (count - 1)) ys (objects cls) (before cls)
          chain (omega (arith, handed.number)) (handed.apart cls))
        (λ d ne.
          IsFree-frame m.words batch.0 (p.cache.lists d) (objects d)
            (λ a i.
              push_batch-SameBut m.words l (m.words head) (u32 (count - 1)) ys chain a
                (Disjoint-sym a ys (objects d) (handed.apart d) i))
            (before d))
        (λ d ne a i. ground (
          arith,
          handed.apart d a,
          is.apart cls d (λ f. ne (sym f)) a,
          has-append a ys (objects cls),
        ))
        (omega (arith, handed.number, length-append {0} ys (objects cls))) (omega (arith, one, all))
        (omega (arith, one, all))

  -- A single object bypasses the list.
  bypassed-IsCached :
      (cls count head x : ℕ) (m : Middle) (objects : Objects) (p : Process) (l : FreeList)
      → IsCached classes objects p
      → cls < num_size_classes classes
      → Handed objects p count head m x []
      → l.head ≡ (p.cache.lists cls).head
      → l.length ≡ (p.cache.lists cls).length
      → IsCached classes
          (update objects cls (objects cls))
          (put_list cls l (record p { middle = m }))
  bypassed-IsCached cls count head x m objects p l is lt handed head_e length_e =
      let before : (d : ℕ) → IsFree m.words (p.cache.lists d) (objects d) = λ d.
        IsFree-frame p.middle.words m.words (p.cache.lists d) (objects d) (handed.kept d)
          (is.lists d) in
      IsCached-replace classes objects p (put_list cls l (record p { middle = m })) cls
        (objects cls) l is lt refl
        (record {
          links = subst (λ h. Links m.words h (objects cls)) (sym head_e) (before cls).links;
          count = length_e ∙ (before cls).count;
        })
        (λ d ne. before d) (λ d ne. is.apart cls d (λ f. ne (sym f))) (is.short cls) refl is.bound

  -- The objects in the cache after a fetch, and what the middle tiers are left with.
  pub record Fetched (objects : Objects) (cls : ℕ) (ys : List ℕ) (m : Middle) (q : Process)
      : Type 0 where
    pub cached : IsCached classes (update objects cls (ys ++ objects cls)) q
    pub central : q.middle.central ≡ m.central
    pub caches : q.middle.caches ≡ m.caches
    pub heap : q.middle.heap ≡ m.heap
    pub words : SameBut ys m.words q.middle.words

  abbrev pub wanted : ℕ → Process → ℕ
  wanted cls p = max (min (p.cache.lists cls).max_length (class_info classes cls).batch_size) 1

  pub fetch_from_central-Fetched :
      (cls count head x : ℕ) (ys : List ℕ) (m : Middle) (objects : Objects) (p : Process)
      → IsCached classes objects p
      → cls < num_size_classes classes
      → remove_range cfg classes fuel cls (wanted cls p) p.middle ≡ some (count, head, m)
      → Handed objects p count head m x ys
      → length (objects cls) + count < 2 ^ 32
      → p.cache.total_size + count * class_to_size classes cls < 2 ^ 64
      → (q : Process) × (fetch_from_central cfg classes fuel cls p ≡ some (x, q))
        × Fetched objects cls ys m q
  unfolding fetch_from_central grow_max_length_on_fetch
  fetch_from_central-Fetched cls count head x [] m objects p is lt e handed short fits =
      let info = class_info classes cls in
      let grown =
        grow_max_length_on_fetch cfg.max_free_list_length info.batch_size (p.cache.lists cls) in
      let q = put_list cls grown (record p { middle = m }) in
      let single : ltb 0 (count - 1) ≡ false = ground (arith, handed.number) in
      let found : (count == 0 || head == null) ≡ false =
        ground (arith, handed.number, handed.chain.0, handed.chain.1) in
      (
        q,
        rw (e, single, found) (ap (λ h. some (h, q)) handed.chain.0),
        record {
          cached = bypassed-IsCached cls count head x m objects p grown is lt handed refl refl;
          central = refl;
          caches = refl;
          heap = refl;
          words = λ a out. refl;
        },
      )
  fetch_from_central-Fetched cls count head x (y ∷ ys) m objects p is lt e handed short fits =
      let info = class_info classes cls in
      let p2 = filled cls count head m p in
      let grown =
        grow_max_length_on_fetch cfg.max_free_list_length info.batch_size (p2.cache.lists cls) in
      let q = put_list cls grown p2 in
      let several : ltb 0 (count - 1) ≡ true = ground (arith, handed.number) in
      let found : (count == 0 || head == null) ≡ false =
        ground (arith, handed.number, handed.chain.0, handed.chain.1) in
      let (first, ne, fresh, rest) = handed.chain in
      (
        q,
        rw (e, several, found) (ap (λ h. some (h, q)) handed.chain.0),
        record {
          cached =
              put_list-IsCached cfg classes fuel cls grown
                (update objects cls (y ∷ ys ++ objects cls)) p2
                (filled-IsCached cls count head x (y ∷ ys) m objects p is lt handed short fits) refl
                refl;
          central = refl;
          caches = refl;
          heap = refl;
          words =
              push_batch-SameBut m.words (p.cache.lists cls) (m.words head) (u32 (count - 1))
                (y ∷ ys) (rw first rest);
        },
      )
