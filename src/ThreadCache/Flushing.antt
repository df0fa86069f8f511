-- ===== src/ThreadCache/Flushing.antt =====
-- src/thread_cache.rs: the end of a thread's cache.
use mathlib.Core.Path.{subst}
use rtmalloc.Base.{
  ℕ, zero, suc, ◌+◌, ◌-◌, ◌<◌, ◌≤◌, ◌≡◌, refl, ap, ◌∙◌, inl, inr, Bool, true, false, List, [], some,
  arith, ◌==◌, if◌then◌else◌, ltb, Bool-cases, length, update, update_self, drop, drop-all, Ensures,
  Ensures->>=, Ensures-weaken, Ensures-cases, Ensures-some, Ensures-both, update_ne,
}
use rtmalloc.Base.Rounding.{usize}
use rtmalloc.Build.{ResolvedConfig}
use rtmalloc.FreeObject.Links.{Links}
use rtmalloc.SizeClass.{SizeClassInfo, num_size_classes}
use rtmalloc.Span.{null}
use rtmalloc.ThreadCache.{pop_batch}
use rtmalloc.ThreadCache.Accounting.{Objects, IsCached, bytes}
use rtmalloc.ThreadCache.Cache.{Process, give_batch, flush_class, flush_from, flush_and_destroy}
use rtmalloc.ThreadCache.GivenBack.{
  empty-of-length, ClassGiven, GivenBack, GivenBack-same, popped_all, flush_class-ClassGiven,
}
use rtmalloc.ThreadCache.Moves.{give_batch-IsCached}
use rtmalloc.ThreadCache.Shorter.{Shorter, Shorter-refl, Shorter-trans, Shorter-update}

bytes-empty :
    (classes : List SizeClassInfo) (n : ℕ) (objects : Objects)
    → ((cls : ℕ) → cls < n → objects cls ≡ [])
    → bytes classes n objects ≡ 0
bytes-empty classes zero objects empty = refl
bytes-empty classes (suc n) objects empty =
    rw (empty n (omega arith))
      (omega (arith, bytes-empty classes n objects (λ cls lt. empty cls (omega arith))))

module _ (cfg : ResolvedConfig) (classes : List SizeClassInfo) (fuel : ℕ) where
  -- The classes from `first` to before `end` are empty, those from `end` on are as they were, and of
  -- the others some first objects are gone.
  record Emptied (objects : Objects) (first end : ℕ) (p : Process) : Type 0 where
    left : Objects
    shorter : Shorter objects left
    empty : (cls : ℕ) → first ≤ cls → cls < end → left cls ≡ []
    same : (cls : ℕ) → end ≤ cls → left cls ≡ objects cls
    cached : IsCached classes left p

  flush_class-Emptied :
      (cls : ℕ) (objects : Objects) (p : Process)
      → IsCached classes objects p
      → cls < num_size_classes classes
      → Ensures (Emptied objects cls (cls + 1)) (flush_class cfg classes fuel cls p)
  unfolding flush_class
  flush_class-Emptied cls objects p is lt =
      let n = (p.cache.lists cls).length in
      let xs = objects cls in
      let batch = pop_batch n (p.middle.words, p.cache.lists cls) in
      let all : n ≡ length xs = omega (arith, (is.lists cls).count, is.short cls) in
      Ensures-cases (Emptied objects cls (cls + 1)) (ltb 0 n) _ _
        (λ some_left.
          Ensures-cases (Emptied objects cls (cls + 1)) (ltb 0 batch.popped) _ _
            (λ there.
              Ensures-weaken (Emptied objects cls (cls + 1)) (give_batch cfg classes fuel cls n p)
                (give_batch-IsCached cfg classes fuel cls n objects p is lt)
                (λ q now. record {
                  left = update objects cls (drop n xs);
                  shorter = Shorter-update objects cls n;
                  empty = λ d le below.
                      let here : cls ≡ d = omega arith in
                      subst (λ c. update objects cls (drop n xs) c ≡ []) here
                        (update_self objects cls (drop n xs) ∙ drop-all n xs (omega (arith, all)));
                  same = λ d le. update_ne objects cls (drop n xs) d (λ e. absurd (omega arith));
                  cached = now;
                }))
            (λ absent.
              absurd (ground (arith, some_left, absent, all, popped_all classes cls objects p is))))
        (λ none_left. record {
          left = objects;
          shorter = Shorter-refl objects;
          empty = λ d le below.
              let here : cls ≡ d = omega arith in
              subst (λ c. objects c ≡ []) here
                (empty-of-length xs (ground (arith, none_left, all)));
          same = λ d le. refl;
          cached = is;
        })

  -- An emptied class stays empty, and one more is emptied.
  Emptied-next :
      (objects : Objects) (cls rounds : ℕ) (p q : Process)
      → (one : Emptied objects cls (cls + 1) p) → Emptied one.left (cls + 1) (cls + 1 + rounds) q
      → Emptied objects cls (cls + suc rounds) q
  Emptied-next objects cls rounds p q one rest = record {
    left = rest.left;
    shorter = Shorter-trans objects one.left rest.left one.shorter rest.shorter;
    empty = λ d le below. elim (Bool-cases (d == cls)) [
      | inl here ↦
          let (k, e) = rest.shorter d in
          let gone : one.left d ≡ [] = one.empty d le (ground (arith, here)) in
          e ∙ ap (drop k) gone ∙ drop-all k [] (omega arith)
      | inr later ↦ rest.empty d (ground (arith, later)) (omega arith)
    ];
    same = λ d le. rest.same d (omega (arith, le)) ∙ one.same d (omega (arith, le));
    cached = rest.cached;
  }

  -- The classes are emptied, and their objects given back.
  abbrev Flushed : ℕ → ℕ → Objects → Process → Process → Type 0
  Flushed rounds cls objects p q =
      GivenBack cfg classes fuel rounds cls objects p.middle q.middle
      × Emptied objects cls (cls + rounds) q

  Flushed-next :
      (rounds cls : ℕ) (objects : Objects) (p q r : Process)
      → ClassGiven cfg classes fuel cls (objects cls) p.middle q.middle
      → (one : Emptied objects cls (cls + 1) q) → Flushed rounds (cls + 1) one.left q r
      → Flushed (suc rounds) cls objects p r
  Flushed-next rounds cls objects p q r given one (later, rest) = (
    (
      q.middle,
      given,
      GivenBack-same cfg classes fuel rounds (cls + 1) objects one.left q.middle r.middle one.same
          later,
    ),
    Emptied-next objects cls rounds q r one rest,
  )

  flush_from-Flushed :
      (rounds cls : ℕ) (objects : Objects) (p : Process)
      → IsCached classes objects p
      → cls + rounds ≤ num_size_classes classes
      → Ensures (Flushed rounds cls objects p) (flush_from cfg classes fuel rounds cls p)
  unfolding flush_from
  flush_from-Flushed zero cls objects p is le = (
    refl,
    record {
      left = objects;
      shorter = Shorter-refl objects;
      empty = λ d above below. absurd (omega arith);
      same = λ d le. refl;
      cached = is;
    },
  )
  flush_from-Flushed (suc rounds) cls objects p is le =
      Ensures->>= (Flushed (suc rounds) cls objects p) (flush_class cfg classes fuel cls p)
        (flush_from cfg classes fuel rounds (cls + 1))
        (Ensures-both _ _ (flush_class cfg classes fuel cls p)
          (flush_class-ClassGiven cfg classes fuel cls objects p is)
          (flush_class-Emptied cls objects p is (omega arith)))
        (λ q (given, one).
          Ensures-weaken (Flushed (suc rounds) cls objects p)
            (flush_from cfg classes fuel rounds (cls + 1) q)
            (flush_from-Flushed rounds (cls + 1) one.left q one.cached (omega arith))
            (λ r rest. Flushed-next rounds cls objects p q r given one rest))

  -- Nothing is left: every object was given back, each list is empty, and the total is 0.
  pub record IsFlushed (objects : Objects) (p q : Process) : Type 0 where
    pub given_back :
        GivenBack cfg classes fuel (num_size_classes classes - 1) 1 objects p.middle q.middle
    pub heads : (cls : ℕ) → cls < num_size_classes classes → (q.cache.lists cls).head ≡ null
    pub lengths : (cls : ℕ) → cls < num_size_classes classes → (q.cache.lists cls).length ≡ 0
    pub total : q.cache.total_size ≡ 0

  Emptied-IsFlushed :
      (objects : Objects) (p q : Process)
      → objects 0 ≡ []
      → GivenBack cfg classes fuel (num_size_classes classes - 1) 1 objects p.middle q.middle
      → Emptied objects 1 (num_size_classes classes) q
      → IsFlushed objects p q
  Emptied-IsFlushed objects p q sentinel given one = record {
    given_back = given;
    heads = λ cls lt.
        subst (λ xs. Links q.middle.words (q.cache.lists cls).head xs) (none cls lt)
          (one.cached.lists cls).links;
    lengths =
        λ cls lt. omega (arith, (one.cached.lists cls).count, ap (λ xs. length xs) (none cls lt));
    total =
        omega
          (arith, one.cached.total, bytes-empty classes (num_size_classes classes) one.left none);
  }
    where
      none : (cls : ℕ) → cls < num_size_classes classes → one.left cls ≡ []
      none zero lt =
          let (k, e) = one.shorter 0 in e ∙ ap (drop k) sentinel ∙ drop-all k [] (omega arith)
      none (suc cls) lt = one.empty (suc cls) (omega arith) lt

  either-IsFlushed :
      (objects : Objects) (p : Process) (c : Bool) (q r : Process)
      → IsFlushed objects p q
      → IsFlushed objects p r
      → IsFlushed objects p (if c then q else r)
  either-IsFlushed objects p true q r a b = a
  either-IsFlushed objects p false q r a b = b

  flush_and_destroy-Flushed :
      (objects : Objects) (p : Process)
      → IsCached classes objects p
      → objects 0 ≡ []
      → 0 < num_size_classes classes
      → Ensures (IsFlushed objects p) (flush_and_destroy cfg classes fuel p)
  unfolding flush_and_destroy
  flush_and_destroy-Flushed objects p is sentinel lt =
      Ensures->>= (IsFlushed objects p)
        (flush_from cfg classes fuel (num_size_classes classes - 1) 1 p) _
        (flush_from-Flushed (num_size_classes classes - 1) 1 objects p is (omega arith))
        (λ q (given, one).
          let end : 1 + (num_size_classes classes - 1) ≡ num_size_classes classes = omega arith in
          let now =
            Emptied-IsFlushed objects p q sentinel given
              (subst (λ n. Emptied objects 1 n q) end one) in
          either-IsFlushed objects p (ltb 0 q.cache.max_size)
            (record q {
              unclaimed = usize (q.unclaimed + q.cache.max_size);
              cache = record (q.cache) { max_size = 0 };
            })
            q
            (record {
              given_back = now.given_back;
              heads = now.heads;
              lengths = now.lengths;
              total = now.total;
            })
            now)

  -- At the end of its thread a cache in order, with no object in class 0, gives back everything: class
  -- by class, all its objects go to `insert_range` of the transfer cache as one batch, linked in
  -- reverse, with its two ends and its number, and the tiers below are in the state that these calls
  -- leave. Where no assertion of theirs fails, every list is empty then and the total is 0.
  pub flush_and_destroy-IsFlushed :
      (objects : Objects) (p q : Process)
      → IsCached classes objects p
      → objects 0 ≡ []
      → 0 < num_size_classes classes
      → flush_and_destroy cfg classes fuel p ≡ some q
      → IsFlushed objects p q
  flush_and_destroy-IsFlushed objects p q is sentinel lt e =
      Ensures-some (IsFlushed objects p) (flush_and_destroy cfg classes fuel p)
        (flush_and_destroy-Flushed objects p is sentinel lt) e
