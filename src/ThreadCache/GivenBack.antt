-- ===== src/ThreadCache/GivenBack.antt =====
-- src/thread_cache.rs: what `flush_and_destroy` hands to the tiers below.
use mathlib.Core.List.{reverse}
use mathlib.Core.Path.{subst}
use rtmalloc.Base.{
  ℕ, zero, suc, ◌+◌, ◌≤◌, ◌≡◌, refl, sym, ap, ◌∙◌, ◌≢◌, ◌⊎◌, inl, inr, false, List, [], ◌∷◌, Option,
  none, some, ◌>>=◌, arith, ltb, length, take, take-all, length-take, length-reverse_aux, Ensures,
  Ensures-cases,
}
use rtmalloc.Build.{ResolvedConfig}
use rtmalloc.FreeObject.{Words}
use rtmalloc.FreeObject.Links.{Links}
use rtmalloc.SizeClass.{SizeClassInfo}
use rtmalloc.Span.Chain.{has}
use rtmalloc.ThreadCache.{pop_batch}
use rtmalloc.ThreadCache.Accounting.{Objects, IsCached}
use rtmalloc.ThreadCache.Cache.{Process, give_batch, flush_class}
use rtmalloc.ThreadCache.PopBatch.{last_of, pop_batch-IsPopped}
use rtmalloc.TransferCache.{Middle, insert_range}

pub empty-of-length : (xs : List ℕ) → length xs ≡ 0 → xs ≡ []
empty-of-length [] e = refl
empty-of-length (x ∷ xs) e = absurd (omega arith)

-- A batch of as many objects as the list counts has all of them.
pub popped_all :
    (classes : List SizeClassInfo) (cls : ℕ) (objects : Objects) (p : Process)
    → IsCached classes objects p
    → let l = p.cache.lists cls in
      (pop_batch l.length (p.middle.words, l)).popped ≡ length (objects cls)
popped_all classes cls objects p is =
    let xs = objects cls in
    let n = (p.cache.lists cls).length in
    let (popped, _) = pop_batch-IsPopped n p.middle.words (p.cache.lists cls) xs (is.lists cls) in
    omega (
      arith,
      popped.popped,
      length-reverse_aux (take n xs) [],
      length-take n xs,
      (is.lists cls).count,
      is.short cls,
    )

module _ (cfg : ResolvedConfig) (classes : List SizeClassInfo) (fuel : ℕ) where
  -- The objects `xs` as one batch of their class, in reverse, linked by their own words, given to the
  -- tier below: `m'` is what that makes of it. Nothing happens without objects.
  abbrev pub ClassGiven : ℕ → List ℕ → Middle → Middle → Type 0
  ClassGiven cls xs m m' =
      ((xs ≡ []) × (m' ≡ m))
      ⊎ ((xs ≢ [])
          × ((words : Words) × (head : ℕ) × Links words head (reverse xs)
              × ((a : ℕ) → has a xs ≡ false → words a ≡ m.words a)
              × (insert_range cfg classes fuel cls head (last_of (reverse xs)) (length xs)
                    (record m { words = words })
                  ≡ some m')))

  -- The same for each of the classes from `cls` on, one after the other.
  abbrev pub GivenBack : ℕ → ℕ → Objects → Middle → Middle → Type 0
  GivenBack zero cls objects m m' = m' ≡ m
  GivenBack (suc rounds) cls objects m m' =
      (m1 : Middle) × ClassGiven cls (objects cls) m m1 × GivenBack rounds (cls + 1) objects m1 m'

  -- It is about the classes from `cls` on.
  pub GivenBack-same :
      (rounds cls : ℕ) (objects left : Objects) (m m' : Middle)
      → ((d : ℕ) → cls ≤ d → left d ≡ objects d)
      → GivenBack rounds cls left m m'
      → GivenBack rounds cls objects m m'
  GivenBack-same zero cls objects left m m' same given = given
  GivenBack-same (suc rounds) cls objects left m m' same (m1, one, rest) = (
    m1,
    subst (λ xs. ClassGiven cls xs m m1) (same cls (omega arith)) one,
    GivenBack-same rounds (cls + 1) objects left m1 m' (λ d le. same d (omega (arith, le))) rest,
  )

  give_batch-ClassGiven :
      (cls : ℕ) (objects : Objects) (p : Process)
      → IsCached classes objects p
      → objects cls ≢ []
      → Ensures
          (λ (q : Process). ClassGiven cls (objects cls) p.middle q.middle)
          (give_batch cfg classes fuel cls (p.cache.lists cls).length p)
  unfolding give_batch
  give_batch-ClassGiven cls objects p is some_object =
      let xs = objects cls in
      let n = (p.cache.lists cls).length in
      let batch = pop_batch n (p.middle.words, p.cache.lists cls) in
      let (popped, kept) =
        pop_batch-IsPopped n p.middle.words (p.cache.lists cls) xs (is.lists cls) in
      let all : take n xs ≡ xs =
        take-all n xs (omega (arith, (is.lists cls).count, is.short cls)) in
      let back : reverse (take n xs) ≡ reverse xs = ap reverse all in
      let count : batch.popped ≡ length xs = popped_all classes cls objects p is in
      let below : Middle = record (p.middle) { words = batch.words } in
      let insert : ℕ → ℕ → Option Middle =
        λ tail number. insert_range cfg classes fuel cls batch.head tail number below in
      let exact : insert (last_of (reverse xs)) (length xs) ≡ insert batch.tail batch.popped =
        ap (λ (t : ℕ). insert t (length xs)) (sym (popped.tail ∙ ap last_of back))
        ∙ ap (insert batch.tail) (sym count) in
      answered _ (insert batch.tail batch.popped) (λ m e. inr (
        some_object,
        (
          batch.words,
          batch.head,
          subst (Links batch.words batch.head) back popped.got,
          kept.words,
          exact ∙ e,
        ),
      ))
    where
      answered :
          (f : Middle → Process) (found : Option Middle)
          → ((m : Middle) → found ≡ some m → ClassGiven cls (objects cls) p.middle (f m).middle)
          → Ensures
              (λ (q : Process). ClassGiven cls (objects cls) p.middle q.middle)
              (do m ← found; some (f m))
      answered f none k = tt
      answered f (some m) k = k m refl

  pub flush_class-ClassGiven :
      (cls : ℕ) (objects : Objects) (p : Process)
      → IsCached classes objects p
      → Ensures
          (λ (q : Process). ClassGiven cls (objects cls) p.middle q.middle)
          (flush_class cfg classes fuel cls p)
  unfolding flush_class
  flush_class-ClassGiven cls objects p is =
      let n = (p.cache.lists cls).length in
      let xs = objects cls in
      let Given = λ (q : Process). ClassGiven cls xs p.middle q.middle in
      let all : n ≡ length xs = omega (arith, (is.lists cls).count, is.short cls) in
      Ensures-cases Given (ltb 0 n) _ _
        (λ some_left.
          Ensures-cases Given (ltb 0 (pop_batch n (p.middle.words, p.cache.lists cls)).popped) _ _
            (λ there.
              give_batch-ClassGiven cls objects p is
                (λ e. ground (arith, some_left, all, ap (λ (ys : List ℕ). length ys) e)))
            (λ absent.
              absurd (ground (arith, some_left, absent, all, popped_all classes cls objects p is))))
        (λ none_left. inl (empty-of-length xs (ground (arith, none_left, all)), refl))
