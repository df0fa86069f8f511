-- ===== src/ThreadCache/PopBatch.antt =====
-- src/thread_cache.rs: the objects that `pop_batch` takes.
use mathlib.Core.List.{reverse, reverse_aux}
use mathlib.Core.Path.{subst}
use rtmalloc.Base.{
  ℕ, zero, suc, ◌≡◌, refl, sym, ◌∙◌, ◌≢◌, false, List, [], ◌∷◌, arith, ◌==◌, if◌then◌else◌, length,
  update, update_ne, take, drop, eq→==, ne→==,
}
use rtmalloc.Base.Rounding.{u32}
use rtmalloc.FreeObject.{Words}
use rtmalloc.FreeObject.Links.{Links, Disjoint, Links-update, Links-cons}
use rtmalloc.Span.{null}
use rtmalloc.Span.Chain.{has, has-ne}
use rtmalloc.ThreadCache.{FreeList, Popped, pop_one, pop_rounds, pop_batch}
use rtmalloc.ThreadCache.FreeListLaws.{IsFree}

abbrev pub last_of : List ℕ → ℕ
last_of [] = null
last_of (x ∷ []) = x
last_of (x ∷ y ∷ ys) = last_of (y ∷ ys)

-- `xs` is left in the list, `acc` is what was popped, from the last to the first.
pub record IsPopped (s : Popped) (xs acc : List ℕ) : Type 0 where
  pub rest : Links s.words s.list.head xs
  pub got : Links s.words s.head acc
  pub apart : Disjoint xs acc
  pub count : s.list.length ≡ u32 (length xs)
  pub popped : s.popped ≡ u32 (length acc)
  pub tail : s.tail ≡ last_of acc

-- The parts of the state that popping leaves alone.
pub record Kept (xs : List ℕ) (s r : Popped) : Type 0 where
  pub max_length : r.list.max_length ≡ s.list.max_length
  pub length_overages : r.list.length_overages ≡ s.list.length_overages
  pub low_water_mark : r.list.low_water_mark ≡ s.list.low_water_mark
  pub words : (a : ℕ) → has a xs ≡ false → r.words a ≡ s.words a

last_of-ne_null : (w : Words) (p x : ℕ) (xs : List ℕ) → Links w p (x ∷ xs) → last_of (x ∷ xs) ≢ null
last_of-ne_null w p x [] c = c.1
last_of-ne_null w p x (y ∷ ys) c = last_of-ne_null w (w x) y ys c.3

last_of-cons :
    (w : Words) (p x : ℕ) (acc : List ℕ)
    → Links w p acc
    → (if last_of acc == null then x else last_of acc) ≡ last_of (x ∷ acc)
last_of-cons w p x [] c = refl
last_of-cons w p x (y ∷ ys) c = rw (ne→== _ _ (last_of-ne_null w p y ys c))

pop_one-IsPopped :
    (s : Popped) (x : ℕ) (xs acc : List ℕ)
    → IsPopped s (x ∷ xs) acc
    → IsPopped (pop_one s) xs (x ∷ acc)
pop_one-IsPopped s x xs acc is =
    let (e, ne, out, rest) = is.rest in
    record {
      rest =
          subst (λ o. Links (update s.words o s.head) (s.words o) xs) (sym e)
            (Links-update s.words (s.words x) xs x s.head out rest);
      got =
          subst (λ o. Links (update s.words o s.head) o (x ∷ acc)) (sym e)
            (Links-cons s.words x s.head acc ne is.got (is.apart x (ground arith)));
      apart = λ a i. ground (arith, is.apart a, has-ne x a xs out i);
      count = omega (arith, is.count);
      popped = omega (arith, is.popped);
      tail =
          subst (λ o. (if s.tail == null then o else s.tail) ≡ last_of (x ∷ acc)) (sym e)
            (rw is.tail (last_of-cons s.words s.head x acc is.got));
    }

-- The loop moves the first objects, at most as many as the rounds, and touches no other.
pub pop_rounds-IsPopped :
    (rounds : ℕ) (s : Popped) (xs acc : List ℕ)
    → IsPopped s xs acc
    → IsPopped (pop_rounds rounds s) (drop rounds xs) (reverse_aux (take rounds xs) acc)
      × Kept xs s (pop_rounds rounds s)
unfolding pop_rounds
pop_rounds-IsPopped zero s xs acc is = (is, ground arith)
pop_rounds-IsPopped (suc rounds) s [] acc is = rw (eq→== _ _ is.rest) (is, ground arith)
pop_rounds-IsPopped (suc rounds) s (x ∷ xs) acc is =
    let (e, ne, out, rest) = is.rest in
    let some_head : (s.list.head == null) ≡ false = ground arith in
    let (done, kept) =
      pop_rounds-IsPopped rounds (pop_one s) xs (x ∷ acc) (pop_one-IsPopped s x xs acc is) in
    rw some_head (
      done,
      record {
        max_length = kept.max_length;
        length_overages = kept.length_overages;
        low_water_mark = kept.low_water_mark;
        words = λ a o.
            kept.words a (ground arith) ∙ update_ne s.words s.list.head s.head a (ground arith);
      },
    )

-- `pop_batch` of a list of `xs` leaves the list without its first `count` objects and returns
-- those, in reverse, with their number and their two ends; it changes no word of another object
-- and no other field of the list.
pub pop_batch-IsPopped :
    (count : ℕ) (w : Words) (l : FreeList) (xs : List ℕ)
    → IsFree w l xs
    → IsPopped (pop_batch count (w, l)) (drop count xs) (reverse (take count xs))
      × Kept xs
          (record { words = w; list = l; popped = 0; head = null; tail = null })
          (pop_batch count (w, l))
unfolding pop_batch
pop_batch-IsPopped count w l xs is = pop_rounds-IsPopped count _ xs [] (record {
  rest = is.links;
  got = refl;
  apart = λ a i. refl;
  count = is.count;
  popped = refl;
  tail = refl;
})
