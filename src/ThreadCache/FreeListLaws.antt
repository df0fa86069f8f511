-- ===== src/ThreadCache/FreeListLaws.antt =====
-- src/thread_cache.rs: the operations of `FreeList` beside those of a list of addresses.
use rtmalloc.Base.{
  ℕ, zero, suc, ◌-◌, ◌≤◌, ◌≡◌, refl, sym, ap, ◌∙◌, ◌≢◌, true, false, List, [], ◌∷◌, ◌++◌, arith,
  ◌==◌, length, length-append, eq→==, ne→==, update, update_self, update_ne, min,
}
use mathlib.Core.Path.{subst}
use rtmalloc.Base.Rounding.{u32}
use rtmalloc.FreeObject.{Words}
use rtmalloc.FreeObject.Links.{Links, Disjoint, Links-update, Links-cons, has-append}
use rtmalloc.Span.{null}
use rtmalloc.Span.Chain.{has, has-ne}
use rtmalloc.ThreadCache.{FreeList, pop, push, find_tail, push_batch}

-- The free list `l` holds the objects `xs`, in order.
pub record IsFree (w : Words) (l : FreeList) (xs : List ℕ) : Type 0 where
  pub links : Links w l.head xs
  pub count : l.length ≡ u32 (length xs)

-- `push` puts an object in front.
pub push-IsFree :
    (w : Words) (l : FreeList) (xs : List ℕ) (obj : ℕ)
    → IsFree w l xs
    → obj ≢ null
    → has obj xs ≡ false
    → IsFree (push obj (w, l)).0 (push obj (w, l)).1 (obj ∷ xs)
unfolding push
push-IsFree w l xs obj is ne out = record {
  links = (refl, ne, out, rw update_self (Links-update w l.head xs obj l.head out is.links));
  count = omega (arith, is.count);
}

-- `pop` takes the object that was pushed last, and the low-water mark falls to the new length
-- where it was above.
pub pop-IsFree :
    (w : Words) (l : FreeList) (x : ℕ) (xs : List ℕ)
    → IsFree w l (x ∷ xs)
    → ((pop w l).0 ≡ x)
      × IsFree w (pop w l).1 xs
      × ((pop w l).1.low_water_mark ≡ min l.low_water_mark (pop w l).1.length)
unfolding pop
pop-IsFree w l x xs is =
    let some_head : (l.head == null) ≡ false = ground (arith, is.links.0, is.links.1) in
    rw some_head (
      is.links.0,
      record { links = rw (is.links.0) (is.links.3); count = omega (arith, is.count) },
      ground arith,
    )

find_tail-stop : (w : Words) (rounds x : ℕ) → w x ≡ null → find_tail rounds w x ≡ x
unfolding find_tail
find_tail-stop w zero x e = refl
find_tail-stop w (suc rounds) x e = rw e

find_tail-step :
    (w : Words) (rounds x : ℕ) → w x ≢ null → find_tail (suc rounds) w x ≡ find_tail rounds w (w x)
unfolding find_tail
find_tail-step w rounds x ne = rw (ne→== (w x) null ne)

-- The walk stays in the list.
pub find_tail-has :
    (w : Words) (rounds x : ℕ) (xs : List ℕ)
    → Links w (w x) xs
    → has (find_tail rounds w x) (x ∷ xs) ≡ true
find_tail-has w rounds x [] c = rw (find_tail-stop w rounds x c, eq→== x x refl)
find_tail-has w zero x (y ∷ ys) c = unfold find_tail in rw (eq→== x x refl)
find_tail-has w (suc rounds) x (y ∷ ys) (e, ne, out, rest) =
    subst (λ t. has t (x ∷ y ∷ ys) ≡ true)
      (sym (find_tail-step w rounds x (rw e ne) ∙ ap (find_tail rounds w) e))
      (ground (arith, find_tail-has w rounds y ys rest))

-- A walk of enough rounds ends at the last object, so a write there appends.
find_tail-append :
    (w : Words) (rounds x h : ℕ) (xs ys : List ℕ)
    → x ≢ null
    → has x xs ≡ false
    → Links w (w x) xs
    → length xs ≤ rounds
    → Links w h ys
    → Disjoint (x ∷ xs) ys
    → Links (update w (find_tail rounds w x) h) x (x ∷ (xs ++ ys))
find_tail-append w rounds x h [] ys ne out c enough d apart =
    subst (λ t. Links (update w t h) x (x ∷ ys)) (sym (find_tail-stop w rounds x c))
      (Links-cons w x h ys ne d (apart x (ground arith)))
find_tail-append w zero x h (y ∷ ys) zs ne out c enough d apart = absurd (omega arith)
find_tail-append w (suc rounds) x h (y ∷ ys) zs ne out (e, ne', out', rest) enough d apart =
    subst (λ t. Links (update w t h) x (x ∷ y ∷ ys ++ zs))
      (sym (find_tail-step w rounds x (rw e ne') ∙ ap (find_tail rounds w) e))
      (
        refl,
        ne,
        rw (has-append x (y ∷ ys) zs, out) (apart x (ground arith)),
        subst (λ t. Links (update w (find_tail rounds w y) h) t (y ∷ ys ++ zs))
            (sym (update_ne w (find_tail rounds w y) h x elsewhere ∙ e))
            (find_tail-append w rounds y h ys zs ne' out' rest (omega arith) d
              (λ a i. apart a (ground arith))),
      )
  where
    elsewhere : x ≢ find_tail rounds w y
    elsewhere = has-ne x (find_tail rounds w y) (y ∷ ys) out (find_tail-has w rounds y ys rest)

-- `push_batch` of a list of exactly `count` objects puts them in front, in order.
pub push_batch-IsFree :
    (w : Words) (l : FreeList) (head count : ℕ) (ys xs : List ℕ)
    → IsFree w l xs
    → Links w head ys
    → length ys ≡ count
    → Disjoint ys xs
    → IsFree (push_batch head count (w, l)).0 (push_batch head count (w, l)).1 (ys ++ xs)
unfolding push_batch
push_batch-IsFree w l head count [] xs is c e apart =
    let idle : (head == null) ≡ true = ground arith in rw idle is
push_batch-IsFree w l head count (y ∷ ys) xs is c e apart =
    let some_head : (head == null) ≡ false = ground (arith, c.0, c.1) in
    let some_count : (count == 0) ≡ false = ground arith in
    rw (some_head, some_count)
      (record {
        links =
            subst (λ t. Links (update w (find_tail (count - 1) w t) l.head) t (y ∷ ys ++ xs))
              (sym c.0)
              (find_tail-append w (count - 1) y l.head ys xs c.1 c.2 c.3 (omega arith) is.links
                apart);
        count = omega (arith, is.count, length-append {0} (y ∷ ys) xs);
      })
