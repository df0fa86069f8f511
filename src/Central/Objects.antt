-- ===== src/Central/Objects.antt =====
-- src/central_free_list.rs: the objects that `inject_span` links.
use mathlib.Core.Path.{subst}
use rtmalloc.Base.{
  ℕ, zero, suc, ◌+◌, ◌*◌, ◌^◌, ◌≤◌, ◌<◌, ◌≡◌, refl, sym, ap, false, List, [], ◌∷◌, arith, update,
}
use rtmalloc.Base.Rounding.{usize}
use rtmalloc.Central.{link_objects}
use rtmalloc.FreeObject.{Words}
use rtmalloc.FreeObject.Links.{Links, Links-cons}
use rtmalloc.Span.{null}
use rtmalloc.Span.Chain.{has}

-- The addresses `base + i * obj_size` of the objects from `i` on.
abbrev pub objects_from : ℕ → ℕ → ℕ → ℕ → List ℕ
objects_from base obj_size i zero = []
objects_from base obj_size i (suc n) = (base + i * obj_size) ∷ objects_from base obj_size (i + 1) n

below-objects :
    (base obj_size i n a : ℕ)
    → a < base + i * obj_size
    → has a (objects_from base obj_size i n) ≡ false
below-objects base obj_size i zero a lt = refl
below-objects base obj_size i (suc n) a lt =
    ground (arith, below-objects base obj_size (i + 1) n a (omega arith))

-- Of `k` objects the last `n` are linked and `m` remain.
link_objects-Links :
    (base obj_size m n k : ℕ) (w : Words) (h : ℕ)
    → m + n ≡ k
    → 0 < base
    → 0 < obj_size
    → base + k * obj_size ≤ 2 ^ 64
    → Links w h (objects_from base obj_size m n)
    → Links
        (link_objects base obj_size m (w, h)).0
        (link_objects base obj_size m (w, h)).1
        (objects_from base obj_size 0 k)
unfolding link_objects
link_objects-Links base obj_size zero n k w h e some_base some_size fits c =
    subst (λ t. Links w h (objects_from base obj_size 0 t)) (omega arith) c
link_objects-Links base obj_size (suc i) n k w h e some_base some_size fits c =
    link_objects-Links base obj_size i (suc n) k (update w (usize (base + i * obj_size)) h)
      (usize (base + i * obj_size)) (omega arith) some_base some_size fits
      (subst (λ o. Links (update w o h) o (objects_from base obj_size i (suc n))) (sym small)
        (Links-cons w (base + i * obj_size) h (objects_from base obj_size (i + 1) n)
          (λ z. absurd (omega arith))
          (subst (λ t. Links w h (objects_from base obj_size t n)) (omega arith) c)
          (below-objects base obj_size (i + 1) n (base + i * obj_size) (omega arith))))
  where
    small : usize (base + i * obj_size) ≡ base + i * obj_size
    small = omega (arith, ap (λ t. t * obj_size) e)

-- The objects of a span of `num_objects`, which ends within the address space, are linked in address
-- order from the first one to null.
pub link_objects-in_order :
    (base obj_size num_objects : ℕ) (w : Words)
    → 0 < base
    → 0 < obj_size
    → base + num_objects * obj_size ≤ 2 ^ 64
    → Links
        (link_objects base obj_size num_objects (w, null)).0
        (link_objects base obj_size num_objects (w, null)).1
        (objects_from base obj_size 0 num_objects)
link_objects-in_order base obj_size num_objects w some_base some_size fits =
    link_objects-Links base obj_size num_objects 0 num_objects w null (omega arith) some_base
      some_size fits refl
