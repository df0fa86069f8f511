-- ===== src/ThreadCache/Shorter.antt =====
-- src/thread_cache.rs: what is left of the lists of a cache.
use mathlib.Core.Path.{subst}
use rtmalloc.Base.{
  ℕ, zero, suc, ◌+◌, ◌≡◌, refl, sym, ap, ◌∙◌, inl, inr, List, [], ◌∷◌, arith, update, update_self,
  update_ne, drop,
}
use rtmalloc.ThreadCache.Accounting.{Objects, eq_or_ne}

drop-nil : (n : ℕ) → drop {A = ℕ} n [] ≡ []
drop-nil zero = refl
drop-nil (suc n) = refl

drop-drop : (m n : ℕ) (xs : List ℕ) → drop n (drop m xs) ≡ drop (m + n) xs
drop-drop zero n xs = ap (λ k. drop k xs) (omega arith)
drop-drop (suc m) n [] = drop-nil n ∙ sym (drop-nil (suc m + n))
drop-drop (suc m) n (x ∷ xs) =
    let e : suc (m + n) ≡ suc m + n = omega arith in drop-drop m n xs ∙ ap (λ k. drop k (x ∷ xs)) e

-- Each list lost its first objects, some number of them.
abbrev pub Shorter : Objects → Objects → Type 0
Shorter objects left = (cls : ℕ) → (k : ℕ) × (left cls ≡ drop k (objects cls))

pub Shorter-refl : (objects : Objects) → Shorter objects objects
Shorter-refl objects cls = (0, refl)

pub Shorter-trans : (a b c : Objects) → Shorter a b → Shorter b c → Shorter a c
Shorter-trans a b c first second cls =
    let (k, e) = first cls in
    let (m, f) = second cls in (k + m, f ∙ ap (drop m) e ∙ drop-drop k m (a cls))

pub Shorter-update :
    (objects : Objects) (cls n : ℕ) → Shorter objects (update objects cls (drop n (objects cls)))
Shorter-update objects cls n d = elim (eq_or_ne d cls) [
  | inl e ↦
      subst (λ c. (k : ℕ) × (update objects cls (drop n (objects cls)) c ≡ drop k (objects c)))
        (sym e) (n, update_self objects cls (drop n (objects cls)))
  | inr ne ↦ (0, update_ne objects cls (drop n (objects cls)) d ne)
]
