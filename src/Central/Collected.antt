-- ===== src/Central/Collected.antt =====
-- src/central_free_list.rs: what phase 1 of a removal makes of a batch, round by round.
use mathlib.Core.List.{reverse_aux, reverse_aux-append}
use mathlib.Core.Path.{subst}
use rtmalloc.Base.{
  ℕ, ◌-◌, ◌<◌, ◌≤◌, ◌≡◌, refl, sym, ap, ◌∙◌, List, [], ◌∷◌, arith, length, length-append, take,
  drop, min, take-all, take-within, drop-within, take-beyond, drop-all, drop-beyond,
  length-reverse_aux,
}
use rtmalloc.Central.Rounds.{Accounted}
use rtmalloc.Central.{Removal}
use rtmalloc.Central.Stocked.{Shelf, Stocked, objects_of}
use rtmalloc.FreeObject.Links.{has-append}

-- What phase 1 makes of a batch `acc` and a stocked list: the first objects of the spans, as many as
-- are missing, come in front of the batch in reverse, the others stay, and the list's count is lowered by their number.
pub record Collected (batch_size : ℕ) (shelf : Shelf) (acc : List ℕ) (t r : Removal) : Type 0 where
  pub shelf_left : Shelf
  pub stocked :
      Stocked r shelf_left (reverse_aux (take (batch_size - length acc) (objects_of shelf)) acc)
  pub left : objects_of shelf_left ≡ drop (batch_size - length acc) (objects_of shelf)
  pub moves :
      Accounted (min (batch_size - length acc) (length (objects_of shelf))) (objects_of shelf) t r

pub full-Collected :
    (batch_size : ℕ) (shelf : Shelf) (acc : List ℕ) (t : Removal)
    → Stocked t shelf acc
    → batch_size ≤ length acc
    → Collected batch_size shelf acc t t
full-Collected batch_size shelf acc t is full =
    let none_wanted : 0 ≡ batch_size - length acc = omega arith in
    record {
      shelf_left = shelf;
      stocked =
          subst (λ n. Stocked t shelf (reverse_aux (take n (objects_of shelf)) acc)) none_wanted is;
      left = ap (λ n. drop n (objects_of shelf)) none_wanted;
      moves = record { num_free = omega arith; words = λ a out. refl };
    }

pub empty-Collected :
    (batch_size : ℕ) (acc : List ℕ) (t : Removal)
    → Stocked t [] acc
    → Collected batch_size [] acc t t
empty-Collected batch_size acc t is =
    let wanted = batch_size - length acc in
    record {
      shelf_left = [];
      stocked =
          subst (λ zs. Stocked t [] (reverse_aux zs acc)) (sym (take-all wanted [] (omega arith)))
            is;
      left = sym (drop-all wanted [] (omega arith));
      moves = record { num_free = omega arith; words = λ a out. refl };
    }

module _ (batch_size span : ℕ) (xs : List ℕ) (shelf : Shelf) (acc : List ℕ) (t t1 : Removal) where
  abbrev wanted : ℕ
  wanted = batch_size - length acc

  pub part-Collected :
      wanted < length xs
      → Stocked t1 ((span, drop wanted xs) ∷ shelf) (reverse_aux (take wanted xs) acc)
      → Accounted (min wanted (length xs)) xs t t1
      → Collected batch_size ((span, xs) ∷ shelf) acc t t1
  part-Collected short now same =
      let os = objects_of shelf in
      record {
        shelf_left = (span, drop wanted xs) ∷ shelf;
        stocked =
            subst (λ zs. Stocked t1 ((span, drop wanted xs) ∷ shelf) (reverse_aux zs acc))
              (sym (take-within wanted xs os (omega arith))) now;
        left = sym (drop-within wanted xs os (omega arith));
        moves = record {
          num_free = omega (arith, same.num_free, length-append {0} xs os);
          words = λ a out. same.words a (ground (arith, has-append a xs os));
        };
      }

  pub all-Collected :
      (r : Removal)
      → length xs ≤ wanted
      → Accounted (min wanted (length xs)) xs t t1
      → Collected batch_size shelf (reverse_aux xs acc) t1 r
      → Collected batch_size ((span, xs) ∷ shelf) acc t r
  all-Collected r enough same done =
      let os = objects_of shelf in
      let rest : batch_size - length (reverse_aux xs acc) ≡ wanted - length xs =
        omega (arith, length-reverse_aux xs acc) in
      record {
        shelf_left = done.shelf_left;
        stocked =
            subst (λ zs. Stocked r done.shelf_left zs)
              (ap (λ n. reverse_aux (take n os) (reverse_aux xs acc)) rest
                ∙ sym (reverse_aux-append xs (take (wanted - length xs) os) acc)
                ∙ ap (λ zs. reverse_aux zs acc) (sym (take-beyond wanted xs os enough)))
              done.stocked;
        left = done.left ∙ ap (λ n. drop n os) rest ∙ sym (drop-beyond wanted xs os enough);
        moves = record {
          num_free =
              omega (arith, same.num_free, done.moves.num_free, rest, length-append {0} xs os);
          words = λ a out.
              done.moves.words a (ground (arith, has-append a xs os))
              ∙ same.words a (ground (arith, has-append a xs os));
        };
      }
