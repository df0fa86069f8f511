-- ===== src/Central/Collect.antt =====
-- src/central_free_list.rs: phase 1 of `remove_range_dropping_lock`, over all spans of the list.
use mathlib.Core.List.{reverse_aux}
use rtmalloc.Base.{
  ℕ, zero, suc, ◌-◌, ◌<◌, ◌≤◌, ◌≡◌, refl, ◌∙◌, inl, inr, true, false, List, [], ◌∷◌, some, arith,
  ◌==◌, ltb, leb, Bool-cases, length, take, length-take, length-reverse_aux,
}
use rtmalloc.Build.{ResolvedConfig}
use rtmalloc.Central.Collected.{
  Collected, full-Collected, empty-Collected, part-Collected, all-Collected,
}
use rtmalloc.Central.Rounds.{part, all, take_from_head-Step}
use rtmalloc.SizeClass.{SizeClassInfo}
use rtmalloc.Central.{
  Central, nothing_removed, dropping_loop, remove_range_dropping_lock, Removal, take_from_head,
  collect,
}
use rtmalloc.Central.Stocked.{Shelf, Stocked, objects_of}
use rtmalloc.Span.{null}

-- With a full batch nothing is done.
collect-full :
    (fuel batch_size : ℕ) (t : Removal)
    → batch_size ≤ t.count
    → 0 < fuel
    → collect fuel batch_size t ≡ some t
unfolding collect
collect-full zero batch_size t full lt = absurd (omega arith)
collect-full (suc fuel) batch_size t full lt =
    let stop : ltb t.count batch_size ≡ false = ground arith in rw stop refl

collect-empty :
    (fuel batch_size : ℕ) (acc : List ℕ) (t : Removal)
    → Stocked t [] acc
    → collect (suc fuel) batch_size t ≡ some t
unfolding collect
collect-empty fuel batch_size acc t is =
    let stop : (t.central.list.nonempty_spans.head == null) ≡ true =
      ground (arith, is.list.chain) in
    rw stop (ground arith)

collect-next :
    (fuel batch_size span : ℕ) (xs : List ℕ) (shelf : Shelf) (acc : List ℕ) (t : Removal)
    → Stocked t ((span, xs) ∷ shelf) acc
    → t.count < batch_size
    → collect (suc fuel) batch_size t ≡ collect fuel batch_size (take_from_head batch_size t)
unfolding collect
collect-next fuel batch_size span xs shelf acc t is lt =
    let (e, ne, _, _, _) = is.list.chain in
    let missing : ltb t.count batch_size ≡ true = ground arith in
    let stocked : (t.central.list.nonempty_spans.head == null) ≡ false = ground (arith, e, ne) in
    rw (missing, stocked) refl

-- From a stocked list, with fuel for one round more than it has spans, phase 1 ends, and it moves
-- the first objects of the spans, as many as the batch lacks or else all, in front of the batch in
-- reverse; the other objects stay with their spans in order, and the list counts down by the number
-- moved.
pub collect-Collected :
    (fuel batch_size : ℕ) (shelf : Shelf) (acc : List ℕ) (t : Removal)
    → Stocked t shelf acc
    → length shelf < fuel
    → (r : Removal) × (collect fuel batch_size t ≡ some r) × Collected batch_size shelf acc t r
collect-Collected zero batch_size shelf acc t is lt = absurd (omega arith)
collect-Collected (suc fuel) batch_size [] acc t is lt =
    (t, collect-empty fuel batch_size acc t is, empty-Collected batch_size acc t is)
collect-Collected (suc fuel) batch_size ((span, xs) ∷ shelf) acc t is lt =
    let t1 = take_from_head batch_size t in
    let (step, same) = take_from_head-Step batch_size span xs shelf acc t is in
    elim (Bool-cases (ltb t.count batch_size)) [
      | inr full ↦ (
        t,
        collect-full (suc fuel) batch_size t (ground (arith, full)) (omega arith),
        full-Collected batch_size ((span, xs) ∷ shelf) acc t is (ground (arith, full, is.count)),
      )
      | inl missing ↦
          let next =
            collect-next fuel batch_size span xs shelf acc t is (ground (arith, missing)) in
          elim step [
            | part short now ↦ (
              t1,
              next
                  ∙ collect-full fuel batch_size t1
                      (omega (
                        arith,
                        now.count,
                        short,
                        length-reverse_aux (take (batch_size - length acc) xs) acc,
                        length-take (batch_size - length acc) xs,
                      ))
                      (omega arith),
              part-Collected batch_size span xs shelf acc t t1 short now same,
            )
            | all enough now ↦
                let (r, e, done) =
                  collect-Collected fuel batch_size shelf (reverse_aux xs acc) t1 now
                    (omega arith) in
                (r, next ∙ e, all-Collected batch_size span xs shelf acc t t1 r enough same done)
          ]
    ]

module _ (cfg : ResolvedConfig) (classes : List SizeClassInfo) where
  dropping_loop-enough :
      (fuel size_class batch_size : ℕ) (t r : Removal)
      → collect (suc fuel) batch_size t ≡ some r
      → batch_size ≤ r.count
      → dropping_loop cfg classes (suc fuel) size_class batch_size t ≡ some r
  unfolding dropping_loop
  dropping_loop-enough fuel size_class batch_size t r e full =
      let stop : leb batch_size r.count ≡ true = ground arith in rw (e, stop) refl

  -- Where the spans of a class have enough free objects, a removal of `batch_size` gives that many,
  -- the first ones of the spans, and leaves the others; the page heap is asked for nothing.
  pub remove_range_dropping_lock-Collected :
      (fuel size_class batch_size : ℕ) (shelf : Shelf) (c : Central)
      → Stocked (nothing_removed cfg classes c) shelf []
      → length shelf < fuel
      → batch_size ≤ length (objects_of shelf)
      → (r : Removal) × (remove_range_dropping_lock cfg classes fuel size_class batch_size c
          ≡ some r)
        × Collected batch_size shelf [] (nothing_removed cfg classes c) r
        × (r.count ≡ batch_size)
  unfolding remove_range_dropping_lock
  remove_range_dropping_lock-Collected zero size_class batch_size shelf c is lt enough =
      absurd (omega arith)
  remove_range_dropping_lock-Collected (suc fuel) size_class batch_size shelf c is lt enough =
      let (r, e, done) =
        collect-Collected (suc fuel) batch_size shelf [] (nothing_removed cfg classes c) is lt in
      let moved = take (batch_size - 0) (objects_of shelf) in
      let full : r.count ≡ batch_size = omega (
        arith,
        done.stocked.count,
        length-reverse_aux moved [],
        length-take (batch_size - 0) (objects_of shelf),
      ) in
      (
        r,
        dropping_loop-enough fuel size_class batch_size (nothing_removed cfg classes c) r e
            (omega (arith, full)),
        done,
        full,
      )
