-- ===== src/TransferCache/Stack.antt =====
-- src/transfer_cache.rs: the cache of a class as a stack of batches.
use rtmalloc.Base.{
  ◌⊎◌, inl, inr, Bool-cases, ℕ, ◌+◌, ◌-◌, ◌≤◌, ◌<◌, ◌≡◌, refl, sym, ◌∙◌, ap, true, false, List, [],
  ◌∷◌, Option, none, some, arith, leb, ◌==◌, length, update, update_self, update_ne, eq→==,
}
use mathlib.Core.Path.{subst}
use rtmalloc.Build.{ResolvedConfig}
use rtmalloc.SizeClass.{SizeClassInfo, class_info}
use rtmalloc.TransferCache.{
  TransferCacheSlot, TransferCacheInner, Middle, pop, push, put_cache, from_central, remove_range,
  insert_range,
}

-- The batches of a stack, the top first, stand in the slots below its height.
abbrev pub Holds : (ℕ → TransferCacheSlot) → List (ℕ × ℕ) → Type 0
Holds slots [] = Unit
Holds slots ((head, tail) ∷ batches) =
    ((slots (length batches)).head ≡ head)
    × ((slots (length batches)).tail ≡ tail)
    × Holds slots batches

pub record IsStack (max_transfer_slots : ℕ) (t : TransferCacheInner) (batches : List (ℕ × ℕ))
    : Type 0 where
  pub used : t.used ≡ length batches
  pub bound : t.used ≤ max_transfer_slots
  pub slots : Holds t.slots batches

Holds-update :
    (slots : ℕ → TransferCacheSlot) (i : ℕ) (s : TransferCacheSlot) (batches : List (ℕ × ℕ))
    → length batches ≤ i
    → Holds slots batches
    → Holds (update slots i s) batches
Holds-update slots i s [] le h = tt
Holds-update slots i s ((head, tail) ∷ batches) le (eh, et, h) =
    let same : update slots i s (length batches) ≡ slots (length batches) =
      update_ne slots i s (length batches) (omega arith) in
    (
      ap (λ z. z.head) same ∙ eh,
      ap (λ z. z.tail) same ∙ et,
      Holds-update slots i s batches (omega arith) h,
    )

-- What `push` does: with room the batch is on top, and at the bound it is refused with the state left
-- as it was.
abbrev pub PushOutcome : ℕ → ℕ → ℕ → TransferCacheInner → List (ℕ × ℕ) → Type 0
PushOutcome max_transfer_slots head tail t batches =
    ((length batches < max_transfer_slots)
      × ((push max_transfer_slots head tail t).0 ≡ true)
      × IsStack max_transfer_slots (push max_transfer_slots head tail t).1 ((head, tail) ∷ batches))
    ⊎ ((max_transfer_slots ≤ length batches) × (push max_transfer_slots head tail t ≡ (false, t)))

-- `push` puts a batch on top where the stack is below its bound, and refuses at the bound with the
-- state left as it was.
pub push-IsStack :
    (max_transfer_slots head tail : ℕ) (t : TransferCacheInner) (batches : List (ℕ × ℕ))
    → IsStack max_transfer_slots t batches
    → PushOutcome max_transfer_slots head tail t batches
unfolding push
push-IsStack max_transfer_slots head tail t batches is =
    elim (Bool-cases (leb max_transfer_slots t.used)) [
      | inl at_bound ↦ inr (ground (arith, is.used), rw at_bound refl)
      | inr below ↦
          let s : TransferCacheSlot = record { head = head; tail = tail } in
          let here : update t.slots t.used s (length batches) ≡ s =
            subst (λ n. update t.slots t.used s n ≡ s) is.used (update_self t.slots t.used s) in
          rw below (
            inl (
              ground (arith, is.used),
              refl,
              record {
                used = omega (arith, is.used);
                bound = ground (arith, is.used);
                slots = (
                  ap (λ z. z.head) here,
                  ap (λ z. z.tail) here,
                  Holds-update t.slots t.used s batches (omega (arith, is.used)) is.slots,
                );
              },
            ))
    ]

-- What `pop` does with a stack.
abbrev pub PopOutcome : ℕ → TransferCacheInner → List (ℕ × ℕ) → Type 0
PopOutcome max_transfer_slots t [] = pop t ≡ (none, t)
PopOutcome max_transfer_slots t (batch ∷ batches) =
    ((pop t).0 ≡ some batch) × IsStack max_transfer_slots (pop t).1 batches

-- `pop` takes the batch on top, and nothing from an empty stack.
pub pop-IsStack :
    (max_transfer_slots : ℕ) (t : TransferCacheInner) (batches : List (ℕ × ℕ))
    → IsStack max_transfer_slots t batches
    → PopOutcome max_transfer_slots t batches
unfolding pop
pop-IsStack max_transfer_slots t [] is = rw (eq→== t.used 0 is.used)
pop-IsStack max_transfer_slots t ((head, tail) ∷ batches) is =
    let filled : (t.used == 0) ≡ false = ground (arith, is.used) in
    let top : t.used - 1 ≡ length batches = omega (arith, is.used) in
    let (eh, et, below) = is.slots in
    let at_top : t.slots (t.used - 1) ≡ t.slots (length batches) = ap t.slots top in
    rw filled (cc, record { used = top; bound = omega (arith, is.bound); slots = below })

-- What `push` leaves where there is room, and `pop` after it.
abbrev pushed : ℕ → ℕ → TransferCacheInner → TransferCacheInner
pushed head tail t = record {
  slots = update t.slots t.used (record { head = head; tail = tail });
  used = t.used + 1;
}

push-room :
    (max_transfer_slots head tail : ℕ) (t : TransferCacheInner)
    → t.used < max_transfer_slots
    → push max_transfer_slots head tail t ≡ (true, pushed head tail t)
unfolding push
push-room max_transfer_slots head tail t lt =
    let below : leb max_transfer_slots t.used ≡ false = ground arith in rw below refl

pop-pushed :
    (head tail : ℕ) (t : TransferCacheInner)
    → pop (pushed head tail t) ≡ (some (head, tail), record (pushed head tail t) { used = t.used })
unfolding pop
pop-pushed head tail t =
    let filled : (t.used + 1 == 0) ≡ false = ground arith in
    let top : t.used + 1 - 1 ≡ t.used = omega arith in
    rw (filled, top, update_self t.slots t.used (record { head = head; tail = tail })) refl

module _ (cfg : ResolvedConfig) (classes : List SizeClassInfo) (fuel cls head tail : ℕ) where
  abbrev batch_size : ℕ
  batch_size = (class_info classes cls).batch_size

  insert_range-taken :
      (s : Middle) (t : TransferCacheInner)
      → push cfg.max_transfer_slots head tail (s.caches cls) ≡ (true, t)
      → insert_range cfg classes fuel cls head tail batch_size s ≡ some (put_cache cls t s)
  unfolding insert_range
  insert_range-taken s t e = rw (e, eq→== batch_size batch_size refl) refl

  pub remove_range-hit :
      (count : ℕ) (s : Middle) (t : TransferCacheInner)
      → pop (s.caches cls) ≡ (some (head, tail), t)
      → remove_range cfg classes fuel cls count s ≡ some (batch_size, head, put_cache cls t s)
  unfolding remove_range
  remove_range-hit count s t e =
      subst
        (λ r.
          elim (r.0) as (λ o. Option (ℕ × ℕ × Middle)) [
            | some (head', tail') ↦ some (batch_size, head', put_cache cls (r.1) s)
            | none ↦ from_central cfg classes fuel cls count s
          ]
          ≡ some (batch_size, head, put_cache cls t s))
        (sym e) refl

  pop-empty : (t : TransferCacheInner) → t.used ≡ 0 → pop t ≡ (none, t)
  unfolding pop
  pop-empty t empty = rw (eq→== t.used 0 empty)

  -- An empty stack of batches leaves the removal to the central list.
  pub remove_range-miss :
      (count : ℕ) (s : Middle)
      → (s.caches cls).used ≡ 0
      → remove_range cfg classes fuel cls count s ≡ from_central cfg classes fuel cls count s
  unfolding remove_range
  remove_range-miss count s empty =
      subst
        (λ r.
          elim (r.0) as (λ o. Option (ℕ × ℕ × Middle)) [
            | some (head', tail') ↦ some (batch_size, head', put_cache cls (r.1) s)
            | none ↦ from_central cfg classes fuel cls count s
          ]
          ≡ from_central cfg classes fuel cls count s)
        (sym (pop-empty (s.caches cls) empty)) refl

  -- A batch of exactly the class's batch size, inserted while the stack has room, is the batch that
  -- the next removal returns, whatever number that asks for; the central lists, the objects' words and
  -- the page heap are as before both, and the stack is as high.
  pub insert_range-remove_range :
      (count : ℕ) (s : Middle)
      → (s.caches cls).used < cfg.max_transfer_slots
      → (s' : Middle) × (insert_range cfg classes fuel cls head tail batch_size s ≡ some s')
        × (s'' : Middle) × (remove_range cfg classes fuel cls count s'
            ≡ some (batch_size, head, s''))
        × (s''.central ≡ s.central)
        × (s''.words ≡ s.words)
        × (s''.heap ≡ s.heap)
        × ((s''.caches cls).used ≡ (s.caches cls).used)
  insert_range-remove_range count s room =
      let t = pushed head tail (s.caches cls) in
      let t' : TransferCacheInner = record t { used = (s.caches cls).used } in
      let s' = put_cache cls t s in
      (
        s',
        insert_range-taken s t (push-room cfg.max_transfer_slots head tail (s.caches cls) room),
        put_cache cls t' s',
        remove_range-hit count s' t'
            (rw (update_self s.caches cls t) (pop-pushed head tail (s.caches cls))),
        refl,
        refl,
        refl,
        ap (λ z. z.used) (update_self s'.caches cls t'),
      )
