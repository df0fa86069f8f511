-- ===== src/SizeClass/Generated.antt =====
-- build.rs: the rows that the build generates from a configuration file.
use mathlib.Core.Path.{subst}
use native.Mathlib.Nat.{mod-lt, div-add-mod', mul-le-mul_right}
use rtmalloc.Base.{
  leb→le, ℕ, ◌+◌, ◌-◌, ◌*◌, ◌/◌, ◌≤◌, ◌<◌, ◌≡◌, refl, sym, ap, ◌∙◌, ◌⊎◌, inl, inr, Bool, true,
  false, List, [], ◌∷◌, map, arith, Option, none, some, leb, max, if◌then◌else◌, Bool-cases,
  some_inj,
}
use rtmalloc.Base.Rounding.{usize, div_ceil}
use rtmalloc.Build.{
  ClassDef, ClassFull, Config, ConfigSection, ResolvedConfig, auto_pages, auto_batch, auto_class,
  full_class, unwrap_or, parse_classes, validate_classes, resolve_config,
}
use rtmalloc.Build.Classes.{parse_classes-IsValid}
use rtmalloc.Build.Resolve.{ResolveOutcome, resolve_config-Outcome}
use rtmalloc.SizeClass.{SizeClassInfo, sentinel, info_of, generate_size_classes}
use rtmalloc.SizeClass.Table.{IsTable, generate_size_classes-IsTable}

-- The pages of a class for which the file gives none: one page where the size fits it, else the least
-- number of pages for 8 objects where one fits 4 pages, and for 2 otherwise.
abbrev AutoPages : ℕ → ℕ → ℕ → Type 0
AutoPages page_size size pages =
    ((size ≤ page_size) × (pages ≡ 1))
    ⊎ (((page_size < size)
          × (size ≤ usize (page_size * 4))
          × (usize (size * 8) ≤ pages * page_size)
          × (pages * page_size < usize (size * 8) + page_size))
        ⊎ ((page_size < size)
            × (usize (page_size * 4) < size)
            × (usize (size * 2) ≤ pages * page_size)
            × (pages * page_size < usize (size * 2) + page_size)))

-- The greatest batch of at most `room` bytes, but at least 2.
abbrev FillsRoom : ℕ → ℕ → ℕ → Type 0
FillsRoom room size batch =
    (2 ≤ batch) × (room < (batch + 1) * size) × ((batch ≡ 2) ⊎ (batch * size ≤ room))

-- The batch of a class for which the file gives none.
abbrev AutoBatch : ℕ → ℕ → ℕ → Type 0
AutoBatch page_size size batch =
    ((size ≤ 1024) × (batch ≡ 32))
    ⊎ (((1024 < size) × (size ≤ 4096) × FillsRoom 65536 size batch)
        ⊎ ((4096 < size) × FillsRoom page_size size batch))

-- A value that the file gives, or else the one with the property `Auto`.
abbrev Given : Option ℕ → (ℕ → Type 0) → ℕ → Type 0
Given none Auto v = Auto v
Given (some a) Auto v = v ≡ a

-- The row of the table for one class of the file.
abbrev RowOf : ℕ → ClassFull → SizeClassInfo → Type 0
RowOf page_size c info =
    (info.size ≡ c.size)
    × Given c.pages (AutoPages page_size c.size) info.pages
    × Given c.batch_size (AutoBatch page_size c.size) info.batch_size

-- A row for each class, in the order of the file.
abbrev Rows : ℕ → List ClassFull → List SizeClassInfo → Type 0
Rows page_size [] [] = Unit
Rows page_size [] (i ∷ is) = ⊥
Rows page_size (c ∷ cs) [] = ⊥
Rows page_size (c ∷ cs) (i ∷ is) = RowOf page_size c i × Rows page_size cs is

-- The classes of a file, which gives either sizes only or full classes.
abbrev bare : ℕ → ClassFull
bare size = record { size = size; pages = none; batch_size = none }

abbrev Requested : List ℕ → List ClassFull → List ClassFull → Type 0
Requested sizes full classes =
    ((full ≡ []) × (classes ≡ map bare sizes)) ⊎ ((sizes ≡ []) × (classes ≡ full))

-- The table of a build: the sentinel, then a row for each class of the file, in order.
pub record IsGenerated (config : Config) (page_size : ℕ) (table : List SizeClassInfo) : Type 0 where
  pub classes : List ClassFull
  pub requested : Requested config.classes config.class_full classes
  pub rest : List SizeClassInfo
  pub sentinel_first : table ≡ sentinel ∷ rest
  pub rows : Rows page_size classes rest
  pub in_order : IsTable table

div_ceil-least : (x d : ℕ) → 0 < d → (x ≤ div_ceil x d * d) × (div_ceil x d * d < x + d)
div_ceil-least x d pos =
    let whole = div-add-mod' (x + d - 1) d in
    let part = mod-lt (x + d - 1) pos in (omega (arith, whole, part), omega (arith, whole, part))

auto_pages-AutoPages :
    (page_size size : ℕ) → 0 < page_size → AutoPages page_size size (auto_pages size page_size)
unfolding auto_pages
auto_pages-AutoPages page_size size pos = elim (Bool-cases (leb size page_size)) [
  | inl one ↦ rw one (inl (ground (arith, one), refl))
  | inr more ↦ elim (Bool-cases (leb size (usize (page_size * 4)))) [
    | inl few ↦
        let (le, lt) = div_ceil-least (usize (size * 8)) page_size pos in
        rw (more, few) (inr (inl (ground (arith, more), ground (arith, few), le, lt)))
    | inr many ↦
        let (le, lt) = div_ceil-least (usize (size * 2)) page_size pos in
        rw (more, many) (inr (inr (ground (arith, more), ground (arith, many), le, lt)))
  ]
]

max-FillsRoom : (room size : ℕ) → 0 < size → FillsRoom room size (max (room / size) 2)
max-FillsRoom room size pos =
    let q = room / size in
    let whole = div-add-mod' room size in
    let part = mod-lt room pos in
    elim (Bool-cases (leb q 2)) [
      | inl few ↦
          let e : max q 2 ≡ 2 = omega (arith, leb→le q 2 few) in
          let le : q * size ≤ 2 * size = mul-le-mul_right size (leb→le q 2 few) in
          rw e (omega arith, omega (arith, whole, part, le), inl refl)
      | inr many ↦
          let lt : 2 < q = ground (arith, many) in
          let e : max q 2 ≡ q = omega (arith, lt) in
          let next : (q + 1) * size ≡ q * size + size = grind arith in
          rw e (omega (arith, lt), omega (arith, whole, part, next), inr (omega (arith, whole)))
    ]

auto_batch-AutoBatch : (page_size size : ℕ) → AutoBatch page_size size (auto_batch size page_size)
unfolding auto_batch
auto_batch-AutoBatch page_size size = elim (Bool-cases (leb size 1024)) [
  | inl small ↦ rw small (inl (ground (arith, small), refl))
  | inr more ↦
      let above : 1024 < size = ground (arith, more) in
      let pos : 0 < size = omega (arith, above) in
      elim (Bool-cases (leb size 4096)) [
        | inl few ↦
            rw (more, few) (inr (inl (above, ground (arith, few), max-FillsRoom 65536 size pos)))
        | inr many ↦
            rw (more, many) (inr (inr (ground (arith, many), max-FillsRoom page_size size pos)))
      ]
]

unwrap_or-Given : (o : Option ℕ) (Auto : ℕ → Type 0) (d : ℕ) → Auto d → Given o Auto (unwrap_or o d)
unwrap_or-Given none Auto d is = is
unwrap_or-Given (some a) Auto d is = refl

full_class-RowOf :
    (page_size : ℕ) (c : ClassFull)
    → 0 < page_size
    → RowOf page_size c (info_of (full_class page_size c))
unfolding full_class
full_class-RowOf page_size c pos = (
  refl,
  unwrap_or-Given c.pages (AutoPages page_size c.size) _
      (auto_pages-AutoPages page_size c.size pos),
  unwrap_or-Given c.batch_size (AutoBatch page_size c.size) _
      (auto_batch-AutoBatch page_size c.size),
)

map-Rows :
    (page_size : ℕ) (classes : List ClassFull)
    → 0 < page_size
    → Rows page_size classes (map info_of (map (full_class page_size) classes))
map-Rows page_size [] pos = tt
map-Rows page_size (c ∷ cs) pos = (full_class-RowOf page_size c pos, map-Rows page_size cs pos)

map-auto_class :
    (page_size : ℕ) (sizes : List ℕ)
    → map (λ s. auto_class s page_size) sizes ≡ map (full_class page_size) (map bare sizes)
unfolding auto_class full_class
map-auto_class page_size [] = refl
map-auto_class page_size (s ∷ sizes) =
    ap (λ (ds : List ClassDef). auto_class s page_size ∷ ds) (map-auto_class page_size sizes)

if-some : (c : Bool) (x y : List ClassDef) → (if c then some x else none) ≡ some y → y ≡ x
if-some true x y e = sym (some_inj e)
if-some false x y e = cc

-- Which list of the file `parse_classes` reads, and that it reads all of it.
parse_classes-Requested :
    (section : ConfigSection) (sizes : List ℕ) (full : List ClassFull) (page_size : ℕ)
    (defs : List ClassDef)
    → parse_classes (record { config = section; classes = sizes; class_full = full }) page_size
      ≡ some defs
    → (classes : List ClassFull) × Requested sizes full classes
      × (defs ≡ map (full_class page_size) classes)
unfolding parse_classes
parse_classes-Requested section [] [] page_size defs e = cc
parse_classes-Requested section (s ∷ sizes) (c ∷ full) page_size defs e = cc
parse_classes-Requested section [] (c ∷ full) page_size defs e =
    let ds = map (full_class page_size) (c ∷ full) in
    (c ∷ full, inr (refl, refl), if-some (validate_classes ds) ds defs e)
parse_classes-Requested section (s ∷ sizes) [] page_size defs e =
    let ds = map (λ s. auto_class s page_size) (s ∷ sizes) in
    (
      map bare (s ∷ sizes),
      inl (refl, refl),
      if-some (validate_classes ds) ds defs e ∙ map-auto_class page_size (s ∷ sizes),
    )

page_size-pos :
    (section : ConfigSection) (got : Option ResolvedConfig) {r : ResolvedConfig}
    → ResolveOutcome section got
    → got ≡ some r
    → 0 < r.page_size
page_size-pos section none is e = cc
page_size-pos section (some s) is e =
    omega (arith, is.1.page_min, ap (λ (t : ResolvedConfig). t.page_size) (some_inj e))

-- Where the configuration resolves and its classes parse, the generated table has the sentinel, all
-- zero, and then one row for each class of the file, in its order and of its size. The pages and the
-- batch are those that the file gives, or else: one page, or the least number of pages for 8 objects,
-- or for 2 objects above 4 pages; and a batch of 32, or the largest of at least 2 that fits 64 KiB, or
-- a page above 4 KiB, where the bytes are products of 64 bits. The sizes increase strictly and are multiples of 8, with between 1 and 63
-- classes, and each has pages and a batch.
pub generate_size_classes-IsGenerated :
    (config : Config) {r : ResolvedConfig} {defs : List ClassDef}
    → resolve_config config.config ≡ some r
    → parse_classes config r.page_size ≡ some defs
    → IsGenerated config r.page_size (generate_size_classes defs)
generate_size_classes-IsGenerated config {r} {defs} resolved parsed =
    let pos =
      page_size-pos config.config (resolve_config config.config)
        (resolve_config-Outcome config.config) resolved in
    let (classes, requested, same) =
      parse_classes-Requested config.config config.classes config.class_full r.page_size defs
        parsed in
    record {
      classes = classes;
      requested = requested;
      rest = map info_of defs;
      sentinel_first = refl;
      rows =
          subst (λ (ds : List ClassDef). Rows r.page_size classes (map info_of ds)) (sym same)
            (map-Rows r.page_size classes pos);
      in_order =
          generate_size_classes-IsTable defs (parse_classes-IsValid config r.page_size parsed);
    }
