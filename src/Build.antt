-- ===== src/Build.antt =====
-- build.rs: the tuning constants and the size classes that a build generates from a TOML file.
-- Reading the file and the TOML parser are outside; the model starts at the parsed `Config`.
-- `none` is a panic, which fails the build.
pub mod Classes
pub mod Resolve
use rtmalloc.Base.{
  ℕ, zero, suc, ◌+◌, ◌*◌, ◌/◌, ◌%◌, ◌^◌, Bool, true, false, not, ◌&&◌, Option, none, some, List, [],
  ◌∷◌, map, max, ltb, leb, ◌==◌, if◌then◌else◌, assert, ◌>>=◌, ◌>>◌, length,
}
use rtmalloc.Base.Rounding.{usize, div_ceil}

pub record ClassDef : Type 0 where
  pub size : ℕ
  pub pages : ℕ
  pub batch_size : ℕ

pub record ConfigSection : Type 0 where
  pub page_size : Option ℕ
  pub thread_cache_size : Option ℕ
  pub min_per_thread_cache : Option ℕ
  pub steal_amount : Option ℕ
  pub max_free_list_length : Option ℕ
  pub max_overages : Option ℕ
  pub max_transfer_slots : Option ℕ
  pub max_pages : Option ℕ

pub record ClassFull : Type 0 where
  pub size : ℕ
  pub pages : Option ℕ
  pub batch_size : Option ℕ

pub record Config : Type 0 where
  pub config : ConfigSection
  pub classes : List ℕ
  pub class_full : List ClassFull

pub record ResolvedConfig : Type 0 where
  pub page_size : ℕ
  pub page_shift : ℕ
  pub thread_cache_size : ℕ
  pub min_per_thread_cache : ℕ
  pub steal_amount : ℕ
  pub max_free_list_length : ℕ
  pub max_overages : ℕ
  pub max_transfer_slots : ℕ
  pub max_pages : ℕ

unfoldable pub auto_pages : ℕ → ℕ → ℕ
auto_pages size page_size =
    if leb size page_size
    then 1
    else if leb size (usize (page_size * 4))
    then div_ceil (usize (size * 8)) page_size
    else div_ceil (usize (size * 2)) page_size

unfoldable pub auto_batch : ℕ → ℕ → ℕ
auto_batch size page_size =
    if leb size 1024
    then 32
    else if leb size 4096
    then max (65536 / size) 2
    else max (page_size / size) 2

unfoldable pub auto_class : ℕ → ℕ → ClassDef
unfolding auto_pages auto_batch
auto_class size page_size = record {
  size = size;
  pages = auto_pages size page_size;
  batch_size = auto_batch size page_size;
}

-- `Option::unwrap_or`.
abbrev pub unwrap_or {ℓ} : {A : Type ℓ} → Option A → A → A
unwrap_or none d = d
unwrap_or (some a) d = a

-- `trailing_zeros` of a 64-bit word: 64 at zero.
unfoldable pub trailing_zeros_below : ℕ → ℕ → ℕ
trailing_zeros_below zero n = 0
trailing_zeros_below (suc bits) n =
    let rest = suc (trailing_zeros_below bits (n / 2)) in if n % 2 == 0 then rest else 0

abbrev pub trailing_zeros : ℕ → ℕ
trailing_zeros n = trailing_zeros_below 64 n

-- `is_power_of_two`: the lowest bit that is set is the only one.
abbrev pub is_power_of_two : ℕ → Bool
is_power_of_two n = n == 2 ^ trailing_zeros n

-- The values that `resolve_config` reads, with their defaults.
unfoldable pub resolved : ConfigSection → ResolvedConfig
unfolding trailing_zeros_below
resolved cfg = record {
  page_size = unwrap_or cfg.page_size 8192;
  page_shift = trailing_zeros (unwrap_or cfg.page_size 8192);
  thread_cache_size = unwrap_or cfg.thread_cache_size (32 * 1024 * 1024);
  min_per_thread_cache = unwrap_or cfg.min_per_thread_cache (512 * 1024);
  steal_amount = unwrap_or cfg.steal_amount (64 * 1024);
  max_free_list_length = unwrap_or cfg.max_free_list_length 8192;
  max_overages = unwrap_or cfg.max_overages 3;
  max_transfer_slots = unwrap_or cfg.max_transfer_slots 64;
  max_pages = unwrap_or cfg.max_pages 128;
}

-- The assertions of `resolve_config`, in order, on the values read.
unfoldable pub check_resolved : ResolvedConfig → Option ResolvedConfig
unfolding trailing_zeros_below
check_resolved r = do
  assert (ltb 0 r.page_size && is_power_of_two r.page_size)
  assert (leb 4096 r.page_size)
  assert (ltb 0 r.thread_cache_size)
  assert (ltb 0 r.min_per_thread_cache)
  assert (leb r.min_per_thread_cache r.thread_cache_size)
  assert (ltb 0 r.steal_amount)
  assert (ltb 0 r.max_free_list_length)
  assert (ltb 0 r.max_overages)
  assert (ltb 0 r.max_transfer_slots)
  assert (ltb 0 r.max_pages)
  some r

unfoldable pub resolve_config : ConfigSection → Option ResolvedConfig
unfolding resolved check_resolved
resolve_config cfg = check_resolved (resolved cfg)

-- The loop of `validate_classes`; `prev` is the size of the class before, where there is one.
unfoldable pub validate_from : Option ℕ → List ClassDef → Bool
validate_from prev [] = true
validate_from prev (d ∷ defs) =
    ltb 0 d.size
    && (d.size % 8 == 0)
    && ltb 0 d.pages
    && ltb 0 d.batch_size
    && elim prev [ none ↦ true | some p ↦ ltb p d.size ]
    && validate_from (some d.size) defs

abbrev pub is_empty {ℓ} : {A : Type ℓ} → List A → Bool
is_empty [] = true
is_empty (x ∷ xs) = false

-- `true` where no assertion fails.
unfoldable pub validate_classes : List ClassDef → Bool
unfolding validate_from
validate_classes defs = not (is_empty defs) && ltb (length defs) 64 && validate_from none defs

unfoldable pub full_class : ℕ → ClassFull → ClassDef
unfolding auto_pages auto_batch
full_class page_size c = record {
  size = c.size;
  pages = unwrap_or c.pages (auto_pages c.size page_size);
  batch_size = unwrap_or c.batch_size (auto_batch c.size page_size);
}

abbrev validated : List ClassDef → Option (List ClassDef)
validated defs = if validate_classes defs then some defs else none

unfoldable pub parse_classes : Config → ℕ → Option (List ClassDef)
unfolding auto_class full_class validate_classes
parse_classes config page_size =
    if not (is_empty config.classes) && not (is_empty config.class_full)
    then none
    else if not (is_empty config.classes)
    then validated (map (λ s. auto_class s page_size) config.classes)
    else if not (is_empty config.class_full)
    then validated (map (full_class page_size) config.class_full)
    else none
