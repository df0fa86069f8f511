-- ===== src/SizeClass.antt =====
-- src/size_class.rs: the table of size classes and the map from a size to its class. The table is
-- what build.rs generates: a sentinel at index 0, then the classes in order.
pub mod Table
pub mod Generated
pub mod Scan
pub mod Lookup
use rtmalloc.Base.{
  ℕ, zero, suc, ◌+◌, ◌-◌, ◌*◌, ◌/◌, ◌%◌, List, [], ◌∷◌, map, ltb, leb, ◌==◌, if◌then◌else◌, length,
  get_or,
}
use rtmalloc.Base.Rounding.{div_ceil}
use rtmalloc.Build.{ClassDef}

pub record SizeClassInfo : Type 0 where
  pub size : ℕ
  pub pages : ℕ
  pub batch_size : ℕ

abbrev pub sentinel : SizeClassInfo
sentinel = record { size = 0; pages = 0; batch_size = 0 }

abbrev pub info_of : ClassDef → SizeClassInfo
info_of d = record { size = d.size; pages = d.pages; batch_size = d.batch_size }

-- `generate_size_classes` of build.rs, as the array that the generated text declares.
abbrev pub generate_size_classes : List ClassDef → List SizeClassInfo
generate_size_classes defs = sentinel ∷ map info_of defs

unfoldable pub objects_per_span : ℕ → SizeClassInfo → ℕ
objects_per_span page_size info = (info.pages * page_size) / info.size

module _ (classes : List SizeClassInfo) where
  abbrev pub num_size_classes : ℕ
  num_size_classes = length classes

  -- An index out of range panics; none is reached from a class of `size_to_class`.
  abbrev pub class_info : ℕ → SizeClassInfo
  class_info cls = get_or classes cls sentinel

  abbrev pub class_to_size : ℕ → ℕ
  class_to_size cls = (class_info cls).size

  abbrev pub max_small_size : ℕ
  max_small_size = class_to_size (num_size_classes - 1)

  abbrev pub small_lookup_max : ℕ
  small_lookup_max = if ltb max_small_size 1024 then max_small_size else 1024

  abbrev pub small_lookup_len : ℕ
  small_lookup_len = small_lookup_max / 8 + 1

  -- `while cls < NUM_SIZE_CLASSES && SIZE_CLASSES[cls].size <= SMALL_LOOKUP_MAX { cls += 1 }`,
  -- with the rounds that are left.
  pub skip_small : ℕ → ℕ → ℕ
  skip_small zero cls = cls
  skip_small (suc rounds) cls =
      let rest = skip_small rounds (cls + 1) in
      if leb (class_to_size cls) small_lookup_max then rest else cls

  pub first_class_above_lookup : ℕ
  unfolding skip_small
  first_class_above_lookup = skip_small num_size_classes 0

  -- The walk from `cls` to the first class that holds `size`; `cls + rounds` if there is none.
  unfoldable pub scan : ℕ → ℕ → ℕ → ℕ
  scan zero cls size = cls
  scan (suc rounds) cls size =
      let rest = scan rounds (cls + 1) size in if leb size (class_to_size cls) then cls else rest

  -- `table[i]` of the initialiser of `SMALL_LOOKUP`, a `u8`.
  unfoldable pub lookup_entry : ℕ → ℕ
  unfolding scan
  lookup_entry i =
      let size = if i == 0 then 0 else i * 8 in
      let cls = scan (num_size_classes - 1) 1 size in
      (if leb num_size_classes cls then num_size_classes - 1 else cls) % 256

  -- The entries from `i` on, for the rounds left of the loop over `SMALL_LOOKUP_LEN`.
  unfoldable pub lookup_entries : ℕ → ℕ → List ℕ
  unfolding lookup_entry
  lookup_entries zero i = []
  lookup_entries (suc rounds) i = lookup_entry i ∷ lookup_entries rounds (i + 1)

  unfoldable pub small_lookup : List ℕ
  unfolding lookup_entries
  small_lookup = lookup_entries small_lookup_len 0

  -- The scan above the lookup table, with 0 where it runs off the end.
  unfoldable pub linear_scan : ℕ → ℕ
  unfolding scan first_class_above_lookup
  linear_scan size =
      let first = first_class_above_lookup in
      let cls = scan (num_size_classes - first) first size in
      if ltb cls num_size_classes then cls else 0

  unfoldable pub size_to_class : ℕ → ℕ
  unfolding small_lookup linear_scan
  size_to_class size =
      if size == 0
      then 1
      else if ltb max_small_size size
      then 0
      else if leb size small_lookup_max
      then get_or small_lookup (div_ceil size 8) 0
      else linear_scan size
