-- ===== src/Build/Classes.antt =====
-- build.rs: what `parse_classes` guarantees of the classes that it lets pass.
use rtmalloc.Base.{ℕ, ◌%◌, ◌<◌, ◌≡◌, true, Option, none, some, List, [], ◌∷◌, arith, length}
use rtmalloc.Build.{ClassDef, Config, validate_from, validate_classes, parse_classes}

-- The bound from below that the class before puts on a size.
abbrev pub floor_of : Option ℕ → ℕ
floor_of none = 0
floor_of (some p) = p

-- Positive sizes in strictly increasing order, multiples of 8, with pages and a batch.
abbrev pub IsIncreasing : ℕ → List ClassDef → Type 0
IsIncreasing p [] = Unit
IsIncreasing p (d ∷ defs) =
    (p < d.size) × (d.size % 8 ≡ 0) × (0 < d.pages) × (0 < d.batch_size) × IsIncreasing d.size defs

pub record IsValid (defs : List ClassDef) : Type 0 where
  pub some_class : 0 < length defs
  pub few : length defs < 64
  pub increasing : IsIncreasing 0 defs

validate_from-IsIncreasing :
    (prev : Option ℕ) (defs : List ClassDef)
    → validate_from prev defs ≡ true
    → IsIncreasing (floor_of prev) defs
unfolding validate_from
validate_from-IsIncreasing prev [] h = tt
validate_from-IsIncreasing none (d ∷ defs) h =
    ground (arith, validate_from-IsIncreasing (some d.size) defs)
validate_from-IsIncreasing (some p) (d ∷ defs) h =
    ground (arith, validate_from-IsIncreasing (some d.size) defs)

pub validate_classes-IsValid : (defs : List ClassDef) → validate_classes defs ≡ true → IsValid defs
unfolding validate_classes
validate_classes-IsValid [] h = ground arith
validate_classes-IsValid (d ∷ defs) h = ground (arith, validate_from-IsIncreasing none (d ∷ defs))

-- If `parse_classes` returns classes, there are between 1 and 63 of them, their sizes are positive
-- multiples of 8 in strictly increasing order, and each has at least one page and a batch.
pub parse_classes-IsValid :
    (config : Config) (page_size : ℕ) {defs : List ClassDef}
    → parse_classes config page_size ≡ some defs
    → IsValid defs
unfolding parse_classes
parse_classes-IsValid config page_size {defs} h = ground (arith, validate_classes-IsValid defs)
