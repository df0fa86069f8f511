-- ===== src/Tests/Classes.antt =====
-- A configuration of two classes, the table it generates, and requests that it serves.
use rtmalloc.Base.{◌+◌, ◌*◌, ◌%◌, ◌≤◌, ◌<◌, ◌≡◌, refl, none, some, List, [], ◌∷◌, arith}
use rtmalloc.Allocator.{Route, route}
use rtmalloc.Allocator.Cutting.{cut_at-parts}
use rtmalloc.Allocator.Large.{Layout, cut_at, total_pages_of}
use rtmalloc.Allocator.Routing.{route-aligned}
use rtmalloc.Build.{
  ClassDef, ConfigSection, Config, resolve_config, resolved, check_resolved, parse_classes,
  validate_classes, validate_from, auto_class, auto_pages, auto_batch, trailing_zeros_below,
}
use rtmalloc.Build.Classes.{IsValid, parse_classes-IsValid}
use rtmalloc.Build.Resolve.{ResolveOutcome, resolve_config-Outcome}
use rtmalloc.SizeClass.{
  SizeClassInfo, generate_size_classes, class_to_size, num_size_classes, size_to_class,
  small_lookup, linear_scan, lookup_entry, lookup_entries, scan,
}
use rtmalloc.SizeClass.Scan.{Best}
use rtmalloc.SizeClass.Generated.{IsGenerated, generate_size_classes-IsGenerated}
use rtmalloc.SizeClass.Table.{IsTable, generate_size_classes-IsTable}
use rtmalloc.SizeClass.Lookup.{size_to_class-Best}
use rtmalloc.Tests.Heap.{small_config}

abbrev defaults : ConfigSection
defaults = record {
  page_size = none;
  thread_cache_size = none;
  min_per_thread_cache = none;
  steal_amount = none;
  max_free_list_length = none;
  max_overages = none;
  max_transfer_slots = none;
  max_pages = none;
}

defaults-eq : resolve_config defaults ≡ some (resolved defaults)
unfolding resolve_config check_resolved resolved trailing_zeros_below
defaults-eq = refl

resolve_config-Outcome_example : ResolveOutcome defaults (resolve_config defaults)
resolve_config-Outcome_example = resolve_config-Outcome defaults

-- No power of two.
refused-eq : resolve_config (record defaults { page_size = some 12288 }) ≡ none
unfolding resolve_config check_resolved resolved trailing_zeros_below
refused-eq = refl

abbrev two_sizes : Config
two_sizes = record { config = defaults; classes = 16 ∷ 64 ∷ []; class_full = [] }

abbrev two_classes : List ClassDef
two_classes =
    record { size = 16; pages = 1; batch_size = 32 }
    ∷ record { size = 64; pages = 1; batch_size = 32 }
    ∷ []

parsed-eq : parse_classes two_sizes 4096 ≡ some two_classes
unfolding parse_classes validate_classes validate_from auto_class auto_pages auto_batch
parsed-eq = refl

parse_classes-IsValid_example : IsValid two_classes
parse_classes-IsValid_example = parse_classes-IsValid two_sizes 4096 parsed-eq

abbrev table : List SizeClassInfo
table = generate_size_classes two_classes

table-IsTable : IsTable table
table-IsTable = generate_size_classes-IsTable two_classes two_classes-IsValid
  where
    two_classes-IsValid : IsValid two_classes
    two_classes-IsValid = parse_classes-IsValid two_sizes 4096 parsed-eq

abbrev three_sizes : Config
three_sizes = record { config = defaults; classes = 16 ∷ 2048 ∷ 16384 ∷ []; class_full = [] }

abbrev three_classes : List ClassDef
three_classes =
    record { size = 16; pages = 1; batch_size = 32 }
    ∷ record { size = 2048; pages = 1; batch_size = 32 }
    ∷ record { size = 16384; pages = 16; batch_size = 2 }
    ∷ []

three-eq : parse_classes three_sizes (resolved defaults).page_size ≡ some three_classes
unfolding parse_classes validate_classes validate_from auto_class auto_pages auto_batch resolved
three-eq = refl

generate_size_classes-IsGenerated_example :
    IsGenerated three_sizes (resolved defaults).page_size (generate_size_classes three_classes)
generate_size_classes-IsGenerated_example =
    generate_size_classes-IsGenerated three_sizes defaults-eq three-eq

size_to_class-Best_example : Best table 20 (size_to_class table 20)
size_to_class-Best_example = size_to_class-Best table-IsTable 20 (omega arith) (omega arith)

abbrev sixty_by_32 : Layout
sixty_by_32 = record { size = 60; align = 32 }

routed-eq : route small_config table sixty_by_32 ≡ Route.small 2
unfolding route size_to_class small_lookup lookup_entries lookup_entry scan linear_scan
routed-eq = refl

route-aligned_example :
    (0 < 2)
    × (2 < num_size_classes table)
    × (60 ≤ class_to_size table 2)
    × ((7 * 4096 + 3 * class_to_size table 2) % 32 ≡ 0)
route-aligned_example =
    route-aligned small_config table-IsTable sixty_by_32 2 5 12 7 3 (omega arith) refl refl
      (omega arith) routed-eq

abbrev over_aligned : Layout
over_aligned = record { size = 5000; align = 16384 }

cut_at-parts_example :
    let cut = cut_at small_config over_aligned (7 * 4096) in
    (cut.aligned_addr % 16384 ≡ 0)
    × (cut.aligned_addr ≡ (7 + cut.prefix_pages) * 4096)
    × (5000 ≤ cut.size_pages * 4096)
    × (cut.prefix_pages + cut.size_pages + cut.suffix_pages
        ≡ total_pages_of small_config over_aligned)
cut_at-parts_example =
    cut_at-parts small_config over_aligned 7 14 12 refl refl (omega arith) (omega arith)
      (omega arith) (omega arith)
