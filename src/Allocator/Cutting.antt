-- ===== src/Allocator/Cutting.antt =====
-- src/allocator.rs: the aligned run that `alloc_large` cuts out of a longer one.
use Prim.Native.Nat.{◌∣◌}
use native.Mathlib.Nat.{
  dvd-mul_left_of_dvd, dvd_refl, dvd_trans, dvd-sub, mod-eq-zero_of_dvd, dvd_of_mod-eq-zero,
  div-add-mod', mod-lt,
}
use rtmalloc.Base.{ℕ, ◌+◌, ◌-◌, ◌*◌, ◌/◌, ◌%◌, ◌^◌, ◌≤◌, ◌<◌, ◌≡◌, arith}
use rtmalloc.Base.Rounding.{usize_sub, div_ceil, align_up}
use rtmalloc.Allocator.Large.{Layout, cut_at, size_pages_of, total_pages_of}
use rtmalloc.Allocator.Routing.{pow-dvd, exponent_le}
use rtmalloc.Build.{ResolvedConfig}
use rtmalloc.Platform.Trim.{align_up_bounds}

-- A multiple is its quotient times the divisor.
exact-div : (x p : ℕ) → p ∣ x → x / p * p ≡ x
exact-div x p d = omega (arith, div-add-mod' x p, mod-eq-zero_of_dvd p d)

-- Whole pages cover what they were rounded up from.
div_ceil-covers : (x p : ℕ) → 0 < p → x ≤ div_ceil x p * p
div_ceil-covers x p some_page =
    omega (arith, div-add-mod' (x + p - 1) p, mod-lt (x + p - 1) some_page)

fewer_pages : (x y p : ℕ) → x * p < y * p → x < y
fewer_pages x y p lt = grind arith

-- Of a run at the page `start`, for an alignment above a page and an address space that holds the
-- run and the alignment: the address is a multiple of the alignment, it stands `prefix_pages` after
-- the start, the pages kept hold the size, and the three parts make up the pages that were asked for.
pub cut_at-parts :
    (cfg : ResolvedConfig) (layout : Layout) (start a shift : ℕ)
    → layout.align ≡ 2 ^ a
    → cfg.page_size ≡ 2 ^ shift
    → 0 < cfg.page_size
    → cfg.page_size < layout.align
    → start * cfg.page_size + layout.align < 2 ^ 64
    → size_pages_of cfg layout + layout.align < 2 ^ 64
    → let cut = cut_at cfg layout (start * cfg.page_size) in
      (cut.aligned_addr % layout.align ≡ 0)
      × (cut.aligned_addr ≡ (start + cut.prefix_pages) * cfg.page_size)
      × (layout.size ≤ cut.size_pages * cfg.page_size)
      × (cut.prefix_pages + cut.size_pages + cut.suffix_pages ≡ total_pages_of cfg layout)
unfolding cut_at
cut_at-parts cfg layout start a shift power pages some_page over room few =
    let p = cfg.page_size in
    let addr = start * p in
    let aligned = align_up addr layout.align in
    let (low, high, multiple) = align_up_bounds addr layout.align (omega arith) room in
    let gap : usize_sub aligned addr ≡ aligned - addr = omega (arith, low, high) in
    let p-align : p ∣ layout.align =
      rw (pages, power) (pow-dvd shift a (exponent_le shift a (omega arith))) in
    let p-aligned : p ∣ aligned = dvd_trans p p-align (dvd_of_mod-eq-zero layout.align multiple) in
    let prefix = (aligned - addr) / p in
    let whole : prefix * p ≡ aligned - addr =
      exact-div (aligned - addr) p
        (dvd-sub p p-aligned (dvd-mul_left_of_dvd p (dvd_refl p) start)) in
    let whole_align : layout.align / p * p ≡ layout.align = exact-div layout.align p p-align in
    let short : prefix < layout.align / p =
      fewer_pages prefix (layout.align / p) p (omega (arith, whole, whole_align, high, low)) in
    let le : layout.align / p ≤ layout.align = omega (arith, whole_align, some_page) in
    rw gap (
      multiple,
      omega (arith, whole, low),
      div_ceil-covers layout.size p some_page,
      omega (arith, short, few, le),
    )
