-- ===== src/Build/Resolve.antt =====
-- build.rs: which configurations are resolved, and to what.
use mathlib.Core.Path.{subst}
use rtmalloc.Base.{
  ℕ, zero, suc, ◌*◌, ◌/◌, ◌%◌, ◌^◌, ◌≤◌, ◌<◌, ◌≡◌, refl, sym, ap, ◌∙◌, Bool, true, ◌&&◌, Option,
  none, some, arith, ◌==◌, leb, ltb, leb→le, ltb→lt, lt→ltb, le→leb, ==→eq, eq→==, assert-eq-some,
  some_inj,
}
use rtmalloc.Build.{
  ConfigSection, ResolvedConfig, unwrap_or, is_power_of_two, trailing_zeros, trailing_zeros_below,
  resolved, check_resolved, resolve_config,
}

-- The value `v` of an option that has the default `d`.
abbrev Reads : Option ℕ → ℕ → ℕ → Type 0
Reads none d v = v ≡ d
Reads (some a) d v = v ≡ a

unwrap_or-Reads : (o : Option ℕ) (d : ℕ) → Reads o d (unwrap_or o d)
unwrap_or-Reads none d = refl
unwrap_or-Reads (some a) d = refl

Reads-unwrap_or : (o : Option ℕ) (d v : ℕ) → Reads o d v → unwrap_or o d ≡ v
Reads-unwrap_or none d v e = sym e
Reads-unwrap_or (some a) d v e = sym e

-- Each value is the one that the file gives, or else the default.
pub record IsRead (cfg : ConfigSection) (r : ResolvedConfig) : Type 0 where
  pub page_size : Reads cfg.page_size 8192 r.page_size
  pub thread_cache_size : Reads cfg.thread_cache_size 33554432 r.thread_cache_size
  pub min_per_thread_cache : Reads cfg.min_per_thread_cache 524288 r.min_per_thread_cache
  pub steal_amount : Reads cfg.steal_amount 65536 r.steal_amount
  pub max_free_list_length : Reads cfg.max_free_list_length 8192 r.max_free_list_length
  pub max_overages : Reads cfg.max_overages 3 r.max_overages
  pub max_transfer_slots : Reads cfg.max_transfer_slots 64 r.max_transfer_slots
  pub max_pages : Reads cfg.max_pages 128 r.max_pages

-- The page size is two to the shift, and the values are in their ranges.
pub record IsResolved (r : ResolvedConfig) : Type 0 where
  pub power : r.page_size ≡ 2 ^ r.page_shift
  pub shift_max : r.page_shift ≤ 64
  pub page_min : 4096 ≤ r.page_size
  pub cache_min : 0 < r.min_per_thread_cache
  pub cache_fits : r.min_per_thread_cache ≤ r.thread_cache_size
  pub steal_pos : 0 < r.steal_amount
  pub length_pos : 0 < r.max_free_list_length
  pub overages_pos : 0 < r.max_overages
  pub slots_pos : 0 < r.max_transfer_slots
  pub pages_pos : 0 < r.max_pages

and-eq-true_right : (a b : Bool) → (a && b) ≡ true → b ≡ true
and-eq-true_right a b h = ground arith

trailing_zeros_below-le : (bits n : ℕ) → trailing_zeros_below bits n ≤ bits
unfolding trailing_zeros_below
trailing_zeros_below-le zero n = omega arith
trailing_zeros_below-le (suc bits) n = ground (arith, trailing_zeros_below-le bits (n / 2))

-- The zeros below the one bit of a power of two.
trailing_zeros_below-pow : (bits k : ℕ) → k ≤ bits → trailing_zeros_below bits (2 ^ k) ≡ k
unfolding trailing_zeros_below
trailing_zeros_below-pow zero k le = omega (arith, le)
trailing_zeros_below-pow (suc bits) zero le = refl
trailing_zeros_below-pow (suc bits) (suc k) le =
    let e : 2 ^ suc k ≡ 2 * 2 ^ k = omega arith in
    let even : (2 ^ suc k % 2 == 0) ≡ true = eq→== _ _ (omega (arith, e)) in
    let half : 2 ^ suc k / 2 ≡ 2 ^ k = omega (arith, e) in
    rw (even, half) (ap suc (trailing_zeros_below-pow bits k (omega (arith, le))))

-- The assertions passed, so each of them holds of the values read.
resolved-IsResolved :
    (cfg : ConfigSection) {r : ResolvedConfig}
    → check_resolved (resolved cfg) ≡ some r
    → (r ≡ resolved cfg) × IsResolved (resolved cfg)
unfolding check_resolved resolved
resolved-IsResolved cfg h =
    let s = resolved cfg in
    let (power, h1) = assert-eq-some _ _ h in
    let (page, h2) = assert-eq-some _ _ h1 in
    let (cache, h3) = assert-eq-some _ _ h2 in
    let (least, h4) = assert-eq-some _ _ h3 in
    let (fits, h5) = assert-eq-some _ _ h4 in
    let (steal, h6) = assert-eq-some _ _ h5 in
    let (lengths, h7) = assert-eq-some _ _ h6 in
    let (overages, h8) = assert-eq-some _ _ h7 in
    let (slots, h9) = assert-eq-some _ _ h8 in
    let (pages, h10) = assert-eq-some _ _ h9 in
    (
      sym (some_inj h10),
      record {
        power = ==→eq _ _ (and-eq-true_right _ _ power);
        shift_max = trailing_zeros_below-le 64 (unwrap_or cfg.page_size 8192);
        page_min = leb→le _ _ page;
        cache_min = ltb→lt _ _ least;
        cache_fits = leb→le _ _ fits;
        steal_pos = ltb→lt _ _ steal;
        length_pos = ltb→lt _ _ lengths;
        overages_pos = ltb→lt _ _ overages;
        slots_pos = ltb→lt _ _ slots;
        pages_pos = ltb→lt _ _ pages;
      },
    )

-- Values in their ranges pass every assertion.
check_resolved-IsResolved : (r : ResolvedConfig) → IsResolved r → check_resolved r ≡ some r
unfolding check_resolved
check_resolved-IsResolved r is =
    let zeros : trailing_zeros r.page_size ≡ r.page_shift =
      ap trailing_zeros is.power ∙ trailing_zeros_below-pow 64 r.page_shift is.shift_max in
    let power : is_power_of_two r.page_size ≡ true =
      eq→== _ _ (is.power ∙ ap (λ n. 2 ^ n) (sym zeros)) in
    let page : ltb 0 r.page_size ≡ true = lt→ltb 0 _ (omega (arith, is.page_min)) in
    let page_min : leb 4096 r.page_size ≡ true = le→leb _ _ is.page_min in
    let cache : ltb 0 r.thread_cache_size ≡ true =
      lt→ltb 0 _ (omega (arith, is.cache_min, is.cache_fits)) in
    let cache_min : ltb 0 r.min_per_thread_cache ≡ true = lt→ltb 0 _ is.cache_min in
    let fits : leb r.min_per_thread_cache r.thread_cache_size ≡ true = le→leb _ _ is.cache_fits in
    let steal : ltb 0 r.steal_amount ≡ true = lt→ltb 0 _ is.steal_pos in
    let lengths : ltb 0 r.max_free_list_length ≡ true = lt→ltb 0 _ is.length_pos in
    let overages : ltb 0 r.max_overages ≡ true = lt→ltb 0 _ is.overages_pos in
    let slots : ltb 0 r.max_transfer_slots ≡ true = lt→ltb 0 _ is.slots_pos in
    let pages : ltb 0 r.max_pages ≡ true = lt→ltb 0 _ is.pages_pos in
    rw (page, power, page_min, cache, cache_min, fits, steal, lengths, overages, slots, pages) refl

-- The values that are read are all alike.
IsRead-IsResolved :
    (cfg : ConfigSection) (r : ResolvedConfig)
    → IsRead cfg r
    → IsResolved r
    → IsResolved (resolved cfg)
unfolding resolved
IsRead-IsResolved cfg r from is =
    let page = Reads-unwrap_or cfg.page_size 8192 r.page_size from.page_size in
    let cache = Reads-unwrap_or cfg.thread_cache_size _ _ from.thread_cache_size in
    let least = Reads-unwrap_or cfg.min_per_thread_cache _ _ from.min_per_thread_cache in
    let zeros : trailing_zeros r.page_size ≡ r.page_shift =
      ap trailing_zeros is.power ∙ trailing_zeros_below-pow 64 r.page_shift is.shift_max in
    record {
      power =
          subst (λ (n : ℕ). n ≡ 2 ^ trailing_zeros n) (sym page)
            (is.power ∙ ap (λ n. 2 ^ n) (sym zeros));
      shift_max = trailing_zeros_below-le 64 (unwrap_or cfg.page_size 8192);
      page_min = omega (arith, page, is.page_min);
      cache_min = omega (arith, least, is.cache_min);
      cache_fits = omega (arith, least, cache, is.cache_fits);
      steal_pos =
          omega (arith, Reads-unwrap_or cfg.steal_amount _ _ from.steal_amount, is.steal_pos);
      length_pos = omega (
        arith,
        Reads-unwrap_or cfg.max_free_list_length _ _ from.max_free_list_length,
        is.length_pos,
      );
      overages_pos =
          omega (arith, Reads-unwrap_or cfg.max_overages _ _ from.max_overages, is.overages_pos);
      slots_pos =
          omega (
            arith,
            Reads-unwrap_or cfg.max_transfer_slots _ _ from.max_transfer_slots,
            is.slots_pos,
          );
      pages_pos = omega (arith, Reads-unwrap_or cfg.max_pages _ _ from.max_pages, is.pages_pos);
    }

resolved-IsRead : (cfg : ConfigSection) → IsRead cfg (resolved cfg)
unfolding resolved
resolved-IsRead cfg = record {
  page_size = unwrap_or-Reads cfg.page_size _;
  thread_cache_size = unwrap_or-Reads cfg.thread_cache_size _;
  min_per_thread_cache = unwrap_or-Reads cfg.min_per_thread_cache _;
  steal_amount = unwrap_or-Reads cfg.steal_amount _;
  max_free_list_length = unwrap_or-Reads cfg.max_free_list_length _;
  max_overages = unwrap_or-Reads cfg.max_overages _;
  max_transfer_slots = unwrap_or-Reads cfg.max_transfer_slots _;
  max_pages = unwrap_or-Reads cfg.max_pages _;
}

-- The configuration that the file describes, in its ranges; or there is none.
abbrev pub ResolveOutcome : ConfigSection → Option ResolvedConfig → Type 0
ResolveOutcome cfg none = ¬ ((r : ResolvedConfig) × IsRead cfg r × IsResolved r)
ResolveOutcome cfg (some r) = IsRead cfg r × IsResolved r

either_outcome :
    (cfg : ConfigSection) (got : Option ResolvedConfig)
    → check_resolved (resolved cfg) ≡ got
    → ResolveOutcome cfg got
either_outcome cfg none e = λ (r, from, is).
    let passes = check_resolved-IsResolved (resolved cfg) (IsRead-IsResolved cfg r from is) in
    let refused : none ≡ some (resolved cfg) = sym e ∙ passes in cc
either_outcome cfg (some r) e =
    let (same, is) = resolved-IsResolved cfg e in
    subst (λ (s : ResolvedConfig). IsRead cfg s × IsResolved s) (sym same) (resolved-IsRead cfg, is)

-- `resolve_config` returns the values of the file, or their defaults where the file has none, with the
-- page size a power of two that is at least 4096 and the page shift its exponent, at most 64; the
-- minimum thread cache is positive and fits the overall budget, and the steal amount, the list length,
-- the overages, the transfer slots and the page buckets are positive. It panics if and only if no
-- values that are read from the file are so.
pub resolve_config-Outcome : (cfg : ConfigSection) → ResolveOutcome cfg (resolve_config cfg)
unfolding resolve_config
resolve_config-Outcome cfg = either_outcome cfg (check_resolved (resolved cfg)) refl
