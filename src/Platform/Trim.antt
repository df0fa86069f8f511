-- ===== src/Platform/Trim.antt =====
-- src/platform/unix.rs: what `page_alloc` keeps of a mapping and what it gives back.
use native.Mathlib.Nat.{mod-lt, div-add-mod, mul-mod_right}
use rtmalloc.Base.{
  ℕ, ◌+◌, ◌-◌, ◌*◌, ◌/◌, ◌%◌, ◌^◌, ◌≤◌, ◌<◌, ◌≡◌, ◌≢◌, ◌∙◌, ap, Bool, false, not, ◌&&◌, ◌||◌, List,
  [], ◌∷◌, arith, ltb, leb, ◌==◌, ne→==,
}
use rtmalloc.Base.Rounding.{usize, usize_sub, align_up}
use rtmalloc.Platform.{Os, map_failed, trim, page_alloc}

pub round_down-mod : (y p : ℕ) → (y - y % p) % p ≡ 0
round_down-mod y p =
    let e : y - y % p ≡ p * (y / p) = omega (arith, div-add-mod y p) in
    ap (λ (t : ℕ). t % p) e ∙ mul-mod_right p (y / p)

-- Rounding up gives the first multiple of `p` from `x` on.
pub align_up_bounds :
    (x p : ℕ)
    → 0 < p
    → x + p < 2 ^ 64
    → (x ≤ align_up x p) × (align_up x p < x + p) × (align_up x p % p ≡ 0)
align_up_bounds x p h small =
    let e : usize (x + p - 1) ≡ x + p - 1 = omega arith in
    (omega (arith, mod-lt (x + p - 1) h, e), omega (arith, e), round_down-mod (usize (x + p - 1)) p)

-- Whether the address `b` lies in the `len` bytes from `addr` on.
abbrev pub in_block : ℕ → ℕ → ℕ → Bool
in_block addr len b = leb addr b && ltb b (addr + len)

-- Whether some `munmap` was given the address `b`.
abbrev pub in_blocks : ℕ → List (ℕ × ℕ) → Bool
in_blocks b [] = false
in_blocks b ((addr, len) ∷ rest) = in_block addr len b || in_blocks b rest

trim-in_blocks :
    (addr len : ℕ) (os : Os) (b : ℕ)
    → in_blocks b (trim addr len os).unmapped ≡ (in_block addr len b || in_blocks b os.unmapped)
unfolding trim
trim-in_blocks addr len os b = ground arith

trim-answers : (addr len : ℕ) (os : Os) → (trim addr len os).answers ≡ os.answers
unfolding trim
trim-answers addr len os = ground arith

trim-mapped : (addr len : ℕ) (os : Os) → (trim addr len os).mapped ≡ os.mapped
unfolding trim
trim-mapped addr len os = ground arith

-- The two ends that are given back, as intervals.
ends-in_blocks :
    (raw size page_size p b : ℕ) (blocks : Bool)
    → raw ≤ p
    → p < raw + page_size
    → (in_block (p + size) (raw + size + page_size - (p + size)) b
        || (in_block raw (p - raw) b || blocks))
      ≡ ((in_block raw (size + page_size) b && not (in_block p size b)) || blocks)
ends-in_blocks raw size page_size p b blocks low high = ground arith

-- If `mmap` answers with a mapping of the `size + page_size` bytes that it is asked for at `raw`, which
-- ends below 2^64, `page_alloc` makes no other request and returns a multiple of the page size, the `size` bytes there lie in the mapping, and
-- what is unmapped is all the rest of the mapping and no byte that is kept.
pub page_alloc_trims :
    (page_size size raw : ℕ) (rest : List ℕ) (os : Os)
    → 0 < page_size
    → raw + size + page_size < 2 ^ 64
    → os.answers ≡ raw ∷ rest
    → raw ≢ map_failed
    → let (p, os') = page_alloc page_size size os in
      (p % page_size ≡ 0)
      × (raw ≤ p)
      × (p + size ≤ raw + size + page_size)
      × (os'.answers ≡ rest)
      × (os'.mapped ≡ (size + page_size) ∷ os.mapped)
      × ((b : ℕ)
          → in_blocks b (os'.unmapped) ≡ (
              (in_block raw (size + page_size) b && not (in_block p size b))
              || in_blocks b (os.unmapped)))
unfolding page_alloc
page_alloc_trims page_size size raw rest os pos small e ne =
    let got : (raw == map_failed) ≡ false = ne→== raw map_failed ne in
    let (low, high, multiple) = align_up_bounds raw page_size pos (omega arith) in
    let p = align_up raw page_size in
    let lead : usize_sub p raw ≡ p - raw = omega arith in
    let end : usize (p + size) ≡ p + size = omega arith in
    let trail : usize_sub (usize (raw + size + page_size)) (p + size)
        ≡ raw + size + page_size - (p + size) =
      omega arith in
    let asked_for : usize (size + page_size) ≡ size + page_size = omega arith in
    let asked : Os = record os { answers = rest; mapped = (size + page_size) ∷ os.mapped } in
    let os1 = trim raw (p - raw) asked in
    rw (e, asked_for, got, lead, end, trail)
      (
        multiple,
        low,
        omega arith,
        trim-answers (p + size) (raw + size + page_size - (p + size)) os1
            ∙ trim-answers raw (p - raw) asked,
        trim-mapped (p + size) (raw + size + page_size - (p + size)) os1
            ∙ trim-mapped raw (p - raw) asked,
        λ b.
            trim-in_blocks (p + size) (raw + size + page_size - (p + size)) os1 b
            ∙ ap (λ t. in_block (p + size) (raw + size + page_size - (p + size)) b || t)
                (trim-in_blocks raw (p - raw) asked b)
            ∙ ends-in_blocks raw size page_size p b (in_blocks b os.unmapped) low high,
      )
