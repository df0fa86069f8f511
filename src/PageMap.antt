-- ===== src/PageMap.antt =====
-- src/pagemap.rs: the radix tree of three levels from page ids to spans. A missing node is `none`,
-- the span of an id that was never set is null, and `none` as the result of an operation is a
-- failed assertion: an id beyond the root, or no memory for a node.
pub mod Laws
pub mod Ranges
use rtmalloc.Base.{
  ℕ, zero, suc, ◌+◌, ◌-◌, ◌*◌, ◌/◌, ◌%◌, ◌^◌, Bool, Option, none, some, ltb, leb, ◌==◌,
  if◌then◌else◌, assert, ◌>>=◌, ◌>>◌, update,
}
use rtmalloc.Base.Rounding.{usize, align_up}
use rtmalloc.Platform.{Os, page_alloc}
use rtmalloc.Span.{null}

abbrev pub root_bits : ℕ
root_bits = 12

abbrev pub mid_bits : ℕ
mid_bits = 12

abbrev pub leaf_bits : ℕ
leaf_bits = 11

abbrev pub root_len : ℕ
root_len = 2 ^ root_bits

abbrev pub mid_len : ℕ
mid_len = 2 ^ mid_bits

abbrev pub leaf_len : ℕ
leaf_len = 2 ^ leaf_bits

abbrev pub LeafNode : Type 0
LeafNode = ℕ → ℕ

abbrev pub MidNode : Type 0
MidNode = ℕ → Option LeafNode

abbrev pub PageMap : Type 0
PageMap = ℕ → Option MidNode

abbrev pub new : PageMap
new i = none

-- `page_id >> ROOT_SHIFT`, `(page_id >> MID_SHIFT) & MID_MASK` and `page_id & LEAF_MASK`.
abbrev pub root_idx : ℕ → ℕ
root_idx page_id = page_id / 2 ^ (leaf_bits + mid_bits)

abbrev pub mid_idx : ℕ → ℕ
mid_idx page_id = page_id / 2 ^ leaf_bits % mid_len

abbrev pub leaf_idx : ℕ → ℕ
leaf_idx page_id = page_id % leaf_len

-- The entry of a node that may be missing.
abbrev pub in_leaf : Option LeafNode → ℕ → ℕ
in_leaf none i = null
in_leaf (some leaf) i = leaf i

abbrev pub in_mid : Option MidNode → ℕ → ℕ → ℕ
in_mid none i j = null
in_mid (some mid) i j = in_leaf (mid i) j

unfoldable pub get : PageMap → ℕ → ℕ
get map page_id =
    if leb root_len (root_idx page_id)
    then null
    else in_mid (map (root_idx page_id)) (mid_idx page_id) (leaf_idx page_id)

abbrev pub node_bytes : ℕ → ℕ
node_bytes len = 8 * len

-- The node that is there, or a new zeroed one from the OS.
unfoldable pub ensure_node {ℓ} : {A : Type ℓ} → ℕ → ℕ → A → Option A → Os → Option (A × Os)
ensure_node page_size len zeroed (some node) os = some (node, os)
ensure_node page_size len zeroed none os =
    let (p, os') = page_alloc page_size (align_up (node_bytes len) page_size) os in
    if p == null then none else some (zeroed, os')

unfoldable pub set : ℕ → ℕ → ℕ → PageMap × Os → Option (PageMap × Os)
set page_size page_id span (map, os) = do
  assert (ltb (root_idx page_id) root_len)
  (mid, os1) ← ensure_node page_size mid_len (λ i. none) (map (root_idx page_id)) os
  (leaf, os2) ← ensure_node page_size leaf_len (λ i. null) (mid (mid_idx page_id)) os1
  some (
    update map (root_idx page_id)
        (some (update mid (mid_idx page_id) (some (update leaf (leaf_idx page_id) span)))),
    os2,
  )

-- `set` for the pages from `page_id` on, for the rounds that are left.
unfoldable pub set_pages : ℕ → ℕ → ℕ → ℕ → PageMap × Os → Option (PageMap × Os)
set_pages page_size zero page_id span s = some s
set_pages page_size (suc rounds) page_id span s =
    set page_size page_id span s >>= set_pages page_size rounds (page_id + 1) span

-- `for page_id in start..start + count` on a `usize`.
abbrev pub range_len : ℕ → ℕ → ℕ
range_len start count = usize (start + count) - start

-- The methods are given the first page and the number of pages that `span` records.
unfoldable pub register_span : ℕ → ℕ → ℕ → ℕ → PageMap × Os → Option (PageMap × Os)
register_span page_size span start count s =
    set_pages page_size (range_len start count) start span s

unfoldable pub register_span_endpoints : ℕ → ℕ → ℕ → ℕ → PageMap × Os → Option (PageMap × Os)
register_span_endpoints page_size span start count s = do
  s' ← set page_size start span s
  if ltb 1 count then set page_size (usize (start + count - 1)) span s' else some s'

unfoldable pub unregister_span : ℕ → ℕ → ℕ → PageMap × Os → Option (PageMap × Os)
unregister_span page_size start count s = set_pages page_size (range_len start count) start null s
