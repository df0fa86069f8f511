-- ===== src/PageMap/Laws.antt =====
-- src/pagemap.rs: `get` after `set`.
use rtmalloc.Base.{
  ℕ, ◌≡◌, inl, inr, true, false, Option, none, some, sym, ap, ◌∙◌, ◌&&◌, ==→eq, arith, ltb, leb,
  ◌==◌, if◌then◌else◌, update, Bool-cases, assert-eq-some, >>=-eq-some, some_inj,
}
use mathlib.Core.Path.{ap₂}
use rtmalloc.Platform.{Os}
use rtmalloc.Span.{null}
use rtmalloc.PageMap.{
  PageMap, MidNode, LeafNode, root_idx, mid_idx, leaf_idx, root_len, mid_len, leaf_len, in_leaf,
  in_mid, get, ensure_node, set,
}

-- The node that `ensure_node` gives has the entries of the one that was there.
ensure_node-in_mid :
    (page_size : ℕ) (o : Option MidNode) (os os' : Os) (mid : MidNode)
    → ensure_node page_size mid_len (λ i. none) o os ≡ some (mid, os')
    → (i j : ℕ) → in_leaf (mid i) j ≡ in_mid o i j
unfolding ensure_node
ensure_node-in_mid page_size (some node) os os' mid h i j = ground arith
ensure_node-in_mid page_size none os os' mid h i j = ground arith

ensure_node-in_leaf :
    (page_size : ℕ) (o : Option LeafNode) (os os' : Os) (leaf : LeafNode)
    → ensure_node page_size leaf_len (λ i. null) o os ≡ some (leaf, os')
    → (j : ℕ) → leaf j ≡ in_leaf o j
unfolding ensure_node
ensure_node-in_leaf page_size (some node) os os' leaf h j = ground arith
ensure_node-in_leaf page_size none os os' leaf h j = ground arith

-- The nodes that a successful `set` goes through, and the map that it leaves.
record SetRun (page_size page span : ℕ) (map map' : PageMap) (os os' : Os) : Type 0 where
  mid : MidNode
  leaf : LeafNode
  between : Os
  in_range : ltb (root_idx page) root_len ≡ true
  mid_eq : ensure_node page_size mid_len (λ i. none) (map (root_idx page)) os ≡ some (mid, between)
  leaf_eq :
      ensure_node page_size leaf_len (λ i. null) (mid (mid_idx page)) between ≡ some (leaf, os')
  map_eq :
      map'
      ≡ update map
          (root_idx page)
          (some (update mid (mid_idx page) (some (update leaf (leaf_idx page) span))))

set-SetRun :
    (page_size page span : ℕ) (map map' : PageMap) (os os' : Os)
    → set page_size page span (map, os) ≡ some (map', os')
    → SetRun page_size page span map map' os os'
unfolding set
set-SetRun page_size page span map map' os os' h =
    let (within, h1) = assert-eq-some (ltb (root_idx page) root_len) _ h in
    let ((mid, os1), some_mid, h2) =
      >>=-eq-some (ensure_node page_size mid_len (λ i. none) (map (root_idx page)) os) _ h1 in
    let ((leaf, os2), some_leaf, h3) =
      >>=-eq-some (ensure_node page_size leaf_len (λ i. null) (mid (mid_idx page)) os1) _ h2 in
    let done = some_inj h3 in
    record {
      mid = mid;
      leaf = leaf;
      between = os1;
      in_range = within;
      mid_eq = some_mid;
      leaf_eq = some_leaf ∙ ap (λ (s : PageMap × Os). some (leaf, s.1)) done;
      map_eq = sym (ap (λ (s : PageMap × Os). s.0) done);
    }

-- An entry of the tree after a write, at abstract indices.
in_mid-update :
    (map : PageMap) (mid : MidNode) (leaf : LeafNode) (r m l r' m' l' span : ℕ)
    → ((i j : ℕ) → in_leaf (mid i) j ≡ in_mid (map r) i j)
    → ((j : ℕ) → leaf j ≡ in_leaf (mid m) j)
    → in_mid (update map r (some (update mid m (some (update leaf l span)))) r') m' l'
      ≡ (if (r' == r) && (m' == m) && (l' == l) then span else in_mid (map r') m' l')
unfolding update
in_mid-update map mid leaf r m l r' m' l' span same_mid same_leaf = elim (Bool-cases (r' == r)) [
  | inr other ↦ rw other
  | inl root ↦ elim (Bool-cases (m' == m)) [
    | inr other ↦
        rw (root, other) (same_mid m' l' ∙ ap (λ t. in_mid (map t) m' l') (sym (==→eq _ _ root)))
    | inl node ↦ elim (Bool-cases (l' == l)) [
      | inl entry ↦ rw (root, node, entry)
      | inr other ↦
          rw (root, node, other)
            (same_leaf l'
              ∙ same_mid m l'
              ∙ ap₂ (λ t u. in_mid (map t) u l') (sym (==→eq _ _ root)) (sym (==→eq _ _ node)))
    ]
  ]
]

-- The three indices determine the page.
page-indices :
    (p q : ℕ)
    → ((root_idx q == root_idx p) && (mid_idx q == mid_idx p) && (leaf_idx q == leaf_idx p))
      ≡ (q == p)
page-indices p q = elim (Bool-cases (q == p)) [ inl same ↦ ground arith | inr other ↦ ground arith ]

-- If `set` succeeds, the page set is mapped to the span and every other page to what it was.
pub get-set :
    (page_size page span : ℕ) (map map' : PageMap) (os os' : Os)
    → set page_size page span (map, os) ≡ some (map', os')
    → (q : ℕ) → get map' q ≡ (if q == page then span else get map q)
unfolding get
get-set page_size page span map map' os os' h q =
    let run = set-SetRun page_size page span map map' os os' h in
    let entry =
      in_mid-update map run.mid run.leaf (root_idx page) (mid_idx page) (leaf_idx page) (root_idx q)
        (mid_idx q) (leaf_idx q) span
        (ensure_node-in_mid page_size (map (root_idx page)) os run.between run.mid run.mid_eq)
        (ensure_node-in_leaf page_size (run.mid (mid_idx page)) run.between os' run.leaf
          run.leaf_eq) in
    elim (Bool-cases (leb root_len (root_idx q))) [
      | inl beyond ↦
          let other : (q == page) ≡ false = ground (arith, run.in_range) in rw (beyond, other)
      | inr within ↦
          rw (within, ← page-indices page q)
            (ap (λ (m : PageMap). in_mid (m (root_idx q)) (mid_idx q) (leaf_idx q)) run.map_eq
              ∙ entry)
    ]
