-- ===== src/PrefixTree/Tests.antt =====
-- Small trees, with the keys of structure/prefixtree_test.go.
use golly.Base.{
  ℕ, ◌+◌, ◌-◌, false, Option, none, some, List, [], ◌∷◌, ◌≡◌, refl, Bytes, codes, if◌then◌else◌,
  text_eq, arith,
}
use golly.Base.Calls.{ok, ◌>>=◌, Run}
use golly.PrefixTree.{
  PrefixTree, PrefixTreeNode, Nodes, is_nil, insert, insert_from, insert_node, append_at, lookup,
  match_prefix, match_node, new_prefix_tree, nil, cons, node,
}
use golly.PrefixTree.Removal.{delete, delete_node}
use golly.PrefixTree.Find.{IsValid, IsValidNode, stored}
use golly.PrefixTree.Inserts.{insert-lookup}
use golly.PrefixTree.Thinning.{strands, strands_node}
use golly.PrefixTree.Delete.{delete-lookup}
use golly.PrefixTree.Matches.{collect, match_prefix-lookup}

inserted : List (Bytes × ℕ) → PrefixTree ℕ → Run (PrefixTree ℕ)
inserted [] t = ok t
inserted ((k, v) ∷ kvs) t = insert k (some v) t >>= λ t. inserted kvs t

abbrev leaf : Bytes → ℕ → PrefixTreeNode ℕ
leaf label v = node label nil (some v)

abbrev m_nodes : Nodes ℕ
m_nodes =
    cons (node (codes "us") (cons (leaf (codes "e") 9) (cons (leaf (codes "ic") 6) nil)) none)
      (cons (leaf (codes "elody") 7) nil)

abbrev sample : PrefixTree ℕ
sample = record {
  root = cons (node (codes "m") m_nodes (some 8)) (cons (leaf (codes "fun") 2) nil);
  size = 5;
}

inserted-sample :
    inserted
      ((codes "muse", 5)
        ∷ (codes "music", 6)
        ∷ (codes "melody", 7)
        ∷ (codes "m", 8)
        ∷ (codes "muse", 9)
        ∷ (codes "fun", 2)
        ∷ [])
      new_prefix_tree
    ≡ ok sample
unfolding inserted insert insert_from insert_node append_at text_eq
inserted-sample = refl

sample-IsValid : IsValid sample
unfolding IsValidNode
sample-IsValid = ground arith

match_sample :
    match_prefix (codes "musicology") sample
    ≡ ok (
        record { suffix = codes "usicology"; value = 8 }
        ∷ record { suffix = codes "ology"; value = 6 }
        ∷ [])
unfolding match_prefix match_node text_eq
match_sample = refl

-- The rest of "ac" is taken up by the node for "c", which stands behind the one for "a".
comes_back_sample :
    inserted ((codes "a", 1) ∷ (codes "c", 2) ∷ (codes "ac", 3) ∷ []) new_prefix_tree
    ≡ ok (record { root = cons (leaf (codes "a") 1) (cons (leaf (codes "c") 3) nil); size = 2 })
unfolding inserted insert insert_from insert_node append_at text_eq
comes_back_sample = refl

insert-lookup_example :
    (tree' : PrefixTree ℕ) × (insert (codes "musty") (some 1) sample ≡ ok tree')
    × IsValid tree'
    × ((key : Bytes)
        → lookup key tree'
          ≡ (if text_eq key (codes "musty") then ok (some 1) else lookup key sample))
    × (tree'.size
        ≡ (if is_nil (stored (codes "musty") sample) then sample.size + 1 else sample.size))
insert-lookup_example = insert-lookup 109 (codes "usty") (some 1) sample sample-IsValid refl

no_value_above : strands 109 (codes "melody") sample.root ≡ false
unfolding strands_node delete_node text_eq
no_value_above = refl

delete-lookup_example :
    (tree' : PrefixTree ℕ) × (delete (codes "melody") sample ≡ ok tree')
    × IsValid tree'
    × ((key : Bytes)
        → lookup key tree' ≡ (if text_eq key (codes "melody") then ok none else lookup key sample))
    × (tree'.size
        ≡ (if is_nil (stored (codes "melody") sample) then sample.size else sample.size - 1))
delete-lookup_example = delete-lookup 109 (codes "elody") sample sample-IsValid no_value_above

match_prefix-lookup_example :
    (f : Bytes → Option ℕ) × ((p : Bytes) → lookup p sample ≡ ok (f p))
    × ((key : Bytes) → match_prefix key sample ≡ ok (collect f key))
match_prefix-lookup_example = match_prefix-lookup sample sample-IsValid

-- "fu" ends inside a label.
cut_sample :
    inserted ((codes "fun", 1) ∷ (codes "fu", 2) ∷ []) new_prefix_tree
    ≡ ok (record {
      root = cons (node (codes "fu") (cons (leaf (codes "n") 1) (cons (leaf [] 2) nil)) none) nil;
      size = 2;
    })
unfolding inserted insert insert_from insert_node append_at text_eq
cut_sample = refl

abbrev musician : PrefixTree ℕ
musician = record {
  root =
      cons
        (node (codes "mus")
          (cons (node (codes "ic") (cons (leaf (codes "ian") 3) nil) (some 2)) nil) none)
        nil;
  size = 2;
}
