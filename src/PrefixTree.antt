-- ===== src/PrefixTree.antt =====
-- structure/prefixtree.go: PrefixTree.
--
-- A value is an `Option`, whose `none` is nil. The nodes are a tree, since the code never puts a node in two
-- places, and the root is its list of nodes, since it has no label and no value. What is done
-- through a pointer to a node is done at its path, the indexes that lead to it. `key[0]` and
-- `label[0]` panic where there is no byte.
pub mod Removal
pub mod Labels
pub mod Find
pub mod Matches
pub mod Parts
pub mod Growth
pub mod Leaves
pub mod Grows
pub mod Insert
pub mod Inserts
pub mod Thinning
pub mod Upwards
pub mod Delete
pub mod Losses
mod Tests
use golly.Base.{
  ℕ, zero, suc, ◌+◌, ◌-◌, Bool, true, false, not, ◌&&◌, ◌||◌, Option, none, some, List, [], ◌∷◌,
  Bytes, if◌then◌else◌, ltb, ◌==◌, text_eq,
}
use golly.Base.Calls.{ok, ◌>>=◌, read_at, Run}
use golly.Base.Lists.{length, take, drop}

mutual
  pub data PrefixTreeNode {ℓ} (V : Type ℓ) : Type ℓ where
    node : Bytes → Nodes V → Option V → PrefixTreeNode V

  pub data Nodes {ℓ} (V : Type ℓ) : Type ℓ where
    nil : Nodes V
    cons : PrefixTreeNode V → Nodes V → Nodes V

pub record PrefixTree {ℓ} (V : Type ℓ) : Type ℓ where
  pub root : Nodes V
  pub size : ℕ

pub record PrefixMatch {ℓ} (V : Type ℓ) : Type ℓ where
  pub suffix : Bytes
  pub value : V

module _ {ℓ} {V : Type ℓ} where
  abbrev pub count_nodes : Nodes V → ℕ
  count_nodes nil = 0
  count_nodes (cons n ns) = suc (count_nodes ns)

  abbrev pub label_of : PrefixTreeNode V → Bytes
  label_of (node label nodes value) = label

  abbrev pub value_of : PrefixTreeNode V → Option V
  value_of (node label nodes value) = value

  abbrev pub is_nil : Option V → Bool
  is_nil none = true
  is_nil (some v) = false

  -- `NewPrefixTree`
  abbrev pub new_prefix_tree : PrefixTree V
  new_prefix_tree = record { root = nil; size = 0 }

-- How many bytes the loop over the key finds that the label has too.
abbrev pub common : Bytes → Bytes → ℕ
common [] label = 0
common (b ∷ key) [] = 0
common (b ∷ key) (c ∷ label) = if b == c then suc (common key label) else 0

-- What the loop of `Insert` does below a node: it returns, and it is known whether the size is
-- counted up; or it is left with the cursor at a node, a rest of the key, and a byte.
pub data Descent {ℓ} (T : Type ℓ) : Type ℓ where
  returned : T → Bool → Descent T
  left : T → List ℕ → Bytes → ℕ → Descent T

abbrev pub under {ℓ} :
    {V : Type ℓ} → Bytes → Option V → Descent (Nodes V) → Descent (PrefixTreeNode V)
under label value (returned ns new) = returned (node label ns value) new
under label value (left ns at key char) = left (node label ns value) at key char

abbrev pub first {ℓ} : {V : Type ℓ} → Nodes V → Descent (PrefixTreeNode V) → Descent (Nodes V)
first ns (returned n new) = returned (cons n ns) new
first ns (left n at key char) = left (cons n ns) (0 ∷ at) key char

abbrev pub behind {ℓ} : {V : Type ℓ} → PrefixTreeNode V → Descent (Nodes V) → Descent (Nodes V)
behind n (returned ns new) = returned (cons n ns) new
behind n (left ns [] key char) = left (cons n ns) [] key char
behind n (left ns (i ∷ at) key char) = left (cons n ns) (suc i ∷ at) key char

-- What is found below a node, or the loop is left at the node.
abbrev pub below_or {ℓ} :
    {V : Type ℓ}
    → Bytes
    → Nodes V
    → Option V
    → Bytes
    → ℕ
    → Option (Descent (Nodes V))
    → Descent (PrefixTreeNode V)
below_or label nodes value key char none = left (node label nodes value) [] key char
below_or label nodes value key char (some d) = under label value d

abbrev pub found_behind {ℓ} :
    {V : Type ℓ} → PrefixTreeNode V → Option (Descent (Nodes V)) → Option (Descent (Nodes V))
found_behind n none = none
found_behind n (some d) = some (behind n d)

-- The loop of `Insert` at a node, and the search among the nodes below it, which may find none.
unfoldable mutual
  pub insert_node {ℓ} :
      {V : Type ℓ} → ℕ → Bytes → Option V → PrefixTreeNode V → Run (Descent (PrefixTreeNode V))
  insert_node char key v (node label nodes value) =
      if text_eq key label
      then ok (returned (node label nodes v) (is_nil value))
      else if ltb (common key label) (length label)
      then ok (
          left
            (node (take (common key label) label)
              (cons (node (drop (common key label) label) nodes value) nil) none)
            [] (drop (common key label) key) char)
      else read_at (drop (common key label) key) 0 >>= λ char'.
          insert_among char' (drop (common key label) key) v nodes >>= λ found.
          ok (below_or label nodes value (drop (common key label) key) char' found)

  pub insert_among {ℓ} :
      {V : Type ℓ} → ℕ → Bytes → Option V → Nodes V → Run (Option (Descent (Nodes V)))
  insert_among char key v nil = ok none
  insert_among char key v (cons n ns) = read_at (label_of n) 0 >>= λ b.
      if b == char
      then (insert_node char key v n >>= λ d. ok (some (first ns d)))
      else (insert_among char key v ns >>= λ found. ok (found_behind n found))

abbrev pub moved {ℓ} : {V : Type ℓ} → PrefixTreeNode V → Descent (Nodes V) → Descent (Nodes V)
moved n (returned ns new) = returned (cons n ns) new
moved n (left ns at key char) = left (cons n ns) at key char

-- The loop of `Insert` over the nodes of the root, from the index `i` on: it goes on with the rest of the key
-- behind a node where the loop at that node is left. The cursor is a path from the root.
unfoldable pub insert_from {ℓ} :
    {V : Type ℓ} → ℕ → List ℕ → ℕ → Bytes → Option V → Nodes V → Run (Descent (Nodes V))
unfolding insert_node
insert_from i at char key v nil = ok (left nil at key char)
insert_from i at char key v (cons n ns) = read_at (label_of n) 0 >>= λ b.
    if b == char
    then (insert_node char key v n >>= λ d. elim d [
      | returned n' new ↦ ok (returned (cons n' ns) new)
      | left n' at' key' char' ↦
          insert_from (i + 1) (i ∷ at') char' key' v ns >>= λ d'. ok (moved n' d')
    ])
    else (insert_from (i + 1) at char key v ns >>= λ d. ok (moved n d))

-- `append` to the nodes of the node at a path.
unfoldable pub append_at {ℓ} : {V : Type ℓ} → List ℕ → PrefixTreeNode V → Nodes V → Nodes V
append_at [] n nil = cons n nil
append_at [] n (cons m ns) = cons m (append_at [] n ns)
append_at (i ∷ at) n nil = nil
append_at (zero ∷ at) n (cons (node label nodes value) ns) =
    cons (node label (append_at at n nodes) value) ns
append_at (suc i ∷ at) n (cons m ns) = cons m (append_at (i ∷ at) n ns)

-- `Insert`
unfoldable pub insert {ℓ} : {V : Type ℓ} → Bytes → Option V → PrefixTree V → Run (PrefixTree V)
unfolding insert_from append_at
insert [] v tree = ok tree
insert (char ∷ rest) v tree = insert_from 0 [] char (char ∷ rest) v tree.root >>= λ d. elim d [
  | returned root new ↦ ok (record { root = root; size = if new then tree.size + 1 else tree.size })
  | left root at key' char' ↦
      ok (record { root = append_at at (node key' nil v) root; size = tree.size + 1 })
]

-- The test for a label that the key does not begin with.
abbrev pub leaves_label : Bytes → Bytes → Bool
leaves_label key label =
    ltb (length key) (length label) || not (text_eq (take (length label) key) label)

unfoldable mutual
  pub lookup_node {ℓ} : {V : Type ℓ} → Bytes → PrefixTreeNode V → Run (Option V)
  lookup_node key (node label nodes value) =
      if text_eq key label
      then ok value
      else if leaves_label key label
      then ok none
      else read_at (drop (length label) key) 0 >>= λ char.
          lookup_among char (drop (length label) key) nodes

  pub lookup_among {ℓ} : {V : Type ℓ} → ℕ → Bytes → Nodes V → Run (Option V)
  lookup_among char key nil = ok none
  lookup_among char key (cons n ns) = read_at (label_of n) 0 >>= λ b.
      if b == char then lookup_node key n else lookup_among char key ns

-- `Lookup`
unfoldable pub lookup {ℓ} : {V : Type ℓ} → Bytes → PrefixTree V → Run (Option V)
unfolding lookup_node
lookup [] tree = ok none
lookup (char ∷ rest) tree = lookup_among char (char ∷ rest) tree.root

abbrev pub add_match {ℓ} :
    {V : Type ℓ} → Bytes → Option V → List (PrefixMatch V) → List (PrefixMatch V)
add_match key none ms = ms
add_match key (some v) ms = record { suffix = key; value = v } ∷ ms

unfoldable mutual
  pub match_node {ℓ} : {V : Type ℓ} → Bytes → PrefixTreeNode V → Run (List (PrefixMatch V))
  match_node key (node label nodes value) =
      if text_eq key label
      then ok (add_match [] value [])
      else if leaves_label key label
      then ok []
      else read_at (drop (length label) key) 0 >>= λ char.
          match_among char (drop (length label) key) nodes >>= λ ms.
          ok (add_match (drop (length label) key) value ms)

  pub match_among {ℓ} : {V : Type ℓ} → ℕ → Bytes → Nodes V → Run (List (PrefixMatch V))
  match_among char key nil = ok []
  match_among char key (cons n ns) = read_at (label_of n) 0 >>= λ b.
      if b == char then match_node key n else match_among char key ns

-- `MatchPrefix`
unfoldable pub match_prefix {ℓ} : {V : Type ℓ} → Bytes → PrefixTree V → Run (List (PrefixMatch V))
unfolding match_node
match_prefix [] tree = ok []
match_prefix (char ∷ rest) tree = match_among char (char ∷ rest) tree.root
