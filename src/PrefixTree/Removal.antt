-- ===== src/PrefixTree/Removal.antt =====
-- structure/prefixtree.go: `Delete` of a PrefixTree.
use golly.Base.{
  ℕ, ◌-◌, Bool, true, false, Option, none, [], ◌∷◌, Bytes, if◌then◌else◌, ◌==◌, text_eq,
}
use golly.Base.Calls.{ok, ◌>>=◌, read_at, Run}
use golly.Base.Lists.{length, drop}
use golly.PrefixTree.{
  PrefixTree, PrefixTreeNode, Nodes, node, nil, cons, label_of, value_of, count_nodes, is_nil,
  leaves_label,
}

-- What `Delete` does below a list of nodes, or a node: it returns and nothing is changed; or a value
-- is set to nil, and it is known whether the loop over the nodes on the way goes on upwards.
pub data Removal {ℓ} (T : Type ℓ) : Type ℓ where
  untouched : Removal T
  cleared : T → Bool → Removal T

-- A round of the loop upwards: `n` is one of the `whole` nodes of its parent, in front of `ns`.
abbrev pub go_up {ℓ} : {V : Type ℓ} → Bool → ℕ → PrefixTreeNode V → Nodes V → Removal (Nodes V)
go_up root whole n ns =
    if is_nil (value_of n)
    then (if whole == 1
        then (if root then cleared nil true else cleared (cons n ns) true)
        else cleared ns false)
    else cleared (cons n ns) true

abbrev pub up {ℓ} :
    {V : Type ℓ} → Bool → ℕ → Nodes V → Removal (PrefixTreeNode V) → Removal (Nodes V)
up root whole ns untouched = untouched
up root whole ns (cleared n false) = cleared (cons n ns) false
up root whole ns (cleared n true) = go_up root whole n ns

abbrev pub beside {ℓ} : {V : Type ℓ} → PrefixTreeNode V → Removal (Nodes V) → Removal (Nodes V)
beside n untouched = untouched
beside n (cleared ns goes_on) = cleared (cons n ns) goes_on

abbrev pub above {ℓ} :
    {V : Type ℓ} → Bytes → Option V → Removal (Nodes V) → Removal (PrefixTreeNode V)
above label value untouched = untouched
above label value (cleared ns goes_on) = cleared (node label ns value) goes_on

-- The two loops of `Delete`; the rounds of the one upwards are made as the calls return.
unfoldable mutual
  pub delete_node {ℓ} : {V : Type ℓ} → Bytes → PrefixTreeNode V → Run (Removal (PrefixTreeNode V))
  delete_node key (node label nodes value) =
      if text_eq key label
      then ok (
          if is_nil value
          then untouched
          else cleared (node label nodes none) (count_nodes nodes == 0))
      else if leaves_label key label
      then ok untouched
      else read_at (drop (length label) key) 0 >>= λ char.
          delete_among false (count_nodes nodes) char (drop (length label) key) nodes >>= λ r.
          ok (above label value r)

  pub delete_among {ℓ} : {V : Type ℓ} → Bool → ℕ → ℕ → Bytes → Nodes V → Run (Removal (Nodes V))
  delete_among root whole char key nil = ok untouched
  delete_among root whole char key (cons n ns) = read_at (label_of n) 0 >>= λ b.
      if b == char
      then (delete_node key n >>= λ r. ok (up root whole ns r))
      else (delete_among root whole char key ns >>= λ r. ok (beside n r))

-- `Delete`
unfoldable pub delete {ℓ} : {V : Type ℓ} → Bytes → PrefixTree V → Run (PrefixTree V)
unfolding delete_node
delete [] tree = ok tree
delete (char ∷ rest) tree =
    delete_among true (count_nodes tree.root) char (char ∷ rest) tree.root >>= λ r. elim r [
      | untouched ↦ ok tree
      | cleared root goes_on ↦ ok (record { root = root; size = tree.size - 1 })
    ]
