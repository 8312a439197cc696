-- ===== src/PrefixTree/Find.antt =====
-- What a tree of nodes stores, without the panics of the code.
use golly.Base.{
  ℕ, ◌<◌, Bool, false, ◌||◌, inl, inr, Bool-cases, Option, none, some, [], ◌∷◌, ◌≡◌, refl, Bytes,
  if◌then◌else◌, ◌==◌,
}
use golly.Base.Calls.{ok, read_at-get_or, Fuel}
use golly.Base.Lists.{length, get_or}
use golly.PrefixTree.Labels.{strip, meets, same, leaves, below}
use golly.PrefixTree.{
  PrefixTreeNode, Nodes, node, nil, cons, PrefixTree, label_of, lookup_node, lookup_among, lookup,
}

abbrev pub head_of {ℓ} : {V : Type ℓ} → PrefixTreeNode V → ℕ
head_of n = get_or (label_of n) 0 0

abbrev pub find_behind {ℓ} :
    {V : Type ℓ} → Option Bytes → Option V → (ℕ → Bytes → Option V) → Option V
find_behind none value f = none
find_behind (some []) value f = value
find_behind (some (c ∷ k)) value f = f c (c ∷ k)

abbrev mutual
  pub find_node {ℓ} : {V : Type ℓ} → Bytes → PrefixTreeNode V → Option V
  find_node key (node label nodes value) =
      find_behind (strip label key) value (λ c k. find_among c k nodes)

  pub find_among {ℓ} : {V : Type ℓ} → ℕ → Bytes → Nodes V → Option V
  find_among char key nil = none
  find_among char key (cons n ns) =
      if head_of n == char then find_node key n else find_among char key ns

-- Whether one of the nodes begins with the byte.
abbrev pub begins {ℓ} : {V : Type ℓ} → ℕ → Nodes V → Bool
begins char nil = false
begins char (cons n ns) = head_of n == char || begins char ns

-- No label is empty, and labels that stand beside each other begin with different bytes.
unfoldable mutual
  pub IsValidNode {ℓ} : {V : Type ℓ} → PrefixTreeNode V → Type 0
  IsValidNode (node label nodes value) = 0 < length label × IsValidNodes nodes

  pub IsValidNodes {ℓ} : {V : Type ℓ} → Nodes V → Type 0
  IsValidNodes nil = Unit
  IsValidNodes (cons n ns) = IsValidNode n × (begins (head_of n) ns ≡ false) × IsValidNodes ns

mutual
  unfolding lookup_node IsValidNode

  lookup_node-find {ℓ} :
      {V : Type ℓ} (key : Bytes) (n : PrefixTreeNode V)
      → IsValidNode n
      → lookup_node key n ≡ ok (find_node key n)
  lookup_node-find key (node label nodes value) (h, hs) = elim (meets label key) [
    | same e s ↦ rw (e, s) refl
    | leaves e l s ↦ rw (e, l, s) refl
    | below c k e l d s ↦ rw (e, l, d, s) (lookup_among-find c (c ∷ k) nodes hs)
  ]

  pub lookup_among-find {ℓ} :
      {V : Type ℓ} (char : ℕ) (key : Bytes) (ns : Nodes V)
      → IsValidNodes ns
      → lookup_among char key ns ≡ ok (find_among char key ns)
  lookup_among-find char key nil h = refl
  lookup_among-find char key (cons (node label nodes value) ns) (h, a, hs) =
      let r = read_at-get_or {E = Fuel} label 0 0 h.0 in
      elim (Bool-cases (head_of (node label nodes value) == char)) [
        | inl t ↦ rw (r, t) (lookup_node-find key (node label nodes value) h)
        | inr t ↦ rw (r, t) (lookup_among-find char key ns hs)
      ]

-- What a tree stores for a key.
abbrev pub stored {ℓ} : {V : Type ℓ} → Bytes → PrefixTree V → Option V
stored [] tree = none
stored (c ∷ k) tree = find_among c (c ∷ k) tree.root

abbrev pub IsValid {ℓ} : {V : Type ℓ} → PrefixTree V → Type 0
IsValid tree = IsValidNodes tree.root

pub lookup-stored {ℓ} :
    {V : Type ℓ} (key : Bytes) (tree : PrefixTree V)
    → IsValid tree
    → lookup key tree ≡ ok (stored key tree)
unfolding lookup
lookup-stored [] tree h = refl
lookup-stored (c ∷ k) tree h = lookup_among-find c (c ∷ k) tree.root h
