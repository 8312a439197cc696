-- ===== src/PrefixTree/Matches.antt =====
-- `MatchPrefix` against what the tree stores.
use golly.Base.{
  ℕ, inl, inr, Bool-cases, Option, none, some, List, [], ◌∷◌, ◌≡◌, refl, sym, ap, arith, Bytes,
  ◌==◌,
}
use golly.Base.Calls.{ok}
use golly.PrefixTree.Labels.{strip, meets, same, leaves, below}
use golly.PrefixTree.{
  PrefixTreeNode, Nodes, node, nil, cons, PrefixTree, PrefixMatch, add_match, lookup, match_node,
  match_among, match_prefix,
}
use golly.PrefixTree.Find.{
  find_behind, find_node, find_among, IsValidNode, IsValidNodes, IsValid, stored, lookup-stored,
}

-- What a function gives for the prefixes of a key, from the shortest on, with what is behind each.
abbrev pub collect {ℓ} : {V : Type ℓ} → (Bytes → Option V) → Bytes → List (PrefixMatch V)
collect f [] = add_match [] (f []) []
collect f (c ∷ k) = add_match (c ∷ k) (f []) (collect (λ p. f (c ∷ p)) k)

collect-none {ℓ} : {V : Type ℓ} (key : Bytes) → collect {V = V} (λ p. none) key ≡ []
collect-none [] = refl
collect-none (c ∷ k) = collect-none k

abbrev collect_behind {ℓ} :
    {V : Type ℓ} → Option Bytes → Option V → (ℕ → Bytes → Option V) → List (PrefixMatch V)
collect_behind none value f = []
collect_behind (some []) value f = add_match [] value []
collect_behind (some (c ∷ k)) value f = add_match (c ∷ k) value (collect (λ q. f c (c ∷ q)) k)

collect-strip {ℓ} :
    {V : Type ℓ} (label key : Bytes) (value : Option V) (f : ℕ → Bytes → Option V)
    → collect (λ p. find_behind (strip label p) value f) key
      ≡ collect_behind (strip label key) value f
collect-strip [] [] value f = refl
collect-strip [] (c ∷ k) value f = refl
collect-strip (d ∷ label) [] value f = refl
collect-strip (d ∷ label) (b ∷ k) value f = elim (Bool-cases (b == d)) [
  | inl t ↦ rw t (collect-strip label k value f)
  | inr t ↦ rw t (collect-none k)
]

mutual
  unfolding match_node IsValidNode

  match_node-collect {ℓ} :
      {V : Type ℓ} (key : Bytes) (n : PrefixTreeNode V)
      → IsValidNode n
      → match_node key n ≡ ok (collect (λ p. find_node p n) key)
  match_node-collect key (node label nodes value) (h, hs) = elim (meets label key) [
    | same e s ↦ rw (e, collect-strip label key value (λ c k. find_among c k nodes), s) refl
    | leaves e l s ↦ rw (e, l, collect-strip label key value (λ c k. find_among c k nodes), s) refl
    | below c k e l d s ↦
        rw
          (
            e,
            l,
            d,
            collect-strip label key value (λ c k. find_among c k nodes),
            s,
            match_among-collect c k nodes hs,
          )
          refl
  ]

  match_among-collect {ℓ} :
      {V : Type ℓ} (c : ℕ) (k : Bytes) (ns : Nodes V)
      → IsValidNodes ns
      → match_among c (c ∷ k) ns ≡ ok (collect (λ q. find_among c (c ∷ q) ns) k)
  match_among-collect c k nil h = ap ok (sym (collect-none k))
  match_among-collect c k (cons (node [] nodes value) ns) (h, a, hs) = absurd (omega (arith, h.0))
  match_among-collect c k (cons (node (d ∷ label) nodes value) ns) (h, a, hs) =
      elim (Bool-cases (d == c)) [
        | inl t ↦ rw t (match_node-collect (c ∷ k) (node (d ∷ label) nodes value) h)
        | inr t ↦ rw t (match_among-collect c k ns hs)
      ]

match_prefix-collect {ℓ} :
    {V : Type ℓ} (tree : PrefixTree V) (key : Bytes)
    → IsValid tree
    → match_prefix key tree ≡ ok (collect (λ p. stored p tree) key)
unfolding match_prefix
match_prefix-collect tree [] h = refl
match_prefix-collect tree (c ∷ k) h = match_among-collect c k tree.root h

-- On a valid tree MatchPrefix and Lookup return without a panic, whatever the key, and MatchPrefix returns what Lookup
-- gives for the prefixes of the key, from the shortest on, each with what is behind it in the key.
pub match_prefix-lookup {ℓ} :
    {V : Type ℓ} (tree : PrefixTree V)
    → IsValid tree
    → (f : Bytes → Option V) × ((p : Bytes) → lookup p tree ≡ ok (f p))
      × ((key : Bytes) → match_prefix key tree ≡ ok (collect f key))
match_prefix-lookup tree h =
    (λ p. stored p tree, λ p. lookup-stored p tree h, λ key. match_prefix-collect tree key h)
