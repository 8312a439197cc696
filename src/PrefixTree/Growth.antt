-- ===== src/PrefixTree/Growth.antt =====
-- What `Insert` should make of a tree: the key and the byte that the loop is left with, and the
-- nodes once the leaf for the key is there.
use golly.Base.{
  ℕ, Bool, true, false, ◌||◌, Option, none, some, List, [], ◌∷◌, ◌≡◌, refl, Bytes, if◌then◌else◌,
  ◌==◌, text_eq,
}
use golly.PrefixTree.Labels.{strip}
use golly.PrefixTree.Find.{head_of, begins, find_node, find_among, IsValidNode, IsValidNodes}
use golly.PrefixTree.{
  PrefixTreeNode, Nodes, node, nil, cons, is_nil, append_at, Descent, returned, left, under, first,
  behind,
}
use golly.PrefixTree.Parts.{Stores}

-- Whether the key ends inside a label, so that the label is cut and nothing is left of the key.
abbrev pub ends_inside : Option Bytes → Bool
ends_inside (some (d ∷ r)) = true
ends_inside (some []) = false
ends_inside none = false

abbrev pub goes_below : Option Bytes → (ℕ → Bytes → Bool) → Bool
goes_below (some (c ∷ k)) f = f c (c ∷ k)
goes_below (some []) f = false
goes_below none f = false

abbrev mutual
  pub is_cut_node {ℓ} : {V : Type ℓ} → Bytes → PrefixTreeNode V → Bool
  is_cut_node key (node label nodes value) =
      ends_inside (strip key label) || goes_below (strip label key) (λ c k. is_cut c k nodes)

  pub is_cut {ℓ} : {V : Type ℓ} → ℕ → Bytes → Nodes V → Bool
  is_cut char key nil = false
  is_cut char key (cons n ns) = if head_of n == char then is_cut_node key n else is_cut char key ns

-- The byte with which the loop at a node is left.
abbrev pub turn_below : Option Bytes → ℕ → (ℕ → Bytes → ℕ) → ℕ
turn_below (some (c ∷ k)) char f = f c (c ∷ k)
turn_below (some []) char f = char
turn_below none char f = char

abbrev mutual
  pub turn_node {ℓ} : {V : Type ℓ} → ℕ → Bytes → PrefixTreeNode V → ℕ
  turn_node char key (node label nodes value) =
      turn_below (strip label key) char (λ c k. turn c k nodes)

  pub turn {ℓ} : {V : Type ℓ} → ℕ → Bytes → Nodes V → ℕ
  turn char key nil = char
  turn char key (cons n ns) = if head_of n == char then turn_node char key n else turn char key ns

module _ {ℓ} {V : Type ℓ} where
  abbrev pub append_in : List ℕ → PrefixTreeNode V → PrefixTreeNode V → PrefixTreeNode V
  append_in at n (node label nodes value) = node label (append_at at n nodes) value

  -- The node, or the nodes, when the leaf for the rest of the key is there.
  abbrev pub whole_node : Option V → Descent (PrefixTreeNode V) → PrefixTreeNode V
  whole_node v (returned n new) = n
  whole_node v (left n at key char) = append_in at (node key nil v) n

  abbrev pub whole : Option V → Descent (Nodes V) → Nodes V
  whole v (returned ns new) = ns
  whole v (left ns at key char) = append_at at (node key nil v) ns

abbrev pub counted {ℓ} : {T : Type ℓ} → Descent T → Bool
counted (returned t new) = new
counted (left t at key char) = true

unfoldable pub Turns {ℓ} : {T : Type ℓ} → Descent T → ℕ → Type 0
Turns (returned t new) c = Unit
Turns (left t at key char) c = char ≡ c

module _ {ℓ} {V : Type ℓ} where
  pub whole-under :
      (label : Bytes) (value v : Option V) (d : Descent (Nodes V))
      → whole_node v (under label value d) ≡ node label (whole v d) value
  whole-under label value v (returned ns new) = refl
  whole-under label value v (left ns at key char) = refl

  pub whole-first :
      (ns : Nodes V) (v : Option V) (d : Descent (PrefixTreeNode V))
      → whole v (first ns d) ≡ cons (whole_node v d) ns
  unfolding append_at
  whole-first ns v (returned n new) = refl
  whole-first ns v (left (node label nodes value) at key char) = refl

  pub whole-behind :
      (n : PrefixTreeNode V) (v : Option V) (d : Descent (Nodes V))
      → whole v (behind n d) ≡ cons n (whole v d)
  unfolding append_at
  whole-behind n v (returned ns new) = refl
  whole-behind n v (left ns [] key char) = refl
  whole-behind n v (left ns (i ∷ at) key char) = refl

  pub counted-under :
      (label : Bytes) (value : Option V) (d : Descent (Nodes V))
      → counted (under label value d) ≡ counted d
  counted-under label value (returned ns new) = refl
  counted-under label value (left ns at key char) = refl

  pub counted-first :
      (ns : Nodes V) (d : Descent (PrefixTreeNode V)) → counted (first ns d) ≡ counted d
  counted-first ns (returned n new) = refl
  counted-first ns (left n at key char) = refl

  pub counted-behind :
      (n : PrefixTreeNode V) (d : Descent (Nodes V)) → counted (behind n d) ≡ counted d
  counted-behind n (returned ns new) = refl
  counted-behind n (left ns [] key char) = refl
  counted-behind n (left ns (i ∷ at) key char) = refl

  pub Turns-under :
      (label : Bytes) (value : Option V) (d : Descent (Nodes V)) (t : ℕ)
      → Turns d t
      → Turns (under label value d) t
  unfolding Turns
  Turns-under label value (returned ns new) t h = tt
  Turns-under label value (left ns at key char) t h = h

  pub Turns-first :
      (ns : Nodes V) (d : Descent (PrefixTreeNode V)) (t : ℕ) → Turns d t → Turns (first ns d) t
  unfolding Turns
  Turns-first ns (returned n new) t h = tt
  Turns-first ns (left n at key char) t h = h

  pub Turns-behind :
      (n : PrefixTreeNode V) (d : Descent (Nodes V)) (t : ℕ) → Turns d t → Turns (behind n d) t
  unfolding Turns
  Turns-behind n (returned ns new) t h = tt
  Turns-behind n (left ns [] key char) t h = h
  Turns-behind n (left ns (i ∷ at) key char) t h = h

  -- What the loop makes of a node, and of the nodes below one.
  pub record Grown (key : Bytes) (v : Option V) (n : PrefixTreeNode V) (t : ℕ)
      (d : Descent (PrefixTreeNode V)) : Type ℓ where
    pub valid : IsValidNode (whole_node v d)
    pub heads : head_of (whole_node v d) ≡ head_of n
    pub finds : Stores key v (λ k. find_node k n) (λ k. find_node k (whole_node v d))
    pub counts : counted d ≡ is_nil (find_node key n)
    pub turns : Turns d t

  pub record Grows (c : ℕ) (k : Bytes) (v : Option V) (ns ns' : Nodes V) : Type ℓ where
    pub valid : IsValidNodes ns'
    pub heads : (b : ℕ) → begins b ns ≡ false → (b == c) ≡ false → begins b ns' ≡ false
    pub finds :
        (b : ℕ) (r : Bytes)
        → find_among b (b ∷ r) ns'
          ≡ (if text_eq (b ∷ r) (c ∷ k) then v else find_among b (b ∷ r) ns)

  -- The result of the search among nodes.
  unfoldable pub Among : ℕ → Bytes → Option V → Nodes V → Option (Descent (Nodes V)) → Type ℓ
  Among c k v ns none =
      (begins c ns ≡ false) × (find_among c (c ∷ k) ns ≡ none) × (turn c (c ∷ k) ns ≡ c)
  Among c k v ns (some d) =
      Grows c k v ns (whole v d)
      × (counted d ≡ is_nil (find_among c (c ∷ k) ns))
      × Turns d (turn c (c ∷ k) ns)
