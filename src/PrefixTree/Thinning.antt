-- ===== src/PrefixTree/Thinning.antt =====
-- The loops of `Delete`.
use golly.Base.{
  ℕ, Bool, true, false, not, ◌&&◌, ◌||◌, Option, none, some, [], ◌∷◌, ◌≡◌, refl, sym, arith, Bytes,
  if◌then◌else◌, ◌==◌, ==_iff, text_eq,
}
use mathlib.Core.Path.{subst}
use golly.Base.Calls.{ok, Run}
use golly.PrefixTree.Labels.{strip, meets, same, leaves, below}
use golly.PrefixTree.Find.{
  head_of, begins, find_behind, find_node, find_among, IsValidNode, IsValidNodes,
}
use golly.PrefixTree.{PrefixTreeNode, Nodes, node, nil, cons, value_of, count_nodes, is_nil}
use golly.PrefixTree.Removal.{Removal, untouched, cleared, delete_node, delete_among}
use golly.PrefixTree.Parts.{Stores, exact_finds, onward_finds}

-- Whether the loop upwards goes on above what was returned.
abbrev pub goes_on {ℓ} : {T : Type ℓ} → Run (Removal T) → Bool
goes_on (ok (cleared t b)) = b
goes_on _ = false

abbrev pub at_strip : Option Bytes → (ℕ → Bytes → Bool) → Bool
at_strip (some (c ∷ k)) f = f c (c ∷ k)
at_strip (some []) f = false
at_strip none f = false

-- Whether the loop upwards passes a node above that has a value.
unfoldable mutual
  unfolding delete_node

  pub strands_node {ℓ} : {V : Type ℓ} → Bytes → PrefixTreeNode V → Bool
  strands_node key (node label nodes value) = at_strip (strip label key) (λ c k.
      strands c k nodes
      || (not (is_nil value) && goes_on (delete_among false (count_nodes nodes) c k nodes)))

  pub strands {ℓ} : {V : Type ℓ} → ℕ → Bytes → Nodes V → Bool
  strands char key nil = false
  strands char key (cons n ns) =
      if head_of n == char then strands_node key n else strands char key ns

module _ {ℓ} {V : Type ℓ} where
  -- What is left of a node, and of nodes that stand behind `before` others, where the key is removed.
  pub record Thinned (key : Bytes) (n n' : PrefixTreeNode V) (goes : Bool) : Type ℓ where
    pub valid : IsValidNode n'
    pub heads : head_of n' ≡ head_of n
    pub finds : Stores key none (λ k. find_node k n) (λ k. find_node k n')
    pub bare : goes ≡ true → is_nil (value_of n') ≡ true
    pub empty : goes ≡ true → (k : Bytes) → find_node k n' ≡ none

  pub record Thins (before c : ℕ) (k : Bytes) (ns ns' : Nodes V) (goes : Bool) : Type ℓ where
    pub valid : IsValidNodes ns'
    pub heads : (b : ℕ) → begins b ns ≡ false → begins b ns' ≡ false
    pub finds :
        (b : ℕ) (r : Bytes)
        → find_among b (b ∷ r) ns'
          ≡ (if text_eq (b ∷ r) (c ∷ k) then none else find_among b (b ∷ r) ns)
    pub alone : goes ≡ true → before ≡ 0
    pub empty : goes ≡ true → (b : ℕ) (r : Bytes) → find_among b (b ∷ r) ns' ≡ none

  unfoldable pub RemovedNode : Bytes → PrefixTreeNode V → Removal (PrefixTreeNode V) → Type ℓ
  RemovedNode key n untouched = find_node key n ≡ none
  RemovedNode key n (cleared n' goes) = Thinned key n n' goes × (is_nil (find_node key n) ≡ false)

  unfoldable pub Removed : ℕ → ℕ → Bytes → Nodes V → Removal (Nodes V) → Type ℓ
  Removed before c k ns untouched = find_among c (c ∷ k) ns ≡ none
  Removed before c k ns (cleared ns' goes) =
      Thins before c k ns ns' goes × (is_nil (find_among c (c ∷ k) ns) ≡ false)

  pub no_nodes : (ns : Nodes V) → (count_nodes ns == 0) ≡ true → ns ≡ nil
  no_nodes nil h = refl
  no_nodes (cons n ns) h = absurd (omega (arith, (==_iff _ _).0 h))

  nil_finds : (label k : Bytes) → find_behind {V = V} (strip label k) none (λ c r. none) ≡ none
  nil_finds label k = elim (meets label k) [
    | same e s ↦ rw s refl
    | leaves e l s ↦ rw s refl
    | below c r e l d s ↦ rw s refl
  ]

  -- The node of the key.
  pub exact_thins :
      (label : Bytes) (nodes : Nodes V) (v : V)
      → IsValidNode (node label nodes (some v))
      → Thinned label (node label nodes (some v)) (node label nodes none) (count_nodes nodes == 0)
  unfolding IsValidNode
  exact_thins label nodes v h = record {
    valid = h;
    heads = refl;
    finds = exact_finds label nodes (some v) none;
    bare = λ e. refl;
    empty = λ e k.
        (let q = no_nodes nodes e in
          subst (λ ns. find_node k (node label ns none) ≡ none) (sym q) (nil_finds label k));
  }

  -- A node without a value, where the nodes below it are empty.
  hollow :
      (label k : Bytes) (nodes : Nodes V)
      → ((b : ℕ) (r : Bytes) → find_among b (b ∷ r) nodes ≡ none)
      → find_node k (node label nodes none) ≡ none
  hollow label k nodes h = elim (meets label k) [
    | same e s ↦ rw s refl
    | leaves e l s ↦ rw s refl
    | below c r e l d s ↦ rw s (h c r)
  ]

  pub above-Thins :
      (label key : Bytes) (c : ℕ) (k : Bytes) (nodes nodes' : Nodes V) (value : Option V)
      (goes : Bool)
      → IsValidNode (node label nodes value)
      → strip label key ≡ some (c ∷ k)
      → (not (is_nil value) && goes) ≡ false
      → Thins 0 c k nodes nodes' goes
      → Thinned key (node label nodes value) (node label nodes' value) goes
  unfolding IsValidNode
  above-Thins label key c k nodes nodes' value goes h s q t = record {
    valid = (h.0, t.valid);
    heads = refl;
    finds = onward_finds label key c k nodes nodes' value none s t.finds;
    bare = λ e. ground arith;
    empty = λ e k.
        (let v = value_nil value (ground arith) in
          subst (λ x. find_node k (node label nodes' x) ≡ none) (sym v)
            (hollow label k nodes' (t.empty e)));
  }
    where
      value_nil : (x : Option V) → is_nil x ≡ true → x ≡ none
      value_nil none e = refl
      value_nil (some v) e = absurd (cc e)
