-- ===== src/PrefixTree/Parts.antt =====
-- How `Insert` takes a key and a label apart, and what the nodes that it makes store.
use golly.Base.{
  ℕ, suc, true, false, inl, inr, Bool-cases, Option, none, some, [], ◌∷◌, ◌++◌, ◌≡◌, refl, ap, ◌∙◌,
  arith, Bytes, if◌then◌else◌, ltb, ◌==◌, ==_iff, text_eq,
}
use golly.Base.Lists.{length, take, drop}
use golly.PrefixTree.Labels.{strip, meets, same, leaves, below}
use golly.PrefixTree.Find.{find_behind, find_node, find_among}
use golly.PrefixTree.{Nodes, node, nil, cons, common}

unfoldable pub Apart : ℕ → Bytes → Type 0
Apart d [] = Unit
Apart d (b ∷ key) = (b == d) ≡ false

-- The key is the label, or it is apart from the label behind a common part, or it goes on behind the label.
pub data Parts (key label : Bytes) : Type 0 where
  exact : text_eq key label ≡ true → key ≡ label → strip label key ≡ some [] → Parts key label
  cut :
      (s l' key' : Bytes) (d : ℕ)
      → text_eq key label ≡ false
      → label ≡ s ++ d ∷ l'
      → key ≡ s ++ key'
      → ltb (common key label) (length label) ≡ true
      → take (common key label) label ≡ s
      → drop (common key label) label ≡ d ∷ l'
      → drop (common key label) key ≡ key'
      → Apart d key'
      → Parts key label
  onward :
      (c : ℕ) (k : Bytes)
      → text_eq key label ≡ false
      → ltb (common key label) (length label) ≡ false
      → drop (common key label) key ≡ c ∷ k
      → strip label key ≡ some (c ∷ k)
      → Parts key label

equal_suc : (a b : ℕ) → ltb (suc a) (suc b) ≡ ltb a b
equal_suc a b = ground arith

pub parts : (key label : Bytes) → Parts key label
unfolding text_eq Apart
parts [] [] = exact refl refl refl
parts [] (d ∷ label) = cut [] label [] d refl refl refl (ground arith) refl refl refl tt
parts (b ∷ key) [] = onward b key refl (ground arith) refl refl
parts (b ∷ key) (d ∷ label) = elim (Bool-cases (b == d)) [
  | inr t ↦
      cut [] label (b ∷ key) d (rw t refl) refl refl (rw t (ground arith)) (rw t refl) (rw t refl)
        (rw t refl) t
  | inl t ↦
      let e : b ≡ d = (==_iff b d).0 t in
      let l = equal_suc (common key label) (length label) in
      elim (parts key label) [
        | exact x y z ↦ exact (rw (t, x) refl) (ap (λ r. b ∷ r) y ∙ ap (λ c. c ∷ label) e) (rw t z)
        | cut s l' key' d' x p q r u v w a ↦
            cut (d ∷ s) l' key' d' (rw (t, x) refl) (ap (λ r. d ∷ r) p)
              (ap (λ r. b ∷ r) q ∙ ap (λ c. c ∷ (s ++ key')) e) (rw t (l ∙ r))
              (rw t (ap (λ r. d ∷ r) u)) (rw t v) (rw t w) a
        | onward c k x r w z ↦ onward c k (rw (t, x) refl) (rw t (l ∙ r)) (rw t w) (rw t z)
      ]
]

pub ==_sym : (a b : ℕ) → (a == b) ≡ (b == a)
==_sym a b = ground arith

module _ {ℓ} {V : Type ℓ} where
  -- The value stored for the key, and nothing else is changed.
  abbrev pub Stores : Bytes → Option V → (Bytes → Option V) → (Bytes → Option V) → Type ℓ
  Stores key v f g = (k : Bytes) → g k ≡ (if text_eq k key then v else f k)

  pub leaf_finds :
      (label k : Bytes) (v : Option V)
      → find_behind (strip label k) v (λ c k. none) ≡ (if text_eq k label then v else none)
  leaf_finds label k v = elim (meets label k) [
    | same e s ↦ rw (e, s) refl
    | leaves e l s ↦ rw (e, s) refl
    | below c r e l d s ↦ rw (e, s) refl
  ]

  pub exact_finds :
      (label : Bytes) (nodes : Nodes V) (value v : Option V)
      → Stores label v
          (λ k. find_node k (node label nodes value))
          (λ k. find_node k (node label nodes v))
  exact_finds label nodes value v k = elim (meets label k) [
    | same e s ↦ rw (e, s) refl
    | leaves e l s ↦ rw (e, s) refl
    | below c r e l d s ↦ rw (e, s) refl
  ]

  -- The two nodes below a label that is cut.
  pub cut_finds :
      (s l' k' : Bytes) (d b : ℕ) (nodes : Nodes V) (value v : Option V)
      → (b == d) ≡ false
      → Stores
          (s ++ b ∷ k')
          v
          (λ k. find_node k (node (s ++ d ∷ l') nodes value))
          (λ k.
            find_node k
              (node s (cons (node (d ∷ l') nodes value) (cons (node (b ∷ k') nil v) nil)) none))
  unfolding text_eq
  cut_finds [] l' k' d b nodes value v a [] = refl
  cut_finds [] l' k' d b nodes value v a (c ∷ r) = elim (Bool-cases (d == c)) [
    | inl t ↦
        let t' : (c == d) ≡ true = ==_sym c d ∙ t in
        let u : (c == b) ≡ false = ground arith in rw (t, t', u) refl
    | inr t ↦
        let t' : (c == d) ≡ false = ==_sym c d ∙ t in
        elim (Bool-cases (b == c)) [
          | inl u ↦
              let u' : (c == b) ≡ true = ==_sym c b ∙ u in rw (t, t', u, u') (leaf_finds k' r v)
          | inr u ↦ let u' : (c == b) ≡ false = ==_sym c b ∙ u in rw (t, t', u, u') refl
        ]
  ]
  cut_finds (x ∷ s) l' k' d b nodes value v a [] = refl
  cut_finds (x ∷ s) l' k' d b nodes value v a (c ∷ r) = elim (Bool-cases (c == x)) [
    | inl t ↦ rw t (cut_finds s l' k' d b nodes value v a r)
    | inr t ↦ rw t refl
  ]

  -- What is stored below a node.
  pub onward_finds :
      (label key : Bytes) (c : ℕ) (k' : Bytes) (nodes nodes' : Nodes V) (value v : Option V)
      → strip label key ≡ some (c ∷ k')
      → ((b : ℕ) (r : Bytes)
          → find_among b (b ∷ r) nodes'
            ≡ (if text_eq (b ∷ r) (c ∷ k') then v else find_among b (b ∷ r) nodes))
      → Stores key v
          (λ k. find_node k (node label nodes value))
          (λ k. find_node k (node label nodes' value))
  unfolding text_eq
  onward_finds [] key c k' nodes nodes' value v s law [] = let e : key ≡ c ∷ k' = cc s in rw e refl
  onward_finds [] key c k' nodes nodes' value v s law (b ∷ r) =
      let e : key ≡ c ∷ k' = cc s in rw e (law b r)
  onward_finds (d ∷ label) [] c k' nodes nodes' value v s law k = absurd (cc s)
  onward_finds (d ∷ label) (b ∷ key) c k' nodes nodes' value v s law [] = refl
  onward_finds (d ∷ label) (b ∷ key) c k' nodes nodes' value v s law (x ∷ r) =
      elim (Bool-cases (b == d)) [
        | inr t ↦ let q : ◌≡◌ {A = Option Bytes} none (some (c ∷ k')) = rw t at s in absurd (cc q)
        | inl t ↦
            let e : b ≡ d = (==_iff b d).0 t in
            let s' : strip label key ≡ some (c ∷ k') = rw t at s in
            elim (Bool-cases (x == d)) [
              | inl u ↦
                  let u' : (x == b) ≡ true = ap (λ m. x == m) e ∙ u in
                  rw (u, u') (onward_finds label key c k' nodes nodes' value v s' law r)
              | inr u ↦ let u' : (x == b) ≡ false = ap (λ m. x == m) e ∙ u in rw (u, u') refl
            ]
      ]
