-- ===== src/PrefixTree/Leaves.antt =====
-- A leaf behind the nodes that are there, and parts of a label.
use golly.Base.{
  ℕ, true, false, inl, inr, Bool-cases, Option, none, some, [], ◌∷◌, ◌++◌, ◌≡◌, refl, ◌∙◌, arith,
  Bytes, if◌then◌else◌, ◌==◌, ==_iff, text_eq,
}
use golly.Base.Calls.{ok, read_at, read_at-get_or, Fuel}
use golly.PrefixTree.Labels.{strip}
use golly.PrefixTree.Find.{head_of, begins, find_among, IsValidNode, IsValidNodes}
use golly.PrefixTree.{PrefixTreeNode, Nodes, node, nil, cons, label_of, append_at}
use golly.PrefixTree.Parts.{==_sym, leaf_finds}

pub strip-append : (s r : Bytes) → strip s (s ++ r) ≡ some r
strip-append [] r = refl
strip-append (c ∷ s) r = let t : (c == c) ≡ true = ground arith in rw t (strip-append s r)

pub strip_apart :
    (s l' k' : Bytes) (d b : ℕ) → (b == d) ≡ false → strip (s ++ d ∷ l') (s ++ b ∷ k') ≡ none
strip_apart [] l' k' d b a = rw a refl
strip_apart (c ∷ s) l' k' d b a =
    let t : (c == c) ≡ true = ground arith in rw t (strip_apart s l' k' d b a)

pub text_eq_nil : (c : ℕ) (k : Bytes) → text_eq [] (c ∷ k) ≡ false
unfolding text_eq
text_eq_nil c k = refl

pub begins_apart {ℓ} :
    {V : Type ℓ} (b c : ℕ) (ns : Nodes V)
    → begins c ns ≡ false
    → begins b ns ≡ true
    → (b == c) ≡ false
begins_apart b c ns h p = elim (Bool-cases (b == c)) [
  | inr t ↦ t
  | inl t ↦ let e : b ≡ c = (==_iff b c).0 t in absurd (cc (h, p, e))
]

module _ {ℓ} {V : Type ℓ} where
  pub append_begins :
      (c : ℕ) (k : Bytes) (v : Option V) (b : ℕ) (ns : Nodes V)
      → begins b ns ≡ false
      → (c == b) ≡ false
      → begins b (append_at [] (node (c ∷ k) nil v) ns) ≡ false
  unfolding append_at
  append_begins c k v b nil h a = rw a refl
  append_begins c k v b (cons n ns) h a =
      let t : (head_of n == b) ≡ false = ground arith in
      rw t (append_begins c k v b ns (ground arith) a)

  -- A leaf behind nodes that do not begin with its first byte.
  pub append-Valid :
      (c : ℕ) (k : Bytes) (v : Option V) (ns : Nodes V)
      → IsValidNodes ns
      → begins c ns ≡ false
      → IsValidNodes (append_at [] (node (c ∷ k) nil v) ns)
  unfolding append_at IsValidNode
  append-Valid c k v nil h a = ((omega arith, tt), refl, tt)
  append-Valid c k v (cons n ns) (h, b, hs) a = (
    h,
    append_begins c k v (head_of n) ns b (ground arith),
    append-Valid c k v ns hs (ground arith),
  )

  pub append_finds :
      (c : ℕ) (k : Bytes) (v : Option V) (ns : Nodes V)
      → begins c ns ≡ false
      → (b : ℕ) (r : Bytes)
      → find_among b (b ∷ r) (append_at [] (node (c ∷ k) nil v) ns)
        ≡ (if text_eq (b ∷ r) (c ∷ k) then v else find_among b (b ∷ r) ns)
  unfolding append_at text_eq
  append_finds c k v nil a b r = elim (Bool-cases (c == b)) [
    | inl t ↦ let t' : (b == c) ≡ true = ==_sym b c ∙ t in rw (t, t') (leaf_finds k r v)
    | inr t ↦ let t' : (b == c) ≡ false = ==_sym b c ∙ t in rw (t, t') refl
  ]
  append_finds c k v (cons n ns) a b r = elim (Bool-cases (head_of n == b)) [
    | inl t ↦ let t' : (b == c) ≡ false = ground arith in rw (t, t') refl
    | inr t ↦ rw t (append_finds c k v ns (ground arith) b r)
  ]

  pub absent_finds :
      (c : ℕ) (key : Bytes) (ns : Nodes V) → begins c ns ≡ false → find_among c key ns ≡ none
  absent_finds c key nil a = refl
  absent_finds c key (cons n ns) a =
      let t : (head_of n == c) ≡ false = ground arith in rw t (absent_finds c key ns (ground arith))

  pub head_read :
      (n : PrefixTreeNode V) → IsValidNode n → read_at {E = Fuel} (label_of n) 0 ≡ ok (head_of n)
  unfolding IsValidNode
  head_read (node label nodes value) h = read_at-get_or {E = Fuel} label 0 0 h.0
