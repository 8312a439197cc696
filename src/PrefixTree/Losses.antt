-- ===== src/PrefixTree/Losses.antt =====
-- Keys that `Insert` loses, and values that `Delete` loses.
use golly.Base.{
  ℕ, suc, ◌+◌, true, false, Option, none, some, [], ◌∷◌, ◌++◌, ◌≡◌, refl, ap, arith, Bytes, ltb,
  lt→ltb, ◌==◌, text_eq, text_eq_iff,
}
use golly.Base.Calls.{ok, panic}
use golly.Base.Lists.{length, length-append, drop, take-append, drop-append}
use golly.PrefixTree.Labels.{meets, same, leaves, below}
use golly.PrefixTree.Find.{IsValidNode, IsValidNodes}
use golly.PrefixTree.Leaves.{strip-append}
use golly.PrefixTree.Inserts.{passes}
use golly.PrefixTree.{
  PrefixTree, Nodes, node, nil, cons, common, leaves_label, append_at, insert_node, insert_from,
  insert, lookup_node, lookup,
}

text_eq_same : (s : Bytes) → text_eq s s ≡ true
text_eq_same s = (text_eq_iff s s).1 refl

-- A key that goes on behind a label.
goes_behind :
    (label : Bytes) (c : ℕ) (k : Bytes)
    → (text_eq (label ++ c ∷ k) label ≡ false)
      × (leaves_label (label ++ c ∷ k) label ≡ false)
      × (drop (length label) (label ++ c ∷ k) ≡ c ∷ k)
goes_behind label c k = elim (meets label (label ++ c ∷ k)) [
  | same e s ↦ absurd (cc (s, strip-append label (c ∷ k)))
  | leaves e l s ↦ absurd (cc (s, strip-append label (c ∷ k)))
  | below c' k' e l d s ↦ (e, l, drop-append label (c ∷ k) (length label) refl)
]

-- A key that ends inside a label.
ends_within :
    (key : Bytes) (d : ℕ) (r : Bytes)
    → (text_eq key (key ++ d ∷ r) ≡ false) × (common key (key ++ d ∷ r) ≡ length key)
unfolding text_eq
ends_within [] d r = (refl, refl)
ends_within (c ∷ key) d r =
    let t : (c == c) ≡ true = ground arith in
    let (e, l) = ends_within key d r in (rw t e, rw t (ap suc l))

drop_all : (key : Bytes) → drop (length key) key ≡ []
drop_all [] = refl
drop_all (c ∷ key) = drop_all key

module _ {ℓ} {V : Type ℓ} (c : ℕ) (s : Bytes) (d : ℕ) (l' : Bytes) (nodes ns : Nodes V)
    (value v : Option V) where
  -- The nodes that `Insert` makes of a label that is cut behind the whole key.
  abbrev cut_root : Nodes V
  cut_root =
      cons (node (c ∷ s) (cons (node (d ∷ l') nodes value) (cons (node [] nil v) nil)) none) ns

  insert_cut :
      (size : ℕ)
      → IsValidNodes (cons (node (c ∷ (s ++ d ∷ l')) nodes value) ns)
      → insert
          (c ∷ s)
          v
          (record { root = cons (node (c ∷ (s ++ d ∷ l')) nodes value) ns; size = size })
        ≡ ok (record { root = cut_root; size = size + 1 })
  unfolding insert insert_from insert_node append_at IsValidNode text_eq
  insert_cut size (h, a, hs) =
      let t : (c == c) ≡ true = ground arith in
      let (e, l) = ends_within s d l' in
      let lt : ltb (suc (length s)) (suc (length (s ++ d ∷ l'))) ≡ true =
        lt→ltb _ _ (omega (arith, length-append s (d ∷ l'))) in
      rw
        (
          t,
          e,
          l,
          lt,
          take-append s (d ∷ l') (length s) refl,
          drop-append s (d ∷ l') (length s) refl,
          drop_all s,
          passes ns 1 (0 ∷ []) c [] v hs a,
        )
        refl

  lookup_cut : (size : ℕ) → lookup (c ∷ s) (record { root = cut_root; size = size }) ≡ ok none
  unfolding lookup lookup_node
  lookup_cut size = let t : (c == c) ≡ true = ground arith in rw (t, text_eq_same (c ∷ s)) refl

  lookup_panics :
      (size e : ℕ) (k : Bytes)
      → (e == d) ≡ false
      → lookup (c ∷ (s ++ e ∷ k)) (record { root = cut_root; size = size }) ≡ panic
  unfolding lookup lookup_node
  lookup_panics size e k f =
      let t : (c == c) ≡ true = ground arith in
      let f' : (d == e) ≡ false = ground arith in
      let (x, y, z) = goes_behind (c ∷ s) e k in rw (t, x, y, z, f') refl

  -- Insert of a key that ends inside the label of a node of the root counts the size up, but Lookup does not find the value; and
  -- Lookup of any key that goes on behind it with another byte than the label did panics afterwards.
  pub insert_loses :
      (size : ℕ)
      → IsValidNodes (cons (node (c ∷ (s ++ d ∷ l')) nodes value) ns)
      → (tree' : PrefixTree V) × (insert
            (c ∷ s)
            v
            (record { root = cons (node (c ∷ (s ++ d ∷ l')) nodes value) ns; size = size })
          ≡ ok tree')
        × (tree'.size ≡ size + 1)
        × (lookup (c ∷ s) tree' ≡ ok none)
        × ((e : ℕ) (k : Bytes) → (e == d) ≡ false → lookup (c ∷ (s ++ e ∷ k)) tree' ≡ panic)
  insert_loses size h = (
    record { root = cut_root; size = size + 1 },
    insert_cut size h,
    refl,
    lookup_cut (size + 1),
    lookup_panics (size + 1),
  )

module _ {ℓ} {V : Type ℓ} (a b d : ℕ) (r s t : Bytes) (x w : V) (size : ℕ) where
  -- A label without a value, a label with one below it, and a third below that.
  abbrev chain : PrefixTree V
  chain = record {
    root =
        cons
          (node (a ∷ r) (cons (node (b ∷ s) (cons (node (d ∷ t) nil (some w)) nil) (some x)) nil)
            none)
          nil;
    size = size;
  }
