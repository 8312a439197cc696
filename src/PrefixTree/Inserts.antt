-- ===== src/PrefixTree/Inserts.antt =====
-- `Insert` on a whole tree.
use golly.Base.{
  ℕ, suc, ◌+◌, Bool, true, false, not, ◌&&◌, inl, inr, Bool-cases, Option, none, some, List, [],
  ◌∷◌, ◌≡◌, refl, sym, ap, ◌∙◌, arith, Bytes, if◌then◌else◌, ◌==◌, text_eq,
}
use mathlib.Core.Path.{subst}
use golly.Base.Calls.{ok, read_at-get_or, Fuel}
use golly.Base.Lists.{get_or}
use golly.PrefixTree.Find.{
  head_of, begins, find_among, IsValidNode, IsValidNodes, IsValid, stored, lookup-stored,
}
use golly.PrefixTree.{
  PrefixTree, PrefixTreeNode, Nodes, node, nil, cons, is_nil, Descent, returned, left, first, moved,
  found_behind, insert_node, insert_from, insert, lookup,
}
use golly.PrefixTree.Growth.{is_cut, turn_node, whole, counted, Turns, Among}
use golly.PrefixTree.Leaves.{append-Valid, append_finds, head_read, text_eq_nil}
use golly.PrefixTree.Grows.{Result}
use golly.PrefixTree.Insert.{insert_node-Grown, Among-first, Among-behind, is_cut_here}

-- Whether a node of the root that stands behind the one on the way begins with the byte with which the loop is left there.
abbrev pub comes_back {ℓ} : {V : Type ℓ} → ℕ → Bytes → Nodes V → Bool
comes_back char key nil = false
comes_back char key (cons n ns) =
    if head_of n == char then begins (turn_node char key n) ns else comes_back char key ns

-- The key is not cut short, and the loop over the nodes of the root does not take up the rest of it.
abbrev pub fits {ℓ} : {V : Type ℓ} → Bytes → PrefixTree V → Bool
fits [] tree = true
fits (c ∷ k) tree = not (is_cut c (c ∷ k) tree.root) && not (comes_back c (c ∷ k) tree.root)

module _ {ℓ} {V : Type ℓ} where
  abbrev shift : ℕ → Descent (Nodes V) → Descent (Nodes V)
  shift i (returned ns new) = returned ns new
  shift i (left ns [] key char) = left ns [] key char
  shift i (left ns (j ∷ at) key char) = left ns ((i + j) ∷ at) key char

  abbrev settled : Nodes V → Bytes → ℕ → Option (Descent (Nodes V)) → Descent (Nodes V)
  settled ns key char none = left ns [] key char
  settled ns key char (some d) = d

  shift_zero : (d : Descent (Nodes V)) → shift 0 d ≡ d
  shift_zero (returned ns new) = refl
  shift_zero (left ns [] key char) = refl
  shift_zero (left ns (j ∷ at) key char) = let e : 0 + j ≡ j = omega arith in rw e refl

  moved_behind :
      (i c : ℕ) (key : Bytes) (n : PrefixTreeNode V) (ns : Nodes V) (o : Option (Descent (Nodes V)))
      → moved n (shift (i + 1) (settled ns key c o))
        ≡ shift i (settled (cons n ns) key c (found_behind n o))
  moved_behind i c key n ns none = refl
  moved_behind i c key n ns (some (returned ns' new)) = refl
  moved_behind i c key n ns (some (left ns' [] key' char)) = refl
  moved_behind i c key n ns (some (left ns' (j ∷ at) key' char)) =
      let e : i + 1 + j ≡ i + suc j = omega arith in rw e refl

  -- The nodes that do not begin with the byte are passed.
  pub passes :
      (ns : Nodes V) (i : ℕ) (at : List ℕ) (char : ℕ) (key : Bytes) (v : Option V)
      → IsValidNodes ns
      → begins char ns ≡ false
      → insert_from i at char key v ns ≡ ok (left ns at key char)
  unfolding insert_from IsValidNode
  passes nil i at char key v h b = refl
  passes (cons (node label nodes value) ns) i at char key v (h, a, hs) b =
      let r = read_at-get_or {E = Fuel} label 0 0 h.0 in
      let t : (get_or label 0 0 == char) ≡ false = ground arith in
      rw (r, t, passes ns (i + 1) at char key v hs (ground arith)) refl

  -- The round at the node of the root on the way.
  round_at :
      (c : ℕ) (k : Bytes) (v : Option V) (n : PrefixTreeNode V) (ns : Nodes V) (i : ℕ)
      (d : Descent (PrefixTreeNode V))
      → IsValidNode n
      → IsValidNodes ns
      → (head_of n == c) ≡ true
      → begins (turn_node c (c ∷ k) n) ns ≡ false
      → insert_node c (c ∷ k) v n ≡ ok d
      → Turns d (turn_node c (c ∷ k) n)
      → insert_from i [] c (c ∷ k) v (cons n ns) ≡ ok (shift i (first ns d))
  unfolding insert_from Turns
  round_at c k v n ns i (returned n' new) h hs t b runs u = rw (head_read n h, t, runs) refl
  round_at c k v n ns i (left n' at key char) h hs t b runs u =
      let b' : begins char ns ≡ false = subst (λ m. begins m ns ≡ false) (sym u) b in
      let z : i + 0 ≡ i = omega arith in
      rw (head_read n h, t, runs, passes ns (i + 1) (i ∷ at) char key v hs b', z) refl

  insert_from-Among :
      (c : ℕ) (k : Bytes) (v : Option V) (ns : Nodes V) (i : ℕ)
      → IsValidNodes ns
      → is_cut c (c ∷ k) ns ≡ false
      → comes_back c (c ∷ k) ns ≡ false
      → (o : Option (Descent (Nodes V))) × (insert_from i [] c (c ∷ k) v ns
          ≡ ok (shift i (settled ns (c ∷ k) c o)))
        × Among c k v ns o
  unfolding insert_from IsValidNode Among Result
  insert_from-Among c k v nil i h p q = (none, refl, (refl, refl, refl))
  insert_from-Among c k v (cons n ns) i (h, a, hs) p q = elim (Bool-cases (head_of n == c)) [
    | inl t ↦
        let (d, runs, g) = insert_node-Grown c k v n h t (sym (is_cut_here c (c ∷ k) n ns t) ∙ p) in
        (
          some (first ns d),
          round_at c k v n ns i d h hs t (rw t at q) runs g.turns,
          Among-first c k v n ns d t a hs g,
        )
    | inr t ↦
        let (o, runs, among) = insert_from-Among c k v ns (i + 1) hs (rw t at p) (rw t at q) in
        (
          found_behind n o,
          rw (head_read n h, t, runs) (ap ok (moved_behind i c (c ∷ k) n ns o)),
          Among-behind c k v n ns o t h a among,
        )
  ]

  insert-some :
      (c : ℕ) (k : Bytes) (v : Option V) (tree : PrefixTree V) (d : Descent (Nodes V))
      → insert_from 0 [] c (c ∷ k) v tree.root ≡ ok d
      → insert (c ∷ k) v tree
        ≡ ok (record { root = whole v d; size = if counted d then tree.size + 1 else tree.size })
  unfolding insert
  insert-some c k v tree (returned ns new) runs = rw runs refl
  insert-some c k v tree (left ns at key char) runs = rw runs refl

  Among-whole :
      (c : ℕ) (k : Bytes) (v : Option V) (ns : Nodes V) (o : Option (Descent (Nodes V)))
      → IsValidNodes ns
      → Among c k v ns o
      → IsValidNodes (whole v (settled ns (c ∷ k) c o))
        × ((b : ℕ) (r : Bytes)
            → find_among b (b ∷ r) (whole v (settled ns (c ∷ k) c o))
              ≡ (if text_eq (b ∷ r) (c ∷ k) then v else find_among b (b ∷ r) ns))
        × (counted (settled ns (c ∷ k) c o) ≡ is_nil (find_among c (c ∷ k) ns))
  unfolding Among
  Among-whole c k v ns none h (b, f, t) =
      (append-Valid c k v ns h b, append_finds c k v ns b, rw f refl)
  Among-whole c k v ns (some d) h (g, count, t) = (g.valid, g.finds, count)

  pub Stores-lookup :
      (c : ℕ) (k : Bytes) (v : Option V) (tree tree' : PrefixTree V)
      → IsValid tree
      → IsValid tree'
      → ((b : ℕ) (r : Bytes)
          → find_among b (b ∷ r) tree'.root
            ≡ (if text_eq (b ∷ r) (c ∷ k) then v else find_among b (b ∷ r) tree.root))
      → (key : Bytes) → lookup key tree' ≡ (if text_eq key (c ∷ k) then ok v else lookup key tree)
  Stores-lookup c k v tree tree' h h' finds [] =
      lookup-stored [] tree' h' ∙ sym (lookup-stored [] tree h) ∙ rw (text_eq_nil c k) refl
  Stores-lookup c k v tree tree' h h' finds (b ∷ r) =
      lookup-stored (b ∷ r) tree' h'
      ∙ ap ok (finds b r)
      ∙ elim (Bool-cases (text_eq (b ∷ r) (c ∷ k))) [
        | inl t ↦ rw t refl
        | inr t ↦ rw t (sym (lookup-stored (b ∷ r) tree h))
      ]

  -- On a valid tree, and where the key is not cut short inside a label and the loop over the nodes
  -- of the root does not take up the rest of it again, Insert of a key that is not empty returns a valid
  -- tree, in which Lookup finds the value for the key, and for every other key what it found before;
  -- and the size is counted up if and only if nothing was found for the key before.
  pub insert-lookup :
      (c : ℕ) (k : Bytes) (v : Option V) (tree : PrefixTree V)
      → IsValid tree
      → fits (c ∷ k) tree ≡ true
      → (tree' : PrefixTree V) × (insert (c ∷ k) v tree ≡ ok tree')
        × IsValid tree'
        × ((key : Bytes)
            → lookup key tree' ≡ (if text_eq key (c ∷ k) then ok v else lookup key tree))
        × (tree'.size ≡ (if is_nil (stored (c ∷ k) tree) then tree.size + 1 else tree.size))
  insert-lookup c k v tree h p =
      let (o, runs, among) = insert_from-Among c k v tree.root 0 h (ground arith) (ground arith) in
      let (valid, finds, count) = Among-whole c k v tree.root o h among in
      let d : Descent (Nodes V) = settled tree.root (c ∷ k) c o in
      let tree' : PrefixTree V = record {
        root = whole v d;
        size = if counted d then tree.size + 1 else tree.size;
      } in
      (
        tree',
        insert-some c k v tree d (runs ∙ ap ok (shift_zero d)),
        valid,
        Stores-lookup c k v tree tree' h valid finds,
        ap (λ b. if b then tree.size + 1 else tree.size) count,
      )
