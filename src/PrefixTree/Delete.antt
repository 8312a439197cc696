-- ===== src/PrefixTree/Delete.antt =====
-- `Delete` on a whole tree.
use golly.Base.{
  ℕ, ◌+◌, ◌-◌, Bool, true, false, not, ◌&&◌, ◌||◌, inl, inr, Bool-cases, Option, none, some, [],
  ◌∷◌, ◌≡◌, refl, sym, ap, ◌∙◌, arith, Bytes, if◌then◌else◌, ◌==◌, text_eq, text_eq_iff,
}
use mathlib.Core.Path.{subst}
use golly.Base.Calls.{ok}
use golly.Base.Lists.{length, drop}
use golly.PrefixTree.Labels.{strip, meets, same, leaves, below}
use golly.PrefixTree.Find.{head_of, IsValidNode, IsValidNodes, IsValid, stored, lookup-stored}
use golly.PrefixTree.{
  PrefixTree, PrefixTreeNode, Nodes, node, nil, cons, leaves_label, count_nodes, is_nil, lookup,
}
use golly.PrefixTree.Removal.{
  Removal, untouched, cleared, up, beside, delete_node, delete_among, delete,
}
use golly.PrefixTree.Leaves.{head_read}
use golly.PrefixTree.Inserts.{Stores-lookup}
use golly.PrefixTree.Thinning.{
  goes_on, strands_node, strands, Thinned, RemovedNode, Removed, exact_thins, above-Thins,
}
use golly.PrefixTree.Upwards.{up-Removed, beside-Removed}

module _ {ℓ} {V : Type ℓ} where
  NodeResult : Bytes → PrefixTreeNode V → Type ℓ
  NodeResult key n =
      (r : Removal (PrefixTreeNode V)) × (delete_node key n ≡ ok r) × RemovedNode key n r

  exact_result :
      (key label : Bytes) (nodes : Nodes V) (value : Option V)
      → IsValidNode (node label nodes value)
      → text_eq key label ≡ true
      → strip label key ≡ some []
      → NodeResult key (node label nodes value)
  unfolding delete_node RemovedNode NodeResult
  exact_result key label nodes none h e s = (untouched, rw e refl, rw s refl)
  exact_result key label nodes (some v) h e s =
      let q : key ≡ label = (text_eq_iff key label).0 e in
      (
        cleared (node label nodes none) (count_nodes nodes == 0),
        rw e refl,
        (
          subst
              (λ l.
                Thinned l (node label nodes (some v)) (node label nodes none)
                  (count_nodes nodes == 0))
              (sym q) (exact_thins label nodes v h),
          rw s refl,
        ),
      )

  below_result :
      (key label : Bytes) (nodes : Nodes V) (value : Option V) (c : ℕ) (k : Bytes)
      (r : Removal (Nodes V))
      → IsValidNode (node label nodes value)
      → text_eq key label ≡ false
      → leaves_label key label ≡ false
      → drop (length label) key ≡ c ∷ k
      → strip label key ≡ some (c ∷ k)
      → delete_among false (count_nodes nodes) c (c ∷ k) nodes ≡ ok r
      → (not (is_nil value) && goes_on (ok r)) ≡ false
      → Removed 0 c k nodes r
      → NodeResult key (node label nodes value)
  unfolding delete_node RemovedNode Removed NodeResult
  below_result key label nodes value c k untouched h e l d s runs q removed =
      (untouched, rw (e, l, d, runs) refl, rw s removed)
  below_result key label nodes value c k (cleared nodes' goes) h e l d s runs q (t, f) = (
    cleared (node label nodes' value) goes,
    rw (e, l, d, runs) refl,
    (above-Thins label key c k nodes nodes' value goes h s q t, rw s f),
  )

  delete_first :
      (root : Bool) (whole c : ℕ) (k : Bytes) (n : PrefixTreeNode V) (ns : Nodes V)
      (r : Removal (PrefixTreeNode V))
      → IsValidNode n
      → (head_of n == c) ≡ true
      → delete_node (c ∷ k) n ≡ ok r
      → delete_among root whole c (c ∷ k) (cons n ns) ≡ ok (up root whole ns r)
  unfolding delete_node
  delete_first root whole c k n ns r h t runs = rw (head_read n h, t, runs) refl

  strands_here :
      (c : ℕ) (key : Bytes) (n : PrefixTreeNode V) (ns : Nodes V)
      → (head_of n == c) ≡ true
      → strands c key (cons n ns) ≡ strands_node key n
  unfolding strands_node
  strands_here c key n ns t = rw t refl

  mutual
    unfolding delete_node RemovedNode Removed NodeResult IsValidNode strands_node

    delete_node-RemovedNode :
        (key : Bytes) (n : PrefixTreeNode V)
        → IsValidNode n
        → strands_node key n ≡ false
        → NodeResult key n
    delete_node-RemovedNode key (node label nodes value) h p = elim (meets label key) [
      | same e s ↦ exact_result key label nodes value h e s
      | leaves e l s ↦ (untouched, rw (e, l) refl, rw s refl)
      | below c k e l d s ↦
          let q : (strands c (c ∷ k) nodes
                || (not (is_nil value)
                    && goes_on (delete_among false (count_nodes nodes) c (c ∷ k) nodes)))
              ≡ false =
            rw s at p in
          let (r, runs, removed) =
            delete_among-Removed false (count_nodes nodes) 0 c k nodes (omega arith) h.1
              (ground arith) in
          let q' : (not (is_nil value) && goes_on (ok r)) ≡ false =
            ap (λ x. not (is_nil value) && goes_on x) (sym runs) ∙ ground arith in
          below_result key label nodes value c k r h e l d s runs q' removed
    ]

    delete_among-Removed :
        (root : Bool) (whole before c : ℕ) (k : Bytes) (ns : Nodes V)
        → before + count_nodes ns ≡ whole
        → IsValidNodes ns
        → strands c (c ∷ k) ns ≡ false
        → (r : Removal (Nodes V)) × (delete_among root whole c (c ∷ k) ns ≡ ok r)
          × Removed before c k ns r
    delete_among-Removed root whole before c k nil w h p = (untouched, refl, refl)
    delete_among-Removed root whole before c k (cons n ns) w (h, a, hs) p =
        elim (Bool-cases (head_of n == c)) [
          | inl t ↦
              let (r, runs, removed) =
                delete_node-RemovedNode (c ∷ k) n h (sym (strands_here c (c ∷ k) n ns t) ∙ p) in
              (
                up root whole ns r,
                delete_first root whole c k n ns r h t runs,
                up-Removed root whole before c k n ns r (omega arith) t a hs removed,
              )
          | inr t ↦
              let (r, runs, removed) =
                delete_among-Removed root whole (before + 1) c k ns (omega arith) hs (rw t at p) in
              (
                beside n r,
                rw (head_read n h, t, runs) refl,
                beside-Removed before c k n ns r t h a removed,
              )
        ]

  -- On a valid tree, and where the loop upwards of Delete passes no node above that has a value, Delete returns a
  -- valid tree, in which Lookup finds nothing for the key, and for every other key what it found before; and
  -- the size is counted down if and only if a value was found for the key.
  pub delete-lookup :
      (c : ℕ) (k : Bytes) (tree : PrefixTree V)
      → IsValid tree
      → strands c (c ∷ k) tree.root ≡ false
      → (tree' : PrefixTree V) × (delete (c ∷ k) tree ≡ ok tree')
        × IsValid tree'
        × ((key : Bytes)
            → lookup key tree' ≡ (if text_eq key (c ∷ k) then ok none else lookup key tree))
        × (tree'.size ≡ (if is_nil (stored (c ∷ k) tree) then tree.size else tree.size - 1))
  unfolding Removed delete
  delete-lookup c k tree h p =
      let (r, runs, removed) =
        delete_among-Removed true (count_nodes tree.root) 0 c k tree.root (omega arith) h p in
      by_removal r runs removed
    where
      by_removal :
          (r : Removal (Nodes V))
          → delete_among true (count_nodes tree.root) c (c ∷ k) tree.root ≡ ok r
          → Removed 0 c k tree.root r
          → (tree' : PrefixTree V) × (delete (c ∷ k) tree ≡ ok tree')
            × IsValid tree'
            × ((key : Bytes)
                → lookup key tree' ≡ (if text_eq key (c ∷ k) then ok none else lookup key tree))
            × (tree'.size ≡ (if is_nil (stored (c ∷ k) tree) then tree.size else tree.size - 1))
      by_removal untouched runs f = (tree, rw runs refl, h, same_lookup, rw f refl)
        where
          same_lookup :
              (key : Bytes)
              → lookup key tree ≡ (if text_eq key (c ∷ k) then ok none else lookup key tree)
          same_lookup key = elim (Bool-cases (text_eq key (c ∷ k))) [
            | inr t ↦ rw t refl
            | inl t ↦
                let e : key ≡ c ∷ k = (text_eq_iff key (c ∷ k)).0 t in
                rw t (ap (λ m. lookup m tree) e ∙ lookup-stored (c ∷ k) tree h ∙ ap ok f)
          ]
      by_removal (cleared root goes) runs (g, f) =
          let tree' : PrefixTree V = record { root = root; size = tree.size - 1 } in
          (
            tree',
            rw runs refl,
            g.valid,
            Stores-lookup c k none tree tree' h g.valid g.finds,
            rw f refl,
          )
