-- ===== src/PrefixTree/Insert.antt =====
-- The loop of `Insert` below a node.
use golly.Base.{
  ℕ, Bool, true, false, ◌||◌, inl, inr, Bool-cases, Option, none, some, ◌∷◌, ◌≡◌, refl, sym, ◌∙◌,
  arith, Bytes, ◌==◌, text_eq,
}
use golly.Base.Calls.{ok}
use golly.PrefixTree.Labels.{strip}
use golly.PrefixTree.Find.{head_of, begins, IsValidNode, IsValidNodes}
use golly.PrefixTree.{
  PrefixTreeNode, Nodes, node, nil, cons, Descent, first, behind, found_behind, insert_node,
  insert_among,
}
use golly.PrefixTree.Parts.{parts, exact, cut, onward}
use golly.PrefixTree.Growth.{
  goes_below, is_cut_node, is_cut, turn_node, whole_node, whole, Turns, whole-first, whole-behind,
  counted-first, counted-behind, Turns-first, Turns-behind, Grown, Among,
}
use golly.PrefixTree.Leaves.{head_read}
use golly.PrefixTree.Grows.{Result, exact_grows, cut_grows, onward_grows}

or_false : (a b : Bool) → a ≡ false → b ≡ false → (a || b) ≡ false
or_false a b p q = ground arith

pub is_cut_here {ℓ} :
    {V : Type ℓ} (c : ℕ) (key : Bytes) (n : PrefixTreeNode V) (ns : Nodes V)
    → (head_of n == c) ≡ true
    → is_cut c key (cons n ns) ≡ is_cut_node key n
is_cut_here c key n ns t = rw t refl

module _ {ℓ} {V : Type ℓ} where
  pub Among-first :
      (c : ℕ) (k : Bytes) (v : Option V) (n : PrefixTreeNode V) (ns : Nodes V)
      (d : Descent (PrefixTreeNode V))
      → (head_of n == c) ≡ true
      → begins (head_of n) ns ≡ false
      → IsValidNodes ns
      → Grown (c ∷ k) v n (turn_node c (c ∷ k) n) d
      → Among c k v (cons n ns) (some (first ns d))
  unfolding Among IsValidNode text_eq
  Among-first c k v n ns d t a hs g =
      let e : whole v (first ns d) ≡ cons (whole_node v d) ns = whole-first ns v d in
      (
        record {
          valid = rw e (g.valid, rw g.heads a, hs);
          heads = λ b p q. rw (e, g.heads) p;
          finds = λ b r.
              rw (e, g.heads)
                (elim (Bool-cases (head_of n == b)) [
                  | inl u ↦ rw u (g.finds (b ∷ r))
                  | inr u ↦ let q : (b == c) ≡ false = ground arith in rw (u, q) refl
                ]);
        },
        counted-first ns d ∙ g.counts ∙ rw t refl,
        Turns-first ns d _ (rw t g.turns),
      )

  pub Among-behind :
      (c : ℕ) (k : Bytes) (v : Option V) (n : PrefixTreeNode V) (ns : Nodes V)
      (o : Option (Descent (Nodes V)))
      → (head_of n == c) ≡ false
      → IsValidNode n
      → begins (head_of n) ns ≡ false
      → Among c k v ns o
      → Among c k v (cons n ns) (found_behind n o)
  unfolding Among IsValidNode text_eq
  Among-behind c k v n ns none t h a (b, f, u) = (rw t b, rw t f, rw t u)
  Among-behind c k v n ns (some d) t h a (g, count, u) =
      let e : whole v (behind n d) ≡ cons n (whole v d) = whole-behind n v d in
      (
        record {
          valid = rw e (h, g.heads (head_of n) a t, g.valid);
          heads = λ b p q. rw e (or_false _ _ (ground arith) (g.heads b (ground arith) q));
          finds = λ b r. rw e (elim (Bool-cases (head_of n == b)) [
            | inl u ↦ let q : (b == c) ≡ false = ground arith in rw (u, q) refl
            | inr u ↦ rw u (g.finds b r)
          ]);
        },
        counted-behind n d ∙ count ∙ rw t refl,
        Turns-behind n d _ (rw t u),
      )

  insert_among_first :
      (c : ℕ) (k : Bytes) (v : Option V) (n : PrefixTreeNode V) (ns : Nodes V)
      (d : Descent (PrefixTreeNode V))
      → IsValidNode n
      → (head_of n == c) ≡ true
      → insert_node c (c ∷ k) v n ≡ ok d
      → insert_among c (c ∷ k) v (cons n ns) ≡ ok (some (first ns d))
  unfolding insert_node
  insert_among_first c k v n ns d h t runs = rw (head_read n h, t, runs) refl

  mutual
    unfolding insert_node Turns Result IsValidNode Among

    pub insert_node-Grown :
        (c : ℕ) (k : Bytes) (v : Option V) (n : PrefixTreeNode V)
        → IsValidNode n
        → (head_of n == c) ≡ true
        → is_cut_node (c ∷ k) n ≡ false
        → Result c k v n
    insert_node-Grown c k v (node label nodes value) h b i = elim (parts (c ∷ k) label) [
      | exact x y z ↦ exact_grows c k v value label nodes h x y z
      | cut s l' key' d x p q r u w z a ↦
          cut_grows c k v value label nodes h b i s l' key' d x p q r u w z a
      | onward c' k' x r w z ↦
          let i' : is_cut c' (c' ∷ k') nodes ≡ false =
            (let j : goes_below (strip label (c ∷ k)) (λ c k. is_cut c k nodes) ≡ false =
                ground arith in
              rw z at j) in
          let (o, runs, among) = insert_among-Among c' k' v nodes h.1 i' in
          onward_grows c k v value label nodes h c' k' x r w z o runs among
    ]

    insert_among-Among :
        (c : ℕ) (k : Bytes) (v : Option V) (ns : Nodes V)
        → IsValidNodes ns
        → is_cut c (c ∷ k) ns ≡ false
        → (o : Option (Descent (Nodes V))) × (insert_among c (c ∷ k) v ns ≡ ok o) × Among c k v ns o
    insert_among-Among c k v nil h i = (none, refl, (refl, refl, refl))
    insert_among-Among c k v (cons n ns) (h, a, hs) i = elim (Bool-cases (head_of n == c)) [
      | inl t ↦
          let (d, runs, g) =
            insert_node-Grown c k v n h t (sym (is_cut_here c (c ∷ k) n ns t) ∙ i) in
          (
            some (first ns d),
            insert_among_first c k v n ns d h t runs,
            Among-first c k v n ns d t a hs g,
          )
      | inr t ↦
          let (o, runs, among) = insert_among-Among c k v ns hs (rw t at i) in
          (
            found_behind n o,
            rw (head_read n h, t, runs) refl,
            Among-behind c k v n ns o t h a among,
          )
    ]
