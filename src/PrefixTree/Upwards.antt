-- ===== src/PrefixTree/Upwards.antt =====
-- The loop upwards of `Delete`, among the nodes below one.
use golly.Base.{
  ℕ, suc, ◌+◌, Bool, true, false, inl, inr, Bool-cases, ◌∷◌, ◌≡◌, refl, sym, ap, ◌∙◌, arith, Bytes,
  ◌==◌, ==_iff, text_eq,
}
use mathlib.Core.Path.{subst}
use golly.PrefixTree.Find.{head_of, begins, find_node, IsValidNode, IsValidNodes}
use golly.PrefixTree.{PrefixTreeNode, Nodes, nil, cons, value_of, count_nodes, is_nil}
use golly.PrefixTree.Removal.{Removal, untouched, cleared, go_up, up, beside}
use golly.PrefixTree.Leaves.{absent_finds}
use golly.PrefixTree.Thinning.{Thinned, Thins, RemovedNode, Removed, no_nodes}

module _ {ℓ} {V : Type ℓ} where
  -- The node on the way stays.
  kept :
      (before c : ℕ) (k : Bytes) (n n' : PrefixTreeNode V) (ns : Nodes V) (goes goes' : Bool)
      → (head_of n == c) ≡ true
      → begins (head_of n) ns ≡ false
      → IsValidNodes ns
      → Thinned (c ∷ k) n n' goes
      → (goes' ≡ true → (goes ≡ true) × (before ≡ 0) × (ns ≡ nil))
      → Thins before c k (cons n ns) (cons n' ns) goes'
  unfolding IsValidNode text_eq
  kept before c k n n' ns goes goes' t a hs g last = record {
    valid = (g.valid, rw g.heads a, hs);
    heads = λ b p. rw g.heads p;
    finds = λ b r. rw g.heads (elim (Bool-cases (head_of n == b)) [
      | inl u ↦ rw u (g.finds (b ∷ r))
      | inr u ↦ let q : (b == c) ≡ false = ground arith in rw (u, q) refl
    ]);
    alone = λ e. (last e).1;
    empty = λ e b r.
        (let q = (last e).2 in
          rw (g.heads, q)
            (elim (Bool-cases (head_of n == b)) [
              | inl u ↦ rw u (g.empty (last e).0 (b ∷ r))
              | inr u ↦ rw u refl
            ]));
  }

  -- The node on the way is taken out.
  gone :
      (before c : ℕ) (k : Bytes) (n n' : PrefixTreeNode V) (ns : Nodes V) (goes : Bool)
      → (head_of n == c) ≡ true
      → begins (head_of n) ns ≡ false
      → IsValidNodes ns
      → Thinned (c ∷ k) n n' true
      → (goes ≡ true → (before ≡ 0) × (ns ≡ nil))
      → Thins before c k (cons n ns) ns goes
  unfolding IsValidNode text_eq
  gone before c k n n' ns goes t a hs g last = record {
    valid = hs;
    heads = λ b p. ground arith;
    finds = λ b r. elim (Bool-cases (head_of n == b)) [
      | inl u ↦
          let e : head_of n ≡ b = (==_iff _ _).0 u in
          rw u (
            absent_finds b (b ∷ r) ns (ap (λ m. begins m ns) (sym e) ∙ a)
            ∙ sym (g.empty refl (b ∷ r))
            ∙ g.finds (b ∷ r))
      | inr u ↦ let q : (b == c) ≡ false = ground arith in rw (u, q) refl
    ];
    alone = λ e. (last e).0;
    empty = λ e b r. (let q = (last e).1 in rw q refl);
  }

  last_one :
      (whole before : ℕ) (ns : Nodes V)
      → before + suc (count_nodes ns) ≡ whole
      → (whole == 1) ≡ true
      → (before ≡ 0) × (ns ≡ nil)
  last_one whole before ns w e =
      let q : whole ≡ 1 = (==_iff whole 1).0 e in
      (omega arith, no_nodes ns ((==_iff _ _).1 (omega arith)))

  bare_up :
      (root : Bool) (whole before c : ℕ) (k : Bytes) (n n' : PrefixTreeNode V) (ns : Nodes V)
      → before + suc (count_nodes ns) ≡ whole
      → (head_of n == c) ≡ true
      → begins (head_of n) ns ≡ false
      → IsValidNodes ns
      → Thinned (c ∷ k) n n' true
      → is_nil (find_node (c ∷ k) n) ≡ false
      → is_nil (value_of n') ≡ true
      → Removed before c k (cons n ns) (go_up root whole n' ns)
  unfolding Removed
  bare_up root whole before c k n n' ns w t a hs g s b = elim (Bool-cases (whole == 1)) [
    | inr f ↦ rw (b, f) (gone before c k n n' ns false t a hs g (λ e. absurd (cc e)), rw t s)
    | inl f ↦
        let (z, q) = last_one whole before ns w f in
        elim root as (λ root. Removed before c k (cons n ns) (go_up root whole n' ns)) [
          | true ↦
              rw (b, f)
                (
                  subst (λ ms. Thins before c k (cons n ns) ms true) q
                      (gone before c k n n' ns true t a hs g (λ e. (z, q))),
                  rw t s,
                )
          | false ↦
              rw (b, f) (kept before c k n n' ns true true t a hs g (λ e. (refl, z, q)), rw t s)
        ]
  ]

  pub up-Removed :
      (root : Bool) (whole before c : ℕ) (k : Bytes) (n : PrefixTreeNode V) (ns : Nodes V)
      (r : Removal (PrefixTreeNode V))
      → before + suc (count_nodes ns) ≡ whole
      → (head_of n == c) ≡ true
      → begins (head_of n) ns ≡ false
      → IsValidNodes ns
      → RemovedNode (c ∷ k) n r
      → Removed before c k (cons n ns) (up root whole ns r)
  unfolding RemovedNode Removed
  up-Removed root whole before c k n ns untouched w t a hs h = rw t h
  up-Removed root whole before c k n ns (cleared n' false) w t a hs (g, s) =
      (kept before c k n n' ns false false t a hs g (λ e. absurd (cc e)), rw t s)
  up-Removed root whole before c k n ns (cleared n' true) w t a hs (g, s) =
      bare_up root whole before c k n n' ns w t a hs g s (g.bare refl)

  pub beside-Removed :
      (before c : ℕ) (k : Bytes) (n : PrefixTreeNode V) (ns : Nodes V) (r : Removal (Nodes V))
      → (head_of n == c) ≡ false
      → IsValidNode n
      → begins (head_of n) ns ≡ false
      → Removed (before + 1) c k ns r
      → Removed before c k (cons n ns) (beside n r)
  unfolding Removed IsValidNode text_eq
  beside-Removed before c k n ns untouched t h a f = rw t f
  beside-Removed before c k n ns (cleared ns' goes) t h a (g, s) = (
    record {
      valid = (h, g.heads (head_of n) a, g.valid);
      heads = λ b p.
          (let q = g.heads b (ground arith) in
            rw q (let u : (head_of n == b) ≡ false = ground arith in rw u refl));
      finds = λ b r. elim (Bool-cases (head_of n == b)) [
        | inl u ↦ let q : (b == c) ≡ false = ground arith in rw (u, q) refl
        | inr u ↦ rw u (g.finds b r)
      ];
      alone = λ e. absurd (omega (arith, g.alone e));
      empty = λ e. absurd (omega (arith, g.alone e));
    },
    rw t s,
  )
