-- ===== src/PrefixTree/Grows.antt =====
-- The loop of `Insert` at one node, for each way in which the key meets the label.
use golly.Base.{
  append-nil, ℕ, true, false, ◌||◌, Option, none, some, [], ◌∷◌, ◌++◌, ◌≡◌, refl, sym, ap, ◌∙◌,
  arith, Bytes, ltb, ◌==◌, text_eq,
}
use mathlib.Core.Path.{subst}
use golly.Base.Calls.{ok}
use golly.Base.Lists.{length, take, drop, get_or}
use golly.PrefixTree.Labels.{strip}
use golly.PrefixTree.Find.{find_node, IsValidNode}
use golly.PrefixTree.{
  PrefixTreeNode, Nodes, node, nil, cons, is_nil, common, append_at, Descent, returned, left, under,
  insert_node, insert_among,
}
use golly.PrefixTree.Parts.{Apart, ==_sym, Stores, exact_finds, cut_finds, onward_finds}
use golly.PrefixTree.Growth.{
  is_cut_node, turn_node, Turns, whole-under, counted-under, Turns-under, Grown, Among,
}
use golly.PrefixTree.Leaves.{strip-append, strip_apart, append-Valid, append_finds}

begun : (d e : ℕ) → (e == d) ≡ false → (e == d || false) ≡ false
begun d e a = rw a refl

module _ {ℓ} {V : Type ℓ} where
  unfoldable pub Result : ℕ → Bytes → Option V → PrefixTreeNode V → Type ℓ
  Result c k v n =
      (d : Descent (PrefixTreeNode V)) × (insert_node c (c ∷ k) v n ≡ ok d)
      × Grown (c ∷ k) v n (turn_node c (c ∷ k) n) d

  pub exact_grows :
      (c : ℕ) (k : Bytes) (v value : Option V) (label : Bytes) (nodes : Nodes V)
      → IsValidNode (node label nodes value)
      → text_eq (c ∷ k) label ≡ true
      → c ∷ k ≡ label
      → strip label (c ∷ k) ≡ some []
      → Result c k v (node label nodes value)
  unfolding insert_node Turns Result IsValidNode
  exact_grows c k v value label nodes h x y z = (
    returned (node label nodes v) (is_nil value),
    rw x refl,
    record {
      valid = h;
      heads = refl;
      finds =
          subst
            (λ key.
              Stores key v (λ k. find_node k (node label nodes value))
                (λ k. find_node k (node label nodes v)))
            (sym y) (exact_finds label nodes value v);
      counts = rw z refl;
      turns = tt;
    },
  )

  pub cut_grows :
      (c : ℕ) (k : Bytes) (v value : Option V) (label : Bytes) (nodes : Nodes V)
      → IsValidNode (node label nodes value)
      → (get_or label 0 0 == c) ≡ true
      → is_cut_node (c ∷ k) (node label nodes value) ≡ false
      → (s l' key' : Bytes) (d : ℕ) → text_eq (c ∷ k) label ≡ false
      → label ≡ s ++ d ∷ l'
      → c ∷ k ≡ s ++ key'
      → ltb (common (c ∷ k) label) (length label) ≡ true
      → take (common (c ∷ k) label) label ≡ s
      → drop (common (c ∷ k) label) label ≡ d ∷ l'
      → drop (common (c ∷ k) label) (c ∷ k) ≡ key'
      → Apart d key'
      → Result c k v (node label nodes value)
  unfolding insert_node Turns Result IsValidNode Apart append_at
  cut_grows c k v value label nodes h b i s l' [] d x p q r u w z a =
      let e : c ∷ k ≡ s = q ∙ append-nil s in
      let f : strip (c ∷ k) label ≡ some (d ∷ l') =
        ap (λ m. strip m label) e ∙ ap (strip s) p ∙ strip-append s (d ∷ l') in
      absurd (cc (rw f at i))
  cut_grows c k v value label nodes h b i [] l' (e ∷ k') d x p q r u w z a =
      let t : (d == c) ≡ true = rw p at b in
      let f : c ≡ e = cc q in absurd (cc (ap (λ m. m == d) f, a, ==_sym c d, t))
  cut_grows c k v value label nodes h b i (y ∷ s) l' (e ∷ k') d x p q r u w z a =
      let n : strip label (c ∷ k) ≡ none =
        ap (λ l. strip l (c ∷ k)) p
        ∙ ap (strip ((y ∷ s) ++ d ∷ l')) q
        ∙ strip_apart (y ∷ s) l' k' d e a in
      let made : PrefixTreeNode V =
        node (y ∷ s) (cons (node (d ∷ l') nodes value) (cons (node (e ∷ k') nil v) nil)) none in
      (
        left (node (y ∷ s) (cons (node (d ∷ l') nodes value) nil) none) [] (e ∷ k') c,
        rw (x, r, u, w, z) refl,
        record {
          valid = (omega arith, ((omega arith, h.1), begun d e a, ((omega arith, tt), refl, tt)));
          heads = ap (λ l. get_or l 0 0) (sym p);
          finds =
              subst
                (λ l.
                  Stores (c ∷ k) v (λ k. find_node k (node l nodes value)) (λ k. find_node k made))
                (sym p)
                (subst
                  (λ key.
                    Stores key v (λ k. find_node k (node ((y ∷ s) ++ d ∷ l') nodes value))
                      (λ k. find_node k made))
                  (sym q) (cut_finds (y ∷ s) l' k' d e nodes value v a));
          counts = rw n refl;
          turns = rw n refl;
        },
      )

  pub onward_grows :
      (c : ℕ) (k : Bytes) (v value : Option V) (label : Bytes) (nodes : Nodes V)
      → IsValidNode (node label nodes value)
      → (c' : ℕ) (k' : Bytes) → text_eq (c ∷ k) label ≡ false
      → ltb (common (c ∷ k) label) (length label) ≡ false
      → drop (common (c ∷ k) label) (c ∷ k) ≡ c' ∷ k'
      → strip label (c ∷ k) ≡ some (c' ∷ k')
      → (o : Option (Descent (Nodes V))) → insert_among c' (c' ∷ k') v nodes ≡ ok o
      → Among c' k' v nodes o
      → Result c k v (node label nodes value)
  unfolding insert_node Turns Result IsValidNode Among
  onward_grows c k v value label nodes h c' k' x r w z none runs (a, f, t) = (
    left (node label nodes value) [] (c' ∷ k') c',
    rw (x, r, w, runs) refl,
    record {
      valid = (h.0, append-Valid c' k' v nodes h.1 a);
      heads = refl;
      finds = onward_finds label (c ∷ k) c' k' nodes _ value v z (append_finds c' k' v nodes a);
      counts = rw (z, f) refl;
      turns = rw (z, t) refl;
    },
  )
  onward_grows c k v value label nodes h c' k' x r w z (some d) runs (g, count, t) =
      let e = whole-under label value v d in
      (
        under label value d,
        rw (x, r, w, runs) refl,
        record {
          valid = rw e (h.0, g.valid);
          heads = rw e refl;
          finds = rw e (onward_finds label (c ∷ k) c' k' nodes _ value v z g.finds);
          counts = counted-under label value d ∙ rw z count;
          turns = Turns-under label value d _ (rw z t);
        },
      )
