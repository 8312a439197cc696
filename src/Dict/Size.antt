-- ===== src/Dict/Size.antt =====
-- What holds of every dictionary that `Set` builds, and what `Size` and `Keys` say of it.
use mathlib.Core.Path.{subst}
use golly.Base.Lists.{take, drop}
use golly.Base.{
  ℕ, zero, suc, ◌+◌, ◌<◌, Bool, true, false, ◌||◌, ◌&&◌, inl, inr, Option, none, some, List, [],
  ◌∷◌, map, ◌≡◌, refl, sym, ap, ◌∙◌, arith, Bytes, text_eq, text_eq_iff, ◌==◌, ==_iff,
  if◌then◌else◌, Bool-cases, length, length-append, length-map, All, leb, ltb,
}
use golly.Base.Int.{ℤ, pos, ◌+ℤ◌, pos_add}
use golly.Dict.{
  Node, Chain, Dict, find_node, set_node, is_new, slot, get, set, keys_from, keys, dict_size,
  new_dict, big_endian,
}

abbrev pub is_some {ℓ} : {A : Type ℓ} → Option A → Bool
is_some none = false
is_some (some a) = true

unfoldable pub mem : Bytes → List Bytes → Bool
mem key [] = false
mem key (k ∷ ks) = text_eq k key || mem key ks

counted_lem :
    (grows : Bool) (size : ℤ) (n n' : ℕ)
    → size ≡ pos n
    → n' ≡ n + (if grows then 1 else 0)
    → (if grows then size +ℤ pos 1 else size) ≡ pos n'
counted_lem true size n n' e h = rw (e, h, pos_add)
counted_lem false size n n' e h = e ∙ ap pos (omega arith)

module _ {ℓ} {V : Type ℓ} where
  -- No two nodes of a chain have the same key.
  abbrev pub IsDistinct : Chain V → Type 0
  IsDistinct [] = Unit
  IsDistinct (node ∷ c) = (is_new node.k c ≡ true) × IsDistinct c

  module _ (hash : ℕ → ℕ → Bytes → ℕ) where
    pub record IsValid (d : Dict V) : Type ℓ where
      pub placed : (i : ℕ) → All (λ (node : Node V). slot hash d node.k ≡ i) (d.slots i)
      pub distinct : (i : ℕ) → IsDistinct (d.slots i)
      pub counted : d.size ≡ pos (length (keys d))

  length-set_node :
      (key : Bytes) (value : V) (c : Chain V)
      → length (set_node key value c) ≡ length c + (if is_new key c then 1 else 0)
  unfolding set_node is_new
  length-set_node key value [] = omega arith
  length-set_node key value (node ∷ c) = ground (arith, length-set_node key value c)

  is_new-set_node :
      (q key : Bytes) (value : V) (c : Chain V)
      → is_new q (set_node key value c) ≡ (if text_eq key q then false else is_new q c)
  unfolding set_node is_new
  is_new-set_node q key value [] = ground arith
  is_new-set_node q key value (node ∷ c) = ground (
    arith,
    text_eq_iff node.k key,
    text_eq_iff node.k q,
    text_eq_iff key q,
    is_new-set_node q key value c,
  )

  set_node-IsDistinct :
      (key : Bytes) (value : V) (c : Chain V) → IsDistinct c → IsDistinct (set_node key value c)
  unfolding set_node is_new
  set_node-IsDistinct key value [] d = (refl, tt)
  set_node-IsDistinct key value (node ∷ c) (h, d) = elim (Bool-cases (text_eq node.k key)) [
    | inl e ↦ rw e (h, d)
    | inr e ↦ rw e (
      ground (
        arith,
        is_new-set_node node.k key value c,
        text_eq_iff node.k key,
        text_eq_iff key node.k,
      ),
      set_node-IsDistinct key value c d,
    )
  ]

  set_node-All :
      (P : Bytes → Type 0) (key : Bytes) (value : V) (c : Chain V)
      → P key
      → All (λ (node : Node V). P node.k) c
      → All (λ (node : Node V). P node.k) (set_node key value c)
  unfolding set_node
  set_node-All P key value [] p a = (p, tt)
  set_node-All P key value (node ∷ c) p (h, a) = elim (Bool-cases (text_eq node.k key)) [
    | inl e ↦ rw e (h, a)
    | inr e ↦ rw e (h, set_node-All P key value c p a)
  ]

  -- A change of one slot changes the keys by the difference of the two chains there.
  length-keys_from :
      (d d' : Dict V) (p : ℕ) (c : Chain V)
      → ((i : ℕ) → d'.slots i ≡ (if i == p then c else d.slots i))
      → (n i : ℕ)
      → length (keys_from d' i n) + (if leb i p && ltb p (i + n) then length (d.slots p) else 0)
        ≡ length (keys_from d i n) + (if leb i p && ltb p (i + n) then length c else 0)
  unfolding keys_from
  length-keys_from d d' p c h zero i = ground arith
  length-keys_from d d' p c h (suc n) i =
      let rest = length-keys_from d d' p c h n (i + 1) in
      let key_of = λ (node : Node V). node.k in
      let new = length-append (map key_of (d'.slots i)) (keys_from d' (i + 1) n) in
      let old = length-append (map key_of (d.slots i)) (keys_from d (i + 1) n) in
      let new_slot = length-map key_of (d'.slots i) in
      let old_slot = length-map key_of (d.slots i) in
      elim (Bool-cases (i == p)) [
        | inl e ↦
            let here = (==_iff i p).0 e in
            let a : length (d'.slots i) ≡ length c = ap length (h i ∙ rw e) in
            let b : length (d.slots i) ≡ length (d.slots p) = ap (λ j. length (d.slots j)) here in
            ground arith
        | inr e ↦
            let a : length (d'.slots i) ≡ length (d.slots i) = ap length (h i ∙ rw e) in
            ground arith
      ]

  length-keys_below :
      (d d' : Dict V) (p : ℕ) (c : Chain V)
      → ((i : ℕ) → d'.slots i ≡ (if i == p then c else d.slots i))
      → (n : ℕ) → p < n
      → length (keys_from d' 0 n) + length (d.slots p) ≡ length (keys_from d 0 n) + length c
  length-keys_below d d' p c h n small = ground (arith, length-keys_from d d' p c h n 0)

  pub length-keys :
      (d d' : Dict V) (p : ℕ) (c : Chain V)
      → ((i : ℕ) → d'.slots i ≡ (if i == p then c else d.slots i))
      → p < dict_size
      → length (keys d') + length (d.slots p) ≡ length (keys d) + length c
  unfolding keys
  length-keys d d' p c h small = length-keys_below d d' p c h dict_size small

  abbrev pub empty : ℕ → ℕ → Dict V
  empty k0 k1 = record { slots = λ _. []; k0 = k0; k1 = k1; size = pos 0 }

  keys_from-empty :
      (d : Dict V) → ((i : ℕ) → d.slots i ≡ []) → (n i : ℕ) → length (keys_from d i n) ≡ 0
  unfolding keys_from
  keys_from-empty d h zero i = refl
  keys_from-empty d h (suc n) i = rw (h i) (keys_from-empty d h n (i + 1))

  module _ (hash : ℕ → ℕ → Bytes → ℕ) where
    -- `NewDict` gives a valid dictionary that has no key.
    pub new_dict-IsValid :
        (k : Bytes) (d : Dict V)
        → new_dict (some k) ≡ some d
        → IsValid hash d × ((key : Bytes) → get hash d key ≡ none)
    unfolding new_dict
    new_dict-IsValid k d e =
        let k0 : ℕ = big_endian (take 8 k) 0 in
        let k1 : ℕ = big_endian (take 8 (drop 8 k)) 0 in
        let q : empty k0 k1 ≡ d = cc in
        subst (λ d. IsValid hash d × ((key : Bytes) → get hash d key ≡ none)) q
          (
            record {
              placed = λ i. tt;
              distinct = λ i. tt;
              counted =
                  unfold keys in
                  ap pos (sym (keys_from-empty (empty k0 k1) (λ _. refl) dict_size 0));
            },
            λ key. unfold get find_node in refl,
          )

    -- `Set` keeps a dictionary valid: each node stands in the slot of its key, no key is stored
    -- twice, and the size is the number of keys that `Keys` returns.
    pub set-IsValid :
        (d : Dict V) (key : Bytes) (value : V)
        → IsValid hash d
        → IsValid hash (set hash d key value)
    unfolding set
    set-IsValid d key value valid = record {
      placed = λ i. elim (Bool-cases (i == slot hash d key)) [
        | inl e ↦ rw e (
            set_node-All (λ k. slot hash d k ≡ i) key value _
              (sym ((==_iff i (slot hash d key)).0 e))
              (subst (λ j. All (λ (node : Node V). slot hash d node.k ≡ i) (d.slots j))
                ((==_iff i (slot hash d key)).0 e) (valid.placed i)))
        | inr e ↦ rw e (valid.placed i)
      ];
      distinct = λ i. elim (Bool-cases (i == slot hash d key)) [
        | inl e ↦ rw e (set_node-IsDistinct key value _ (valid.distinct (slot hash d key)))
        | inr e ↦ rw e (valid.distinct i)
      ];
      counted =
          let p = slot hash d key in
          let c = d.slots p in
          let grown =
            length-keys d (set hash d key value) p (set_node key value c) (λ i. refl)
              (omega arith) in
          let one = length-set_node key value c in
          counted_lem (is_new key c) d.size (length (keys d)) _ valid.counted (omega arith);
    }
