-- ===== src/Dict/Keys.antt =====
-- `Keys` and `FillCount`.
use golly.Base.{
  ℕ, zero, suc, ◌+◌, ◌≤◌, ◌<◌, false, ◌||◌, ◌&&◌, inl, inr, none, List, [], ◌∷◌, ◌++◌, map, ◌≡◌,
  refl, ap, arith, Bytes, text_eq, text_eq_iff, ◌==◌, ==_iff, Bool-cases, length, length-append,
  length-map, All, leb, ltb,
}
use golly.Dict.{
  Node, Chain, Dict, find_node, slot, get, keys_from, keys, fill_from, fill_count, dict_size,
}
use golly.Dict.Size.{is_some, mem, IsValid}

mem-append : (key : Bytes) (xs ys : List Bytes) → mem key (xs ++ ys) ≡ (mem key xs || mem key ys)
unfolding mem
mem-append key [] ys = refl
mem-append key (x ∷ xs) ys = ground (arith, mem-append key xs ys)

module _ {ℓ} {V : Type ℓ} where
  mem-chain :
      (key : Bytes) (c : Chain V)
      → mem key (map (λ (node : Node V). node.k) c) ≡ is_some (find_node key c)
  unfolding mem find_node
  mem-chain key [] = refl
  mem-chain key (node ∷ c) = ground (arith, mem-chain key c)

  elsewhere :
      (at : Bytes → ℕ) (i : ℕ) (key : Bytes) (c : Chain V)
      → All (λ (node : Node V). at node.k ≡ i) c
      → (i == at key) ≡ false
      → find_node key c ≡ none
  unfolding find_node
  elsewhere at i key [] a h = refl
  elsewhere at i key (node ∷ c) (e, a) h = elim (Bool-cases (text_eq node.k key)) [
    | inl t ↦
        let same : at node.k ≡ at key = ap at ((text_eq_iff node.k key).0 t) in
        absurd (ground arith)
    | inr t ↦ rw t (elsewhere at i key c a h)
  ]

  module _ (hash : ℕ → ℕ → Bytes → ℕ) (d : Dict V) (valid : IsValid hash d) where
    mem-keys_from :
        (key : Bytes) (n i : ℕ)
        → mem key (keys_from d i n)
          ≡ (leb i (slot hash d key) && ltb (slot hash d key) (i + n) && is_some (get hash d key))
    unfolding keys_from
    mem-keys_from key zero i = unfold mem in ground arith
    mem-keys_from key (suc n) i =
        let c = d.slots i in
        let rest = mem-keys_from key n (i + 1) in
        rw
          (
            mem-append key (map (λ (node : Node V). node.k) c) (keys_from d (i + 1) n),
            mem-chain key c,
          )
          (elim (Bool-cases (i == slot hash d key)) [
            | inl e ↦
                let here = (==_iff i (slot hash d key)).0 e in
                let found : is_some (find_node key c) ≡ is_some (get hash d key) =
                  unfold get in ap (λ j. is_some (find_node key (d.slots j))) here in
                ground arith
            | inr e ↦
                let absent : is_some (find_node key c) ≡ false =
                  ap is_some (elsewhere (slot hash d) i key c (valid.placed i) e) in
                ground arith
          ])

    -- In a valid dictionary `Keys` returns exactly the keys under which `Get` finds a value.
    pub mem-keys : (key : Bytes) → mem key (keys d) ≡ is_some (get hash d key)
    unfolding keys
    mem-keys key = mem-keys_below dict_size refl
      where
        mem-keys_below :
            (n : ℕ) → n ≡ dict_size → mem key (keys_from d 0 n) ≡ is_some (get hash d key)
        mem-keys_below n e =
            let small : slot hash d key < n = omega arith in ground (arith, mem-keys_from key n 0)

  fill_from-le : (d : Dict V) (n i : ℕ) → fill_from d i n ≤ length (keys_from d i n)
  unfolding fill_from keys_from
  fill_from-le d zero i = omega arith
  fill_from-le d (suc n) i = ground (
    arith,
    fill_from-le d n (i + 1),
    length-append (map (λ (node : Node V). node.k) (d.slots i)) (keys_from d (i + 1) n),
    length-map (λ (node : Node V). node.k) (d.slots i),
  )

  -- `FillCount` is at most the number of keys.
  pub fill_count-le : (d : Dict V) → fill_count d ≤ length (keys d)
  unfolding fill_count keys
  fill_count-le d = fill_from-le d dict_size 0
