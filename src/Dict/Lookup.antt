-- ===== src/Dict/Lookup.antt =====
-- `Get` after `Set`.
use golly.Base.{
  ℕ, inl, inr, Option, some, [], ◌∷◌, ◌≡◌, refl, sym, ap, ◌∙◌, arith, Bytes, text_eq, text_eq_iff,
  ◌==◌, ==_iff, if◌then◌else◌, Bool-cases,
}
use golly.Base.Int.{ℤ}
use golly.Dict.{put_slot, Chain, Dict, find_node, set_node, slot, get, set}

module _ {ℓ} {V : Type ℓ} where
  pub find_node-set_node :
      (key q : Bytes) (value : V) (c : Chain V)
      → find_node q (set_node key value c) ≡ (if text_eq key q then some value else find_node q c)
  unfolding find_node set_node
  find_node-set_node key q value [] = refl
  find_node-set_node key q value (node ∷ c) = ground (
    arith,
    text_eq_iff node.k key,
    text_eq_iff node.k q,
    text_eq_iff key q,
    find_node-set_node key q value c,
  )

  -- A new chain in the slot of a key, which differs from the old one in that key alone.
  pub get-put_slot :
      (hash : ℕ → ℕ → Bytes → ℕ) (d : Dict V) (key q : Bytes) (r : Option V) (c : Chain V)
      (size : ℤ)
      → ((q : Bytes)
          → find_node q c ≡ (if text_eq key q then r else find_node q (d.slots (slot hash d key))))
      → get hash (record (put_slot d (slot hash d key) c) { size = size }) q
        ≡ (if text_eq key q then r else get hash d q)
  unfolding get
  get-put_slot hash d key q r c size change = elim (Bool-cases (text_eq key q)) [
    | inl e ↦
        let same : slot hash d q ≡ slot hash d key =
          ap (slot hash d) (sym ((text_eq_iff key q).0 e)) in
        ground (arith, change q, same)
    | inr e ↦ elim (Bool-cases (slot hash d q == slot hash d key)) [
      | inl h ↦
          let same = (==_iff (slot hash d q) (slot hash d key)).0 h in
          let chains : d.slots (slot hash d q) ≡ d.slots (slot hash d key) = ap d.slots same in
          rw (h, chains, e) (change q ∙ rw e)
      | inr h ↦ rw (h, e)
    ]
  ]

  -- `Get` returns what `Set` stored last under the key, and any other key as before, whatever the
  -- hash function does.
  pub get-set :
      (hash : ℕ → ℕ → Bytes → ℕ) (d : Dict V) (key q : Bytes) (value : V)
      → get hash (set hash d key value) q ≡ (if text_eq key q then some value else get hash d q)
  unfolding set
  get-set hash d key q value =
      get-put_slot hash d key q (some value) _ _
        (λ q. find_node-set_node key q value (d.slots (slot hash d key)))
