-- ===== src/Dict.antt =====
-- structure/dict.go: a hash table of 4096 slots with a linked chain in each.
--
-- SipHash and its use of the keys `k0` and `k1` is a parameter. A chain is the list of its nodes
-- from the slot on, since no node is in two chains. The array is a function of the slot, which is
-- below 4096 wherever the code takes one. `size` is an `int64`; its wrap-around is left out, as no
-- memory holds 2 ^ 63 nodes.
pub mod Lookup
pub mod Size
pub mod Keys
pub mod Delete
mod Tests
use golly.Base.{
  ℕ, zero, suc, ◌+◌, ◌*◌, ◌%◌, Bool, true, false, Option, none, some, List, [], ◌∷◌, ◌++◌, map,
  Bytes, text_eq, ◌==◌, if◌then◌else◌, ok, err, ◌>>=◌, Run, out_of_fuel,
}
use golly.Base.Lists.{take, drop}
use golly.Base.Int.{ℤ, pos, ◌+ℤ◌, ◌-ℤ◌}

abbrev pub dict_size : ℕ
dict_size = 4096

-- `binary.BigEndian.Uint64` of eight bytes.
abbrev pub big_endian : Bytes → ℕ → ℕ
big_endian [] n = n
big_endian (b ∷ bs) n = big_endian bs (n * 256 + b)

pub record Node {ℓ} (V : Type ℓ) : Type ℓ where
  pub k : Bytes
  pub v : V

abbrev pub Chain {ℓ} : Type ℓ → Type ℓ
Chain V = List (Node V)

pub record Dict {ℓ} (V : Type ℓ) : Type ℓ where
  pub slots : ℕ → Chain V
  pub k0 : ℕ
  pub k1 : ℕ
  pub size : ℤ

module _ {ℓ} {V : Type ℓ} where
  -- `d.data[p] = c`
  abbrev pub put_slot : Dict V → ℕ → Chain V → Dict V
  put_slot d p c = record d { slots = λ i. if i == p then c else d.slots i }

  -- The loop of `Get`.
  unfoldable pub find_node : Bytes → Chain V → Option V
  find_node key [] = none
  find_node key (node ∷ c) = if text_eq node.k key then some node.v else find_node key c

  -- The loop of `Set`: the value of the node with the key is overwritten, or a node is appended.
  unfoldable pub set_node : Bytes → V → Chain V → Chain V
  set_node key value [] = record { k = key; v = value } ∷ []
  set_node key value (node ∷ c) =
      if text_eq node.k key then record node { v = value } ∷ c else node ∷ set_node key value c

  -- Whether `Set` reaches one of the two places where it appends a node and adds one to the size.
  unfoldable pub is_new : Bytes → Chain V → Bool
  is_new key [] = true
  is_new key (node ∷ c) = if text_eq node.k key then false else is_new key c

  -- The loop of `Delete` behind the first node: `next` is read from `node` again in each round, so
  -- it is the same node again. The chain given is what stands behind `node`; `none` means that
  -- nothing was found.
  unfoldable pub delete_behind : ℕ → Bytes → Chain V → Run (Option (Chain V))
  delete_behind zero key c = err out_of_fuel
  delete_behind (suc fuel) key [] = ok none
  delete_behind (suc fuel) key (next ∷ c) = elim (text_eq next.k key) [
    | true ↦ ok (some c)
    | false ↦ delete_behind fuel key (next ∷ c)
  ]

  -- `FillCount` from slot `i` on, for `n` slots.
  unfoldable pub fill_from : Dict V → ℕ → ℕ → ℕ
  fill_from d i zero = 0
  fill_from d i (suc n) = elim (d.slots i) [ [] ↦ 0 | _ ∷ _ ↦ 1 ] + fill_from d (i + 1) n

  unfoldable pub fill_count : Dict V → ℕ
  fill_count d = fill_from d 0 dict_size

  -- `Keys` from slot `i` on, for `n` slots.
  unfoldable pub keys_from : Dict V → ℕ → ℕ → List Bytes
  keys_from d i zero = []
  keys_from d i (suc n) = map (λ (node : Node V). node.k) (d.slots i) ++ keys_from d (i + 1) n

  unfoldable pub keys : Dict V → List Bytes
  keys d = keys_from d 0 dict_size

  -- `NewDict`, given what the random source returned: nothing on an error, or 16 bytes.
  unfoldable pub new_dict : Option Bytes → Option (Dict V)
  new_dict none = none
  new_dict (some k) = some (record {
    slots = λ _. [];
    k0 = big_endian (take 8 k) 0;
    k1 = big_endian (take 8 (drop 8 k)) 0;
    size = pos 0;
  })

  module _ (hash : ℕ → ℕ → Bytes → ℕ) where
    abbrev pub slot : Dict V → Bytes → ℕ
    slot d key = hash d.k0 d.k1 key % dict_size

    unfoldable pub get : Dict V → Bytes → Option V
    get d key = find_node key (d.slots (slot d key))

    unfoldable pub set : Dict V → Bytes → V → Dict V
    set d key value =
        let c = d.slots (slot d key) in
        record (put_slot d (slot d key) (set_node key value c)) {
          size = if is_new key c then d.size +ℤ pos 1 else d.size;
        }

    unfoldable pub delete : ℕ → Dict V → Bytes → Run (Dict V)
    unfolding delete_behind
    delete fuel d key = elim (d.slots (slot d key)) [
      | [] ↦ ok d
      | node ∷ c ↦ elim (text_eq node.k key) [
        | true ↦ ok (record (put_slot d (slot d key) []) { size = d.size -ℤ pos 1 })
        | false ↦ (do
          found ← delete_behind fuel key c
          elim found [
            | none ↦ ok d
            | some rest ↦
                ok (record (put_slot d (slot d key) (node ∷ rest)) { size = d.size -ℤ pos 1 })
          ])
      ]
    ]
