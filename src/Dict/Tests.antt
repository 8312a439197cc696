-- ===== src/Dict/Tests.antt =====
-- The theorems on small dictionaries, with a hash function that puts keys of one length in one slot.
use golly.Base.{
  ℕ, none, some, [], ◌∷◌, codes, ◌≡◌, refl, Bytes, text_eq, length, if◌then◌else◌, ok, err,
  out_of_fuel,
}
use golly.Base.Int.{pos, ◌+ℤ◌, ◌-ℤ◌}
use golly.Dict.{
  Node, Dict, find_node, set_node, is_new, delete_behind, get, set, delete, keys_from, keys,
  fill_from, fill_count, new_dict,
}
use golly.Dict.Lookup.{get-set}
use golly.Dict.Size.{IsValid, mem, is_some, new_dict-IsValid, set-IsValid, empty}
use golly.Dict.Keys.{mem-keys}
use golly.Dict.Delete.{delete_hangs, delete_loses, Deletes, delete-Deletes}

abbrev by_length : ℕ → ℕ → Bytes → ℕ
by_length k0 k1 key = length key

abbrev node : Bytes → ℕ → Node ℕ
node k v = record { k = k; v = v }

abbrev seed : Bytes
seed = 0 ∷ 0 ∷ 0 ∷ 0 ∷ 0 ∷ 0 ∷ 0 ∷ 7 ∷ 0 ∷ 0 ∷ 0 ∷ 0 ∷ 0 ∷ 0 ∷ 0 ∷ 8 ∷ []

abbrev none_yet : Dict ℕ
none_yet = empty 7 8

abbrev one : Dict ℕ
one = set by_length none_yet (codes "a") 1

abbrev two : Dict ℕ
two = set by_length one (codes "b") 2

program : Unit {0}
unfolding find_node set_node is_new delete_behind get set delete keys_from keys fill_from fill_count
    new_dict text_eq ◌+ℤ◌ ◌-ℤ◌
program = tt

size_runs : (two.size ≡ pos 2) × (keys two ≡ codes "a" ∷ codes "b" ∷ []) × (fill_count two ≡ 1)
unfolding program
size_runs = (refl, refl, refl)

none_yet-IsValid : IsValid by_length none_yet × ((key : Bytes) → get by_length none_yet key ≡ none)
none_yet-IsValid = new_dict-IsValid by_length seed none_yet (unfold new_dict in refl)

one-IsValid : IsValid by_length one
one-IsValid = set-IsValid by_length none_yet (codes "a") 1 none_yet-IsValid.0

get-set_example :
    get by_length two (codes "a")
    ≡ (if text_eq (codes "b") (codes "a") then some 2 else get by_length one (codes "a"))
get-set_example = get-set by_length one (codes "b") (codes "a") 2

set-IsValid_example : IsValid by_length two
set-IsValid_example = set-IsValid by_length one (codes "b") 2 one-IsValid

mem-keys_example : mem (codes "a") (keys two) ≡ is_some (get by_length two (codes "a"))
mem-keys_example = mem-keys by_length two set-IsValid_example (codes "a")

delete_hangs_example : delete by_length 1000 two (codes "c") ≡ err out_of_fuel
delete_hangs_example =
    delete_hangs by_length two (codes "c") (node (codes "a") 1) (node (codes "b") 2) [] 1000
      (unfold program in refl) (unfold text_eq in refl) (unfold text_eq in refl)

delete_loses_example :
    (d : Dict ℕ) × (delete by_length 1 two (codes "a") ≡ ok d)
    × (get by_length d (codes "b") ≡ none)
    × (d.size ≡ two.size -ℤ pos 1)
delete_loses_example =
    delete_loses by_length two (codes "a") (codes "b") (node (codes "a") 1)
      (node (codes "b") 2 ∷ []) 1 (unfold program in refl) (unfold text_eq in refl)
      (unfold program in refl)

delete-Deletes_example :
    (d : Dict ℕ) × (delete by_length 1 two (codes "b") ≡ ok d) × Deletes by_length two (codes "b") d
delete-Deletes_example =
    delete-Deletes by_length two (codes "b") 0 set-IsValid_example (unfold program in (refl, refl))
