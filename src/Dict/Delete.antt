-- ===== src/Dict/Delete.antt =====
-- `Delete`: where it works, and where it does not.
use mathlib.Core.Path.{subst}
use golly.Base.{
  ℕ, zero, suc, ◌+◌, true, false, inl, inr, none, [], ◌∷◌, ◌≡◌, refl, ap, ◌∙◌, arith, Bytes,
  text_eq, text_eq_iff, ◌==◌, if◌then◌else◌, Bool-cases, length, ok, ◌>>=◌, err, out_of_fuel,
}
use golly.Base.Int.{pos, ◌-ℤ◌, pos_sub}
use golly.Dict.{
  Node, Chain, Dict, find_node, is_new, delete_behind, slot, get, delete, put_slot, keys,
}
use golly.Dict.Lookup.{get-put_slot}
use golly.Dict.Size.{IsDistinct, IsValid, length-keys}

module _ {ℓ} {V : Type ℓ} where
  delete_behind_stuck :
      (key : Bytes) (next : Node V) (c : Chain V)
      → text_eq next.k key ≡ false
      → (fuel : ℕ) → delete_behind fuel key (next ∷ c) ≡ err out_of_fuel
  unfolding delete_behind
  delete_behind_stuck key next c e zero = refl
  delete_behind_stuck key next c e (suc fuel) =
      rw (e, delete_behind) (delete_behind_stuck key next c e fuel)

  module _ (hash : ℕ → ℕ → Bytes → ℕ) where
    -- `Delete` does not return, however long it runs, if the slot of the key holds two nodes or more
    -- and neither of the first two has the key.
    pub delete_hangs :
        (d : Dict V) (key : Bytes) (a b : Node V) (c : Chain V) (fuel : ℕ)
        → d.slots (slot hash d key) ≡ a ∷ b ∷ c
        → text_eq a.k key ≡ false
        → text_eq b.k key ≡ false
        → delete hash fuel d key ≡ err out_of_fuel
    unfolding delete
    delete_hangs d key a b c fuel e h k = rw (e, delete, h, delete_behind_stuck key b c k fuel)

    -- `Delete` of a key whose node is the first one of its slot loses all the other nodes of the
    -- slot: no key that belongs there is found any more, while the size goes down by one.
    pub delete_loses :
        (d : Dict V) (key q : Bytes) (a : Node V) (c : Chain V) (fuel : ℕ)
        → d.slots (slot hash d key) ≡ a ∷ c
        → text_eq a.k key ≡ true
        → slot hash d q ≡ slot hash d key
        → (d' : Dict V) × (delete hash fuel d key ≡ ok d')
          × (get hash d' q ≡ none)
          × (d'.size ≡ d.size -ℤ pos 1)
    unfolding delete get
    delete_loses d key q a c fuel e h same = (
      record (put_slot d (slot hash d key) []) { size = d.size -ℤ pos 1 },
      rw (e, delete, h),
      (let t : (slot hash d q == slot hash d key) ≡ true = ground arith in
          unfold find_node in rw t),
      refl,
    )

  find_node-is_new : (key : Bytes) (c : Chain V) → is_new key c ≡ true → find_node key c ≡ none
  unfolding is_new find_node
  find_node-is_new key [] h = refl
  find_node-is_new key (node ∷ c) h = ground (arith, find_node-is_new key c)

  -- The chains on which `Delete` works: one node at most, or the key in the second node.
  abbrev pub Works : Bytes → Chain V → Type 0
  Works key [] = Unit
  Works key (a ∷ []) = Unit
  Works key (a ∷ b ∷ c) = (text_eq a.k key ≡ false) × (text_eq b.k key ≡ true)

  second :
      (key q : Bytes) (a b : Node V) (c : Chain V)
      → Works key (a ∷ b ∷ c)
      → IsDistinct (a ∷ b ∷ c)
      → find_node q (a ∷ c) ≡ (if text_eq key q then none else find_node q (a ∷ b ∷ c))
  unfolding find_node
  second key q a b c (h, k) (e, (f, d)) = ground (
    arith,
    text_eq_iff a.k key,
    text_eq_iff b.k key,
    text_eq_iff key q,
    text_eq_iff a.k q,
    text_eq_iff b.k q,
    find_node-is_new b.k c f,
  )

  module _ (hash : ℕ → ℕ → Bytes → ℕ) where
    -- What a delete should do: the key is gone, all others are found as before, and the size is the
    -- number of keys.
    pub record Deletes (d : Dict V) (key : Bytes) (d' : Dict V) : Type ℓ where
      pub reads : (q : Bytes) → get hash d' q ≡ (if text_eq key q then none else get hash d q)
      pub counted : d'.size ≡ pos (length (keys d'))

    absent : (d : Dict V) (key : Bytes) → IsValid hash d → get hash d key ≡ none → Deletes d key d
    absent d key valid e = record {
      reads = λ q. elim (Bool-cases (text_eq key q)) [
        | inl h ↦ rw h (rw (← (text_eq_iff key q).0 h) e)
        | inr h ↦ rw h
      ];
      counted = valid.counted;
    }

    shorter :
        (d : Dict V) (key : Bytes) (c : Chain V)
        → IsValid hash d
        → length (d.slots (slot hash d key)) ≡ length c + 1
        → ((q : Bytes)
            → find_node q c
              ≡ (if text_eq key q then none else find_node q (d.slots (slot hash d key))))
        → Deletes d key (record (put_slot d (slot hash d key) c) { size = d.size -ℤ pos 1 })
    shorter d key c valid one change = record {
      reads = λ q. get-put_slot hash d key q none c (d.size -ℤ pos 1) change;
      counted =
          let d' = record (put_slot d (slot hash d key) c) { size = d.size -ℤ pos 1 } in
          let n = length-keys d d' (slot hash d key) c (λ i. refl) (omega arith) in
          ap (λ z. z -ℤ pos 1) valid.counted
          ∙ pos_sub (length (keys d)) 1 (omega arith)
          ∙ ap pos (omega arith);
    }

    abbrev Returns : Dict V → Bytes → ℕ → Type ℓ
    Returns d key fuel = (d' : Dict V) × (delete hash (suc fuel) d key ≡ ok d') × Deletes d key d'

    delete_none :
        (d : Dict V) (key : Bytes) (fuel : ℕ)
        → IsValid hash d
        → d.slots (slot hash d key) ≡ []
        → Returns d key fuel
    unfolding delete
    delete_none d key fuel valid e =
        (d, rw (e, delete), absent d key valid (unfold get find_node in rw (e, find_node)))

    delete_one :
        (d : Dict V) (key : Bytes) (a : Node V) (fuel : ℕ)
        → IsValid hash d
        → d.slots (slot hash d key) ≡ a ∷ []
        → Returns d key fuel
    unfolding delete delete_behind find_node
    delete_one d key a fuel valid e = elim (Bool-cases (text_eq a.k key)) [
      | inl h ↦ (
        record (put_slot d (slot hash d key) []) { size = d.size -ℤ pos 1 },
        rw (e, delete, h),
        shorter d key [] valid (rw e refl)
            (λ q. rw e (ground (arith, text_eq_iff a.k key, text_eq_iff a.k q, text_eq_iff key q))),
      )
      | inr h ↦ (d, rw (e, delete, h), absent d key valid (unfold get in rw (e, find_node, h)))
    ]

    delete_second :
        (d : Dict V) (key : Bytes) (a b : Node V) (c : Chain V) (fuel : ℕ)
        → IsValid hash d
        → d.slots (slot hash d key) ≡ a ∷ b ∷ c
        → Works key (a ∷ b ∷ c)
        → Returns d key fuel
    unfolding delete delete_behind
    delete_second d key a b c fuel valid e works =
        let distinct : IsDistinct (a ∷ b ∷ c) =
          subst IsDistinct e (valid.distinct (slot hash d key)) in
        (
          record (put_slot d (slot hash d key) (a ∷ c)) { size = d.size -ℤ pos 1 },
          rw (e, delete, works.0, works.1, ◌>>=◌),
          shorter d key (a ∷ c) valid (rw e (omega arith))
              (λ q. rw e (second key q a b c works distinct)),
        )

    -- On a valid dictionary `Delete` returns after one round at most, and does what a delete should,
    -- if the slot of the key holds one node at most, or if the key is in its second node.
    pub delete-Deletes :
        (d : Dict V) (key : Bytes) (fuel : ℕ)
        → IsValid hash d
        → Works key (d.slots (slot hash d key))
        → (d' : Dict V) × (delete hash (suc fuel) d key ≡ ok d') × Deletes d key d'
    delete-Deletes d key fuel valid works = go (d.slots (slot hash d key)) refl works
      where
        go : (c : Chain V) → d.slots (slot hash d key) ≡ c → Works key c → Returns d key fuel
        go [] e w = delete_none d key fuel valid e
        go (a ∷ []) e w = delete_one d key a fuel valid e
        go (a ∷ b ∷ c) e w = delete_second d key a b c fuel valid e w
