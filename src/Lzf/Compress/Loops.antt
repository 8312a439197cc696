-- ===== src/Lzf/Compress/Loops.antt =====
-- The two loops of `Compress`.
use golly.Base.{
  ℕ, zero, suc, ◌+◌, ◌-◌, ◌≤◌, ◌<◌, ◌⊎◌, true, false, inl, inr, Bool-cases, Option, none, some, ◌≡◌,
  refl, arith, Bytes, IsBytes, ltb, ltb→lt, ltb→le, lt→ltb, le→ltb,
}
use golly.Base.Calls.{ok}
use golly.Base.Lists.{length}
use golly.Lzf.Compress.{Packer, goes_on, breaks, gives_nil, turn, pack, copy_rest}
use golly.Lzf.Compress.Steps.{Holds, Copied, copy_byte-Copied}
use golly.Lzf.Compress.Turns.{Fresh, After}
use golly.Lzf.Compress.Rounds.{turn-After}

-- Where the first loop is left.
unfoldable pub Packed : Bytes → Option Packer → Type 0
Packed input none = Unit
Packed input (some s) = Holds input s × length input ≤ s.iidx + 2

module _ (input : Bytes) (all_bytes : IsBytes input) where
  pub pack-Packed :
      (fuel : ℕ) (s : Packer)
      → Holds input s
      → Fresh s.table s.iidx
      → length input < s.iidx + fuel
      → (o : Option Packer) × (pack fuel input s ≡ ok o) × Packed input o
  unfolding pack Packed After
  pack-Packed zero s holds fresh enough = absurd (omega (arith, holds.within))
  pack-Packed (suc fuel) s holds fresh enough = elim (Bool-cases (ltb s.iidx (length input - 2))) [
    | inr t ↦ (some s, rw (pack, t) refl, (holds, omega (arith, ltb→le _ _ t)))
    | inl t ↦
        let (p, runs, after) =
          turn-After input all_bytes s holds fresh (omega (arith, ltb→lt _ _ t)) in
        elim p
            as (λ p.
              turn input s ≡ ok p
              → After input s.iidx p
              → (o : Option Packer) × (pack (suc fuel) input s ≡ ok o) × Packed input o) [
                | goes_on s' ↦ λ runs (holds', fresh', moved).
                    let (o, runs', packed) = pack-Packed fuel s' holds' fresh' (omega arith) in
                    (o, rw (pack, t, runs) runs', packed)
                | breaks s' ↦ λ runs after. (some s', rw (pack, t, runs) refl, after)
                | gives_nil ↦ λ runs after. (none, rw (pack, t, runs) refl, tt)
              ]
          runs after
  ]

  -- There is room for `m` bytes more.
  Roomy : ℕ → ℕ → ℕ → Type 0
  Roomy m oidx literal =
      (oidx + m + 1 ≤ length input + 4) ⊎ ((oidx + m ≤ length input + 4) × (literal + m < 32))

  Roomy-for_one :
      (m oidx literal : ℕ)
      → Roomy (suc m) oidx literal
      → (oidx + 2 ≤ length input + 4) ⊎ ((oidx + 1 ≤ length input + 4) × (literal + 1 < 32))
  unfolding Roomy
  Roomy-for_one m oidx literal (inl h) = inl (omega arith)
  Roomy-for_one m oidx literal (inr (h, k)) = inr (omega arith, omega arith)

  stays-Roomy :
      (m : ℕ) (s : Packer)
      → Roomy (suc m) s.oidx s.literal
      → m ≤ 1
      → (c : Copied input s) → Roomy m c.next.oidx c.next.literal
  unfolding Roomy
  stays-Roomy m s roomy few c = elim c.wrote [
    | inl (o, l) ↦ elim roomy [
      | inl h ↦ inl (omega arith)
      | inr (h, k) ↦ inr (omega arith, omega arith)
    ]
    | inr (o, l, f) ↦ inr (omega arith, omega arith)
  ]

  rest-Holds :
      (m fuel : ℕ) (s : Packer)
      → Holds input s
      → s.iidx + m ≡ length input
      → m ≤ 2
      → m < fuel
      → Roomy m s.oidx s.literal
      → (s' : Packer) × (copy_rest fuel input s ≡ ok s') × Holds input s' × s'.iidx ≡ length input
  unfolding copy_rest
  rest-Holds m zero s holds e few enough roomy = absurd (omega arith)
  rest-Holds zero (suc fuel) s holds e few enough roomy =
      let t : ltb s.iidx (length input) ≡ false = le→ltb _ _ (omega arith) in
      (s, rw (copy_rest, t) refl, holds, omega arith)
  rest-Holds (suc m) (suc fuel) s holds e few enough roomy =
      let t : ltb s.iidx (length input) ≡ true = lt→ltb _ _ (omega arith) in
      let c =
        copy_byte-Copied input all_bytes s holds (omega arith)
          (Roomy-for_one m s.oidx s.literal roomy) in
      let (s', runs, holds', end) =
        rest-Holds m fuel c.next c.holds (omega (arith, c.moved)) (omega arith) (omega arith)
          (stays-Roomy m s roomy (omega arith) c) in
      (s', rw (copy_rest, t, c.runs) runs, holds', end)

  pub copy_rest-Holds :
      (s : Packer)
      → Holds input s
      → length input ≤ s.iidx + 2
      → s.oidx ≤ length input + 1
      → (s' : Packer) × (copy_rest (length input + 1) input s ≡ ok s')
        × Holds input s'
        × s'.iidx ≡ length input
  unfolding Roomy
  copy_rest-Holds s holds h k =
      rest-Holds (length input - s.iidx) (length input + 1) s holds (omega (arith, holds.within))
        (omega arith) (omega arith) (inl (omega (arith, holds.within)))
