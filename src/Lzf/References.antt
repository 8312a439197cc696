-- ===== src/Lzf/References.antt =====
-- A back reference as the loop of `Decompress` reads it, and as the format has it.
use golly.Base.{
  ℕ, ◌+◌, ◌/◌, ◌≤◌, ◌<◌, true, false, Option, none, some, inl, inr, Bool-cases, [], ◌∷◌, ◌++◌,
  append_assoc, ◌≡◌, refl, sym, ap, ◌∙◌, arith, Bytes, IsBytes, leb, ◌==◌, ==_iff, ◌⊎◌, le→leb,
  lt→leb,
}
use mathlib.Core.Path.{subst}
use golly.Base.Calls.{ok, Fuel, read_at, read_at-append}
use golly.Base.Lists.{length, length-append}
use golly.Lzf.{read_length}
use golly.Lzf.Format.{high_part, read_reference}

-- Where the reference with the control byte `c` behind `pre` is read: its low byte, and the index
-- of that byte.
pub record Reads (c : ℕ) (pre rest : Bytes) (n d : ℕ) (rest' : Bytes) : Type 0 where
  pub low : ℕ
  pub index : ℕ
  pub before : Bytes
  pub reads : read_length c (pre ++ c ∷ rest) (length pre + 1) ≡ ok (some (n, index))
  pub low_read : read_at {E = Fuel} (pre ++ c ∷ rest) index ≡ ok low
  pub behind : index + 1 ≡ length before
  pub splits : before ++ rest' ≡ pre ++ c ∷ rest
  pub is_byte : low < 256
  pub are_bytes : IsBytes rest'
  pub distance : d ≡ high_part c + low
  pub shorter : length rest' < length rest
  pub is_short : n < c + 256

-- A byte behind two parts of the input.
read_behind :
    (pre run : Bytes) (b : ℕ) (rest : Bytes) (i : ℕ)
    → i ≡ length pre + length run
    → read_at {E = Fuel} (pre ++ (run ++ b ∷ rest)) i ≡ ok b
read_behind pre run b rest i h =
    rw (← append_assoc pre run (b ∷ rest))
      (read_at-append (pre ++ run) b rest i (omega (arith, length-append pre run)))

pub within :
    (pre rest : Bytes) (c n : ℕ)
    → n ≤ length rest
    → 0 < n
    → leb (length (pre ++ c ∷ rest)) (length pre + n) ≡ false
within pre rest c n h p = lt→leb _ _ (omega (arith, length-append pre (c ∷ rest)))

short-Reads :
    (c : ℕ) (pre : Bytes) (b : ℕ) (rest : Bytes)
    → (c / 32 == 7) ≡ false
    → IsBytes (b ∷ rest)
    → Reads c pre (b ∷ rest) (c / 32) (high_part c + b) rest
short-Reads c pre b rest e (h, hs) = record {
  low = b;
  index = length pre + 1;
  before = pre ++ c ∷ b ∷ [];
  reads = unfold read_length in rw e refl;
  low_read = read_behind pre (c ∷ []) b rest (length pre + 1) refl;
  behind = omega (arith, length-append pre (c ∷ b ∷ []));
  splits = append_assoc pre (c ∷ b ∷ []) rest;
  is_byte = h;
  are_bytes = hs;
  distance = refl;
  shorter = omega arith;
  is_short = omega arith;
}

long-Reads :
    (c : ℕ) (pre : Bytes) (b low : ℕ) (rest : Bytes)
    → (c / 32 == 7) ≡ true
    → IsBytes (b ∷ low ∷ rest)
    → Reads c pre (b ∷ low ∷ rest) (c / 32 + b) (high_part c + low) rest
long-Reads c pre b low rest e (g, (h, hs)) = record {
  low = low;
  index = length pre + 1 + 1;
  before = pre ++ c ∷ b ∷ low ∷ [];
  reads =
      unfold read_length in
      (let k : leb (length (pre ++ c ∷ b ∷ low ∷ rest)) (length pre + 1 + 1) ≡ false =
          lt→leb _ _ (omega (arith, length-append pre (c ∷ b ∷ low ∷ rest))) in
        rw (e, read_behind pre (c ∷ []) b (low ∷ rest) (length pre + 1) refl, k) refl);
  low_read = read_behind pre (c ∷ b ∷ []) low rest (length pre + 1 + 1) (omega arith);
  behind = omega (arith, length-append pre (c ∷ b ∷ low ∷ []));
  splits = append_assoc pre (c ∷ b ∷ low ∷ []) rest;
  is_byte = h;
  are_bytes = hs;
  distance = refl;
  shorter = omega arith;
  is_short = omega arith;
}

abbrev At : ℕ → Bytes → Bytes → Option (ℕ × ℕ × Bytes) → Type 0
At c pre rest none = Unit
At c pre rest (some (n, d, rest')) = Reads c pre rest n d rest'

reference-At : (c : ℕ) (pre rest : Bytes) → IsBytes rest → At c pre rest (read_reference c rest)
reference-At c pre [] h = tt
reference-At c pre (b ∷ []) h = elim (Bool-cases (c / 32 == 7)) [
  | inl y ↦ rw y tt
  | inr y ↦ rw y (short-Reads c pre b [] y h)
]
reference-At c pre (b ∷ low ∷ rest) h = elim (Bool-cases (c / 32 == 7)) [
  | inl y ↦
      let q : c / 32 + b ≡ 7 + b = ap (λ m. m + b) ((==_iff (c / 32) 7).0 y) in
      rw y (
        subst (λ m. Reads c pre (b ∷ low ∷ rest) m (high_part c + low) rest) q
          (long-Reads c pre b low rest y h))
  | inr y ↦ rw y (short-Reads c pre b (low ∷ rest) y h)
]

pub reference-Reads :
    (c n d : ℕ) (pre rest rest' : Bytes)
    → IsBytes rest
    → read_reference c rest ≡ some (n, d, rest')
    → Reads c pre rest n d rest'
reference-Reads c n d pre rest rest' h e = subst (At c pre rest) e (reference-At c pre rest h)

-- Where the input ends inside a reference.
abbrev Ends : ℕ → Bytes → Bytes → Type 0
Ends c pre rest =
    (leb (length (pre ++ c ∷ rest)) (length pre + 1) ≡ true)
    ⊎ ((leb (length (pre ++ c ∷ rest)) (length pre + 1) ≡ false)
        × (read_length c (pre ++ c ∷ rest) (length pre + 1) ≡ ok none))

pub reference-Ends : (c : ℕ) (pre rest : Bytes) → read_reference c rest ≡ none → Ends c pre rest
unfolding read_length
reference-Ends c pre [] e = inl (le→leb _ _ (omega (arith, length-append pre (c ∷ []))))
reference-Ends c pre (b ∷ []) e = elim (Bool-cases (c / 32 == 7)) [
  | inl y ↦
      let k : leb (length (pre ++ c ∷ b ∷ [])) (length pre + 1 + 1) ≡ true =
        le→leb _ _ (omega (arith, length-append pre (c ∷ b ∷ []))) in
      inr (
        within pre (b ∷ []) c 1 (omega arith) (omega arith),
        rw (y, read_behind pre (c ∷ []) b [] (length pre + 1) refl, k) refl,
      )
  | inr y ↦
      let f : read_reference c (b ∷ []) ≡ some (c / 32, high_part c + b, []) = rw y refl in
      absurd (cc (sym f ∙ e))
]
reference-Ends c pre (b ∷ low ∷ rest) e = elim (Bool-cases (c / 32 == 7)) [
  | inl y ↦
      let f : read_reference c (b ∷ low ∷ rest) ≡ some (7 + b, high_part c + low, rest) =
        rw y refl in
      absurd (cc (sym f ∙ e))
  | inr y ↦
      let f : read_reference c (b ∷ low ∷ rest) ≡ some (c / 32, high_part c + b, low ∷ rest) =
        rw y refl in
      absurd (cc (sym f ∙ e))
]
