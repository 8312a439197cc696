-- ===== src/Url/Escape.antt =====
-- What `urlEscape` and `urlEscapeCustom` return, word by word.
use Prim.Native.Nat.{bit_and}
use golly.Base.{
  ℕ, zero, ◌+◌, ◌*◌, ◌/◌, ◌%◌, ◌<◌, ◌≤◌, Bool, true, false, ◌&&◌, ◌⊎◌, inl, inr, [], ◌∷◌, ◌++◌,
  append_assoc, ◌≡◌, refl, arith, Bytes, IsBytes, codes, length, get_or, replicate,
  length-replicate, ◌==◌, ==_iff, if◌then◌else◌, Bool-cases, ok, write_at-append, read_at-get_or,
  table, table-at, length-append, length-drop, drop, All,
}
use golly.Url.{hex_digit, put_byte, spell, tally, escape_by}

-- The lower-case hexadecimal digit of a number below 16.
abbrev pub digit : ℕ → ℕ
digit d = get_or (codes "0123456789abcdef") d 0

hex_digit-digit : (d : ℕ) → d < 16 → hex_digit d ≡ ok (digit d)
unfolding hex_digit
hex_digit-digit d h = read_at-get_or (codes "0123456789abcdef") d 0 h

low_table : table 256 (λ c. bit_and c 15 == c % 16) ≡ true
unfolding table
low_table = refl

bit_and_low : (c : ℕ) → c < 256 → bit_and c 15 ≡ c % 16
bit_and_low c h = (==_iff _ _).0 (table-at _ 256 c h low_table)

module _ (esc : ℕ → Bool) (do_plus : Bool) where
  -- What one byte is quoted as.
  unfoldable pub word : ℕ → Bytes
  word c =
      if c == b' ' && do_plus
      then b'+' ∷ []
      else if esc c
      then b'%' ∷ digit (c / 16) ∷ digit (c % 16) ∷ []
      else c ∷ []

  unfoldable pub words : Bytes → Bytes
  unfolding word
  words [] = []
  words (c ∷ s) = word c ++ words s

  length-word : (c : ℕ) → (length (word c) ≡ 1) ⊎ (length (word c) ≡ 3)
  unfolding word
  length-word c = ground arith

  put_plus :
      (c : ℕ) (out r : Bytes) (x j : ℕ)
      → (c == b' ' && do_plus) ≡ true
      → j ≡ length out
      → put_byte esc do_plus c (out ++ x ∷ r) j ≡ ok (out ++ b'+' ∷ r, j + 1)
  unfolding put_byte
  put_plus c out r x j plus h = rw (plus, write_at-append out (x ∷ r) 0 j b'+' (omega arith))

  put_plain :
      (c : ℕ) (out r : Bytes) (x j : ℕ)
      → (c == b' ' && do_plus) ≡ false
      → esc c ≡ false
      → j ≡ length out
      → put_byte esc do_plus c (out ++ x ∷ r) j ≡ ok (out ++ c ∷ r, j + 1)
  unfolding put_byte
  put_plain c out r x j plus e h = rw (plus, e, write_at-append out (x ∷ r) 0 j c (omega arith))

  put_hex :
      (c : ℕ) (out r : Bytes) (x y z j : ℕ)
      → c < 256
      → (c == b' ' && do_plus) ≡ false
      → esc c ≡ true
      → j ≡ length out
      → put_byte esc do_plus c (out ++ x ∷ y ∷ z ∷ r) j
        ≡ ok (out ++ b'%' ∷ digit (c / 16) ∷ digit (c % 16) ∷ r, j + 3)
  unfolding put_byte
  put_hex c out r x y z j small plus e h =
      rw
        (
          plus,
          e,
          write_at-append out (x ∷ y ∷ z ∷ r) 0 j b'%' (omega arith),
          hex_digit-digit (c / 16) (omega arith),
          write_at-append out (b'%' ∷ y ∷ z ∷ r) 1 (j + 1) (digit (c / 16)) (omega arith),
          bit_and_low c small,
          hex_digit-digit (c % 16) (omega arith),
          write_at-append out (b'%' ∷ digit (c / 16) ∷ z ∷ r) 2 (j + 2) (digit (c % 16))
              (omega arith),
        )
        refl

  put_byte-word :
      (c : ℕ) (out rest : Bytes) (j : ℕ)
      → c < 256
      → j ≡ length out
      → length (word c) ≤ length rest
      → put_byte esc do_plus c (out ++ rest) j
        ≡ ok (out ++ (word c ++ drop (length (word c)) rest), j + length (word c))
  unfolding word
  put_byte-word c out [] j small h w = ground arith
  put_byte-word c out (x ∷ []) j small h w =
      ground (arith, put_plus c out [] x j, put_plain c out [] x j)
  put_byte-word c out (x ∷ y ∷ []) j small h w =
      ground (arith, put_plus c out (y ∷ []) x j, put_plain c out (y ∷ []) x j)
  put_byte-word c out (x ∷ y ∷ z ∷ r) j small h w = ground (
    arith,
    put_plus c out (y ∷ z ∷ r) x j,
    put_plain c out (y ∷ z ∷ r) x j,
    put_hex c out r x y z j,
  )

  spell-words :
      (s out rest : Bytes) (j : ℕ)
      → IsBytes s
      → j ≡ length out
      → length rest ≡ length (words s)
      → spell esc do_plus s (out ++ rest) j ≡ ok (out ++ words s)
  unfolding words spell
  spell-words [] out [] j b h w = refl
  spell-words [] out (x ∷ rest) j b h w = absurd (omega arith)
  spell-words (c ∷ s) out rest j (small, b) h w =
      let n = length (word c) in
      let fits : n + length (words s) ≡ length rest =
        omega (arith, length-append (word c) (words s)) in
      rw
        (
          put_byte-word c out rest j small h (omega arith),
          ← append_assoc out (word c) (drop n rest),
          spell-words s (out ++ word c) (drop n rest) (j + n) b
              (omega (arith, length-append out (word c))) (omega (arith, length-drop n rest)),
          append_assoc out (word c) (words s),
        )
        refl

  -- The two counts of the first loop give the length of the output.
  tally-words :
      (s : Bytes) (a b : ℕ) → length s + 2 * (tally esc do_plus s a b).1 ≡ length (words s) + 2 * b
  unfolding tally words word
  tally-words [] a b = omega arith
  tally-words (c ∷ s) a b =
      let plus = c == b' ' && do_plus in
      let a' = if esc c then (if plus then a + 1 else a) else a in
      let b' = if esc c then (if plus then b else b + 1) else b in
      ground (arith, tally-words s a' b', length-append (word c) (words s))

  abbrev pub Untouched : Bytes → Type 0
  Untouched = All (λ c. esc c ≡ false)

  tally-le :
      (s : Bytes) (a b : ℕ) → (a ≤ (tally esc do_plus s a b).0) × (b ≤ (tally esc do_plus s a b).1)
  unfolding tally
  tally-le [] a b = omega arith
  tally-le (c ∷ s) a b =
      let plus = c == b' ' && do_plus in
      let a' = if esc c then (if plus then a + 1 else a) else a in
      let b' = if esc c then (if plus then b else b + 1) else b in ground (arith, tally-le s a' b')

  -- Nothing is counted only where no byte needs an escape.
  tally_zero :
      (s : Bytes) → (tally esc do_plus s 0 0).0 ≡ 0 → (tally esc do_plus s 0 0).1 ≡ 0 → Untouched s
  unfolding tally
  tally_zero [] p q = tt
  tally_zero (c ∷ s) p q =
      let plus = c == b' ' && do_plus in
      let a' : ℕ = if esc c then (if plus then 1 else 0) else 0 in
      let b' : ℕ = if esc c then (if plus then 0 else 1) else 0 in
      let e : esc c ≡ false = ground (arith, tally-le s a' b') in
      (e, tally_zero s (rw (e, tally) at p) (rw (e, tally) at q))

  -- The result is a word for each byte, or the text itself where no byte needs an escape.
  pub escape_by-words :
      (s : Bytes)
      → IsBytes s
      → (escape_by esc do_plus s ≡ ok (words s)) ⊎ ((escape_by esc do_plus s ≡ ok s) × Untouched s)
  unfolding escape_by
  escape_by-words s b =
      let (a, h) = tally esc do_plus s 0 0 in
      elim (Bool-cases (a == 0 && h == 0)) [
        | inl e ↦ inr (rw e, tally_zero s (ground arith) (ground arith))
        | inr e ↦ inl (
            rw e (
              spell-words s [] (replicate (length s + 2 * h) 0) 0 b refl
                (omega (arith, tally-words s 0 0, length-replicate (length s + 2 * h) zero))))
      ]

  words-Untouched : esc b' ' ≡ true → (s : Bytes) → Untouched s → words s ≡ s
  unfolding words word
  words-Untouched space [] u = refl
  words-Untouched space (c ∷ s) (e, u) =
      let apart : (c == b' ') ≡ false = ground arith in rw (apart, e, words-Untouched space s u)

  pub escape_by_lem :
      esc b' ' ≡ true → (s : Bytes) → IsBytes s → escape_by esc do_plus s ≡ ok (words s)
  escape_by_lem space s b = elim (escape_by-words s b) [
    | inl e ↦ e
    | inr e ↦ rw (words-Untouched space s e.1) (e.0)
  ]
