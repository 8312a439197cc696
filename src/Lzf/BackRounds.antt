-- ===== src/Lzf/BackRounds.antt =====
-- The rounds of the loop of `Decompress` that meet a back reference.
use golly.Base.{
  ℕ, zero, suc, ◌+◌, ◌-◌, ◌*◌, ◌%◌, ◌≤◌, ◌<◌, none, some, inl, inr, [], ◌∷◌, ◌++◌, ◌≡◌, refl, ◌∙◌,
  arith, Bytes, lt→ltb, le→ltb,
}
use golly.Base.Calls.{ok, panic, Fuel, read_at, read_at-append}
use golly.Base.Lists.{length, length-append, length-replicate, drop, replicate, get_or}
use golly.Lzf.{word, refer, back_reference, round, copy_back}
use golly.Lzf.Copy.{copy_back-repeated}
use golly.Lzf.Format.{repeated, high_part, read_reference}
use golly.Lzf.References.{Reads, reference-Ends, within}
use golly.Lzf.Rounds.{buffer, buffer-drop, word-small}

pub length-repeated : (n d : ℕ) (out : Bytes) → length (repeated n d out) ≡ length out + n
length-repeated zero d out = omega arith
length-repeated (suc n) d out = omega (
  arith,
  length-repeated n d (out ++ get_or out (length out - d) 0 ∷ []),
  length-append out (get_or out (length out - d) 0 ∷ []),
)

round-refer :
    (limit c n d : ℕ) (pre out rest rest' : Bytes) (r : Reads c pre rest n d rest')
    → 32 ≤ c
    → 0 < length rest
    → round (pre ++ c ∷ rest) limit (buffer limit out) (length pre) (length out)
      ≡ refer c n (pre ++ c ∷ rest) limit (buffer limit out) r.index (length out)
unfolding round back_reference
round-refer limit c n d pre out rest rest' r h p =
    rw
      (
        read_at-append {E = Fuel} pre c rest (length pre) refl,
        le→ltb c 32 h,
        within pre rest c 1 p (omega arith),
        r.reads,
      )
      refl

-- The word from which the low byte is taken.
abbrev start : ℕ → ℕ → ℕ
start c o = word (o + 4294967296 - (c % 32) * 256 - 1)

start_near : (c o : ℕ) → high_part c ≤ o → o < 4294967296 → start c o + high_part c ≡ o
start_near c o h k = omega arith

start_wrapped : (c o : ℕ) → o < high_part c → start c o ≡ o + 4294967296 - high_part c
start_wrapped c o h = omega arith

pub round-back_over :
    (limit c n d : ℕ) (pre out rest rest' : Bytes)
    → Reads c pre rest n d rest'
    → 32 ≤ c
    → 0 < length rest
    → length out + n + 2 < 4294967296
    → limit < length out + n + 2
    → round (pre ++ c ∷ rest) limit (buffer limit out) (length pre) (length out) ≡ ok none
unfolding refer
round-back_over limit c n d pre out rest rest' r h p small over =
    let w : word (length out + n + 2) ≡ length out + n + 2 = word-small _ small in
    round-refer limit c n d pre out rest rest' r h p
    ∙ rw (r.low_read, w, lt→ltb limit (length out + n + 2) over) refl

pub round-far :
    (limit c n d : ℕ) (pre out rest rest' : Bytes)
    → Reads c pre rest n d rest'
    → 32 ≤ c
    → 0 < length rest
    → limit < 1073741824
    → length out + n + 2 ≤ limit
    → length out < d
    → high_part c ≤ length out
    → round (pre ++ c ∷ rest) limit (buffer limit out) (length pre) (length out) ≡ ok none
unfolding refer
round-far limit c n d pre out rest rest' r h p small fits far near =
    let w : word (length out + n + 2) ≡ length out + n + 2 = word-small _ (omega arith) in
    let low : start c (length out) < r.low =
      omega (arith, start_near c (length out) near (omega arith), r.distance) in
    round-refer limit c n d pre out rest rest' r h p
    ∙ rw (r.low_read, w, le→ltb limit (length out + n + 2) fits, lt→ltb _ _ low) refl

pub round-back :
    (limit c n d : ℕ) (pre out rest rest' : Bytes) (r : Reads c pre rest n d rest')
    → 32 ≤ c
    → limit < 1073741824
    → length out + n + 2 ≤ limit
    → d ≤ length out
    → round (pre ++ c ∷ rest) limit (buffer limit out) (length pre) (length out)
      ≡ ok (some (buffer limit (repeated (n + 2) d out), r.index + 1, length out + (n + 2)))
unfolding refer
round-back limit c n d pre out rest rest' r h small fits near =
    let w : word (length out + n + 2) ≡ length out + n + 2 = word-small _ (omega arith) in
    let s : start c (length out) + high_part c ≡ length out =
      start_near c (length out) (omega (arith, r.distance)) (omega arith) in
    let low : r.low ≤ start c (length out) = omega (arith, r.distance) in
    let copy : copy_back (n + 2) (buffer limit out) (start c (length out) - r.low) (length out)
        ≡ ok (repeated (n + 2) d out ++ drop (n + 2) (replicate (limit - length out) 0)) =
      copy_back-repeated (n + 2) d out (replicate (limit - length out) 0) _ (length out)
        (omega (arith, r.distance)) (omega (arith, r.distance)) refl
        (omega (arith, length-replicate {A = ℕ} (limit - length out) 0)) in
    round-refer limit c n d pre out rest rest' r h (omega (arith, r.shorter))
    ∙ rw
        (
          r.low_read,
          w,
          le→ltb limit (length out + n + 2) fits,
          le→ltb (start c (length out)) r.low low,
          copy,
          buffer-drop limit (n + 2) out (repeated (n + 2) d out) (length-repeated (n + 2) d out),
        )
        refl

read_at-panic : (xs : Bytes) (i : ℕ) → length xs ≤ i → read_at {E = Fuel} xs i ≡ panic
read_at-panic [] i h = refl
read_at-panic (x ∷ xs) zero h = absurd (omega arith)
read_at-panic (x ∷ xs) (suc i) h = read_at-panic xs i (omega arith)

copy_back-panic :
    (n : ℕ) (output : Bytes) (k j : ℕ) → 0 < n → length output ≤ k → copy_back n output k j ≡ panic
unfolding copy_back
copy_back-panic zero output k j p h = absurd (omega arith)
copy_back-panic (suc n) output k j p h = rw (read_at-panic output k h) refl

pub round-wraps :
    (limit c n d : ℕ) (pre out rest rest' : Bytes)
    → Reads c pre rest n d rest'
    → 32 ≤ c
    → limit < 1073741824
    → length out + n + 2 ≤ limit
    → length out < high_part c
    → round (pre ++ c ∷ rest) limit (buffer limit out) (length pre) (length out) ≡ panic
unfolding refer
round-wraps limit c n d pre out rest rest' r h small fits far =
    let w : word (length out + n + 2) ≡ length out + n + 2 = word-small _ (omega arith) in
    let s : start c (length out) ≡ length out + 4294967296 - high_part c =
      start_wrapped c (length out) far in
    let low : r.low ≤ start c (length out) = omega (arith, r.is_byte) in
    let copy : copy_back (n + 2) (buffer limit out) (start c (length out) - r.low) (length out)
        ≡ panic =
      copy_back-panic (n + 2) (buffer limit out) _ (length out) (omega arith) (
        omega (
          arith,
          r.is_byte,
          length-append out (replicate (limit - length out) 0),
          length-replicate {A = ℕ} (limit - length out) 0,
        )) in
    round-refer limit c n d pre out rest rest' r h (omega (arith, r.shorter))
    ∙ rw
        (
          r.low_read,
          w,
          le→ltb limit (length out + n + 2) fits,
          le→ltb (start c (length out)) r.low low,
          copy,
        )
        refl

pub round-back_cut :
    (limit c : ℕ) (pre out rest : Bytes)
    → 32 ≤ c
    → read_reference c rest ≡ none
    → round (pre ++ c ∷ rest) limit (buffer limit out) (length pre) (length out) ≡ ok none
unfolding round back_reference
round-back_cut limit c pre out rest h e = elim (reference-Ends c pre rest e) [
  | inl k ↦ rw (read_at-append {E = Fuel} pre c rest (length pre) refl, le→ltb c 32 h, k) refl
  | inr (k, q) ↦
      rw (read_at-append {E = Fuel} pre c rest (length pre) refl, le→ltb c 32 h, k, q) refl
]
