-- ===== src/Lzf/Rounds.antt =====
-- What one round of the loop of `Decompress` does, in the terms of the format.
use golly.Base.{
  ℕ, zero, suc, ◌+◌, ◌-◌, ◌≤◌, ◌<◌, Bool, true, false, none, some, [], ◌∷◌, ◌++◌, append_assoc, ◌≡◌,
  refl, sym, ap, arith, Bytes, if◌then◌else◌, ltb, lt→ltb, le→ltb,
}
use golly.Base.Calls.{ok, Fuel, read_at, read_at-append}
use golly.Base.Lists.{length, length-append, length-replicate, drop, replicate}
use golly.Lzf.{Round, word, literal, round, copy_literal}
use golly.Lzf.Copy.{copy_literal-append}

drop-replicate : (n k : ℕ) → drop {A = ℕ} n (replicate k 0) ≡ replicate (k - n) 0
drop-replicate zero k = let q : k - 0 ≡ k = omega arith in rw q refl
drop-replicate (suc n) zero = let q : 0 - suc n ≡ 0 = omega arith in rw q refl
drop-replicate (suc n) (suc k) =
    let q : suc k - suc n ≡ k - n = omega arith in rw q (drop-replicate n k)

pub word-small : (n : ℕ) → n < 4294967296 → word n ≡ n
word-small n h = omega arith

either_way : (b : Bool) (r : Round) → (if b then r else r) ≡ r
either_way true r = refl
either_way false r = refl

-- The buffer of a call that has written `out`.
abbrev pub buffer : ℕ → Bytes → Bytes
buffer limit out = out ++ replicate (limit - length out) 0

pub buffer-drop :
    (limit n : ℕ) (out out' : Bytes)
    → length out' ≡ length out + n
    → out' ++ drop n (replicate (limit - length out) 0) ≡ buffer limit out'
buffer-drop limit n out out' e =
    let q : limit - length out - n ≡ limit - length out' = omega arith in
    rw (drop-replicate n (limit - length out), q) refl

copied :
    (limit : ℕ) (pre out run rest : Bytes) (c : ℕ)
    → length out + length run ≤ limit
    → copy_literal
        (length run)
        (pre ++ c ∷ (run ++ rest))
        (buffer limit out)
        (length pre + 1)
        (length out)
      ≡ ok (buffer limit (out ++ run))
copied limit pre out run rest c fits =
    rw
      (
        ← append_assoc pre (c ∷ []) (run ++ rest),
        copy_literal-append run (pre ++ c ∷ []) rest out (replicate (limit - length out) 0)
            (length pre + 1) (length out) (omega (arith, length-append pre (c ∷ []))) refl
            (omega (arith, length-replicate {A = ℕ} (limit - length out) 0)),
      )
      (ap ok (buffer-drop limit (length run) out (out ++ run) (length-append out run)))

pub round-literal :
    (limit c : ℕ) (pre out run rest : Bytes)
    → limit < 1073741824
    → c < 32
    → length run ≡ c + 1
    → length out + length run ≤ limit
    → length pre + length run + length rest + 32 < 4294967296
    → round (pre ++ c ∷ (run ++ rest)) limit (buffer limit out) (length pre) (length out)
      ≡ ok (some (buffer limit (out ++ run), length pre + 1 + (c + 1), length out + (c + 1)))
unfolding round literal
round-literal limit c pre out run rest small h e fits short =
    let q : read_at {E = Fuel} (pre ++ c ∷ (run ++ rest)) (length pre) ≡ ok c =
      read_at-append pre c (run ++ rest) (length pre) refl in
    let w : word (length out + (c + 1)) ≡ length out + (c + 1) = word-small _ (omega arith) in
    let w' : word (length pre + 1 + (c + 1)) ≡ length pre + 1 + (c + 1) =
      word-small _ (omega arith) in
    let k : c + 1 ≡ length run = sym e in
    let m : ltb (length (pre ++ c ∷ (run ++ rest))) (length pre + 1 + (c + 1)) ≡ false =
      le→ltb _ _ (omega (arith, length-append pre (c ∷ (run ++ rest)), length-append run rest)) in
    rw
      (
        q,
        lt→ltb c 32 h,
        w,
        w',
        le→ltb limit (length out + (c + 1)) (omega arith),
        m,
        k,
        copied limit pre out run rest c fits,
      )
      refl

pub round-over :
    (limit c : ℕ) (pre out rest : Bytes)
    → limit < 1073741824
    → c < 32
    → length out ≤ limit
    → limit < length out + (c + 1)
    → round (pre ++ c ∷ rest) limit (buffer limit out) (length pre) (length out) ≡ ok none
unfolding round literal
round-over limit c pre out rest small h o over =
    let q : read_at {E = Fuel} (pre ++ c ∷ rest) (length pre) ≡ ok c =
      read_at-append pre c rest (length pre) refl in
    let w : word (length out + (c + 1)) ≡ length out + (c + 1) = word-small _ (omega arith) in
    rw (q, lt→ltb c 32 h, w, lt→ltb limit (length out + (c + 1)) over) refl

pub round-cut :
    (limit c : ℕ) (pre out rest : Bytes)
    → c < 32
    → length pre + length rest + 64 < 4294967296
    → length rest < c + 1
    → round (pre ++ c ∷ rest) limit (buffer limit out) (length pre) (length out) ≡ ok none
unfolding round literal
round-cut limit c pre out rest h short cut =
    let q : read_at {E = Fuel} (pre ++ c ∷ rest) (length pre) ≡ ok c =
      read_at-append pre c rest (length pre) refl in
    let w : word (length pre + 1 + (c + 1)) ≡ length pre + 1 + (c + 1) =
      word-small _ (omega arith) in
    let m : ltb (length (pre ++ c ∷ rest)) (length pre + 1 + (c + 1)) ≡ true =
      lt→ltb _ _ (omega (arith, length-append pre (c ∷ rest))) in
    rw (q, lt→ltb c 32 h, w, m) (either_way (ltb limit (word (length out + (c + 1)))) (ok none))
