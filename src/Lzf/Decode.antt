-- ===== src/Lzf/Decode.antt =====
-- The loop of `Decompress` against the format.
use golly.Base.{
  ℕ, zero, suc, ◌+◌, ◌≤◌, ◌<◌, true, false, Option, none, some, [], ◌∷◌, ◌++◌, append_assoc, ◌≡◌,
  refl, sym, ap, ◌∙◌, arith, Bytes, IsBytes, ltb, lt→ltb, le→ltb,
}
use golly.Base.Calls.{ok, panic, ◌>>=◌, Run}
use golly.Base.Lists.{length, length-append}
use golly.Lzf.{Round, round, expand}
use golly.Lzf.BackRounds.{
  round-back_over, round-far, round-back, round-wraps, round-back_cut, length-repeated,
}
use golly.Lzf.Format.{
  Verdict, gives, refuses, panics, Unpack, at_end, literal_fits, literal_over, literal_cut,
  back_cut, back_over, back_far, back_wraps, back_fits,
}
use golly.Lzf.References.{Reads, reference-Reads}
use golly.Lzf.Rounds.{buffer, round-literal, round-over, round-cut}

abbrev pub outcome : ℕ → Verdict → Run (Option Bytes)
outcome limit (gives out) = ok (some (buffer limit out))
outcome limit refuses = ok none
outcome limit panics = panic

-- What the loop makes of a round.
after : ℕ → Bytes → ℕ → Round → Run (Option Bytes)
after fuel input limit r = r >>= λ s. elim s [
  | none ↦ ok none
  | some (output', iidx', oidx') ↦ expand fuel input limit output' iidx' oidx'
]

expand-round :
    (fuel limit c : ℕ) (pre out rest : Bytes) (r : Round)
    → round (pre ++ c ∷ rest) limit (buffer limit out) (length pre) (length out) ≡ r
    → expand (suc fuel) (pre ++ c ∷ rest) limit (buffer limit out) (length pre) (length out)
      ≡ after fuel (pre ++ c ∷ rest) limit r
unfolding expand after
expand-round fuel limit c pre out rest r e =
    let k : ltb (length pre) (length (pre ++ c ∷ rest)) ≡ true =
      lt→ltb _ _ (omega (arith, length-append pre (c ∷ rest))) in
    rw (expand, k, e) refl

pub IsBytes-right : (xs ys : Bytes) → IsBytes (xs ++ ys) → IsBytes ys
IsBytes-right [] ys h = h
IsBytes-right (x ∷ xs) ys (p, h) = IsBytes-right xs ys h

pub expand-Unpack :
    (limit fuel : ℕ) (pre : Bytes) {out rest : Bytes} {v : Verdict}
    → Unpack limit out rest v
    → limit < 1073741824
    → IsBytes rest
    → length pre + length rest + 64 < 4294967296
    → length out ≤ limit
    → length rest < fuel
    → expand fuel (pre ++ rest) limit (buffer limit out) (length pre) (length out) ≡ outcome limit v
unfolding expand after
expand-Unpack limit zero pre u small h short fits enough = absurd (omega arith)
expand-Unpack limit (suc fuel) pre (at_end out) small h short fits enough =
    let k : ltb (length pre) (length (pre ++ [])) ≡ false =
      le→ltb _ _ (omega (arith, length-append pre [])) in
    rw (expand, k) refl
expand-Unpack limit (suc fuel) pre (literal_fits c out run rest v p e k u) small (b, h) short fits
      enough =
    let l = length-append run rest in
    let i : length pre + 1 + (c + 1) ≡ length (pre ++ c ∷ run) =
      omega (arith, length-append pre (c ∷ run)) in
    let j : length out + (c + 1) ≡ length (out ++ run) = omega (arith, length-append out run) in
    expand-round fuel limit c pre out (run ++ rest) _
      (round-literal limit c pre out run rest small p e k (omega (arith, l)))
    ∙ rw (i, j, ← append_assoc pre (c ∷ run) rest)
        (expand-Unpack limit fuel (pre ++ c ∷ run) u small (IsBytes-right run rest h)
          (omega (arith, length-append pre (c ∷ run), l)) (omega (arith, length-append out run))
          (omega (arith, l)))
expand-Unpack limit (suc fuel) pre (literal_over c out rest p k) small (b, h) short fits enough =
    expand-round fuel limit c pre out rest _ (round-over limit c pre out rest small p fits k)
expand-Unpack limit (suc fuel) pre (literal_cut c out rest p k) small (b, h) short fits enough =
    expand-round fuel limit c pre out rest _ (round-cut limit c pre out rest p (omega arith) k)
expand-Unpack limit (suc fuel) pre (back_cut c out rest p e) small (b, h) short fits enough =
    expand-round fuel limit c pre out rest _ (round-back_cut limit c pre out rest p e)
expand-Unpack limit (suc fuel) pre (back_over c n d out rest rest' p e k) small (b, h) short fits
      enough =
    let r = reference-Reads c n d pre rest rest' h e in
    expand-round fuel limit c pre out rest _ (
      round-back_over limit c n d pre out rest rest' r p (omega (arith, r.shorter))
        (omega (arith, r.is_short)) k)
expand-Unpack limit (suc fuel) pre (back_far c n d out rest rest' p e k f g) small (b, h) short fits
      enough =
    let r = reference-Reads c n d pre rest rest' h e in
    expand-round fuel limit c pre out rest _
      (round-far limit c n d pre out rest rest' r p (omega (arith, r.shorter)) small k f g)
expand-Unpack limit (suc fuel) pre (back_wraps c n d out rest rest' p e k g) small (b, h) short fits
      enough =
    expand-round fuel limit c pre out rest _ (
      round-wraps limit c n d pre out rest rest' (reference-Reads c n d pre rest rest' h e) p small
        k g)
expand-Unpack limit (suc fuel) pre (back_fits c n d out rest rest' v p e k g u) small (b, h) short
      fits enough =
    let r : Reads c pre rest n d rest' = reference-Reads c n d pre rest rest' h e in
    let l : length r.before + length rest' ≡ length pre + 1 + length rest =
      sym (length-append r.before rest')
      ∙ ap length r.splits
      ∙ length-append pre (c ∷ rest)
      ∙ omega arith in
    expand-round fuel limit c pre out rest _
      (round-back limit c n d pre out rest rest' r p small k g)
    ∙ rw (← r.splits, r.behind, ← length-repeated (n + 2) d out)
        (expand-Unpack limit fuel r.before u small r.are_bytes (omega arith)
          (omega (arith, length-repeated (n + 2) d out)) (omega (arith, r.shorter)))
