-- ===== src/Lzf/Streams.antt =====
-- `Decompress` on a whole input: a header of four bytes, and a stream behind it.
use golly.Base.{
  ℕ, zero, suc, ◌+◌, ◌-◌, ◌*◌, ◌≤◌, ◌<◌, false, some, inl, inr, Option-cases, Bool-cases, [], ◌∷◌,
  ◌++◌, ◌≡◌, refl, sym, ◌∙◌, arith, Bytes, IsBytes, ltb, ltb→lt, ltb→le, leb, lt→leb,
}
use mathlib.Core.Path.{subst}
use golly.Base.Calls.{ok}
use golly.Base.Lists.{
  length, length-append, length-replicate, replicate, take, drop, take-append-drop, length-take,
  length-drop,
}
use golly.Lzf.{expand, decompress, max_size}
use golly.Lzf.BackRounds.{length-repeated}
use golly.Lzf.Decode.{outcome, expand-Unpack, IsBytes-right}
use golly.Lzf.Format.{
  Verdict, gives, refuses, panics, Unpack, at_end, literal_fits, literal_over, literal_cut,
  back_cut, back_over, back_far, back_wraps, back_fits, repeated, high_part, read_reference,
}
use golly.Lzf.References.{reference-Reads}
use golly.Lzf.Rounds.{buffer}

Decided : ℕ → Bytes → Bytes → Type 0
Decided limit out rest = (v : Verdict) × Unpack limit out rest v

literal-Decided :
    (limit c : ℕ) (out rest : Bytes)
    → IsBytes rest
    → ((out' rest' : Bytes) → length rest' ≤ length rest → IsBytes rest' → Decided limit out' rest')
    → c < 32
    → Decided limit out (c ∷ rest)
unfolding Decided
literal-Decided limit c out rest h ih p = elim (Bool-cases (ltb limit (length out + (c + 1)))) [
  | inl q ↦ (refuses, literal_over c out rest p (ltb→lt _ _ q))
  | inr q ↦ elim (Bool-cases (ltb (length rest) (c + 1))) [
    | inl r ↦ (refuses, literal_cut c out rest p (ltb→lt _ _ r))
    | inr r ↦
        let e : take (c + 1) rest ++ drop (c + 1) rest ≡ rest = take-append-drop (c + 1) rest in
        let l : length (take (c + 1) rest) ≡ c + 1 =
          omega (arith, length-take (c + 1) rest, ltb→le _ _ r) in
        let (v, u) =
          ih (out ++ take (c + 1) rest) (drop (c + 1) rest)
            (omega (arith, length-drop (c + 1) rest))
            (IsBytes-right (take (c + 1) rest) (drop (c + 1) rest) (subst IsBytes (sym e) h)) in
        (
          v,
          subst (λ r. Unpack limit out (c ∷ r) v) e
              (literal_fits c out (take (c + 1) rest) (drop (c + 1) rest) v p l
                (omega (arith, ltb→le _ _ q)) u),
        )
  ]
]

back-Decided :
    (limit c : ℕ) (out rest : Bytes)
    → IsBytes rest
    → ((out' rest' : Bytes) → length rest' ≤ length rest → IsBytes rest' → Decided limit out' rest')
    → 32 ≤ c
    → Decided limit out (c ∷ rest)
unfolding Decided
back-Decided limit c out rest h ih p = elim (Option-cases (read_reference c rest)) [
  | inl e ↦ (refuses, back_cut c out rest p e)
  | inr ((m, d, rest'), e) ↦ elim (Bool-cases (ltb limit (length out + m + 2))) [
    | inl q ↦ (refuses, back_over c m d out rest rest' p e (ltb→lt _ _ q))
    | inr q ↦ elim (Bool-cases (ltb (length out) (high_part c))) [
      | inl f ↦ (panics, back_wraps c m d out rest rest' p e (ltb→le _ _ q) (ltb→lt _ _ f))
      | inr f ↦ elim (Bool-cases (ltb (length out) d)) [
        | inl g ↦ (
          refuses,
          back_far c m d out rest rest' p e (ltb→le _ _ q) (ltb→lt _ _ g) (ltb→le _ _ f),
        )
        | inr g ↦
            let r = reference-Reads c m d [] rest rest' h e in
            let (v, u) = ih (repeated (m + 2) d out) rest' (omega (arith, r.shorter)) r.are_bytes in
            (v, back_fits c m d out rest rest' v p e (ltb→le _ _ q) (ltb→le _ _ g) u)
      ]
    ]
  ]
]

-- A byte of a stream decides what is done, so every stream has a verdict.
below-Decided :
    (limit n : ℕ) (out rest : Bytes) → length rest < n → IsBytes rest → Decided limit out rest
unfolding Decided
below-Decided limit zero out rest k h = absurd (omega arith)
below-Decided limit (suc n) out [] k h = (gives out, at_end out)
below-Decided limit (suc n) out (c ∷ rest) k (b, h) =
    let ih : (out' rest' : Bytes)
        → length rest' ≤ length rest
        → IsBytes rest'
        → Decided limit out' rest' =
      λ out' rest' l h'. below-Decided limit n out' rest' (omega arith) h' in
    elim (Bool-cases (ltb c 32)) [
      | inl p ↦ literal-Decided limit c out rest h ih (ltb→lt c 32 p)
      | inr p ↦ back-Decided limit c out rest h ih (ltb→le c 32 p)
    ]

-- The size that the header of an input names.
abbrev pub named_size : ℕ → ℕ → ℕ → ℕ → ℕ
named_size a b c d = a * 16777216 + b * 65536 + c * 256 + d

pub decompress-outcome :
    (a b c d : ℕ) (rest : Bytes) (v : Verdict)
    → IsBytes rest
    → 0 < length rest
    → length rest + 68 < 4294967296
    → named_size a b c d < max_size
    → Unpack (named_size a b c d) [] rest v
    → decompress (a ∷ b ∷ c ∷ d ∷ rest) ≡ outcome (named_size a b c d) v
unfolding decompress
decompress-outcome a b c d rest v h p short small u =
    let k : leb (length (a ∷ b ∷ c ∷ d ∷ rest)) 4 ≡ false = lt→leb _ _ (omega arith) in
    let s : leb max_size (named_size a b c d) ≡ false = lt→leb _ _ small in
    let q : named_size a b c d - 0 ≡ named_size a b c d = omega arith in
    let e =
      expand-Unpack (named_size a b c d) (length (a ∷ b ∷ c ∷ d ∷ rest)) (a ∷ b ∷ c ∷ d ∷ []) u
        small h (omega arith) (omega arith) (omega arith) in
    rw (k, s)
      (subst
        (λ m.
          expand (length (a ∷ b ∷ c ∷ d ∷ rest)) (a ∷ b ∷ c ∷ d ∷ rest) (named_size a b c d)
            (replicate m 0) 4 0
          ≡ outcome (named_size a b c d) v)
        q e)

pub decompress-Unpack :
    (a b c d : ℕ) (rest : Bytes)
    → IsBytes rest
    → 0 < length rest
    → length rest + 68 < 4294967296
    → named_size a b c d < max_size
    → (v : Verdict) × Unpack (named_size a b c d) [] rest v
      × (decompress (a ∷ b ∷ c ∷ d ∷ rest) ≡ outcome (named_size a b c d) v)
unfolding Decided
decompress-Unpack a b c d rest h p short small =
    let (v, u) = below-Decided (named_size a b c d) (suc (length rest)) [] rest (omega arith) h in
    (v, u, decompress-outcome a b c d rest v h p short small u)

given-le :
    (limit : ℕ) {out rest : Bytes} {v : Verdict}
    → Unpack limit out rest v
    → length out ≤ limit
    → (given : Bytes) → v ≡ gives given
    → length given ≤ limit
given-le limit (at_end out) h given e =
    let q : out ≡ given = cc in subst (λ o. length o ≤ limit) q h
given-le limit (literal_fits c out run rest v p l k u) h given e =
    given-le limit u (omega (arith, length-append out run)) given e
given-le limit (literal_over c out rest p k) h given e = absurd (cc e)
given-le limit (literal_cut c out rest p k) h given e = absurd (cc e)
given-le limit (back_cut c out rest p k) h given e = absurd (cc e)
given-le limit (back_over c n d out rest rest' p r k) h given e = absurd (cc e)
given-le limit (back_far c n d out rest rest' p r k f g) h given e = absurd (cc e)
given-le limit (back_wraps c n d out rest rest' p r k g) h given e = absurd (cc e)
given-le limit (back_fits c n d out rest rest' v p r k g u) h given e =
    given-le limit u (omega (arith, length-repeated (n + 2) d out)) given e

-- What `Decompress` returns has exactly the size that the header names.
pub length-decompress :
    (a b c d : ℕ) (rest output : Bytes)
    → IsBytes rest
    → 0 < length rest
    → length rest + 68 < 4294967296
    → named_size a b c d < max_size
    → decompress (a ∷ b ∷ c ∷ d ∷ rest) ≡ ok (some output)
    → length output ≡ named_size a b c d
length-decompress a b c d rest output h p short small e =
    let (v, u, q) = decompress-Unpack a b c d rest h p short small in by_verdict v u (sym q ∙ e)
  where
    by_verdict :
        (v : Verdict)
        → Unpack (named_size a b c d) [] rest v
        → outcome (named_size a b c d) v ≡ ok (some output)
        → length output ≡ named_size a b c d
    by_verdict (gives out) u k =
        let q : buffer (named_size a b c d) out ≡ output = cc in
        let l = given-le (named_size a b c d) u (omega arith) out refl in
        subst (λ o. length o ≡ named_size a b c d) q
          (omega (
            arith,
            l,
            length-append out (replicate (named_size a b c d - length out) 0),
            length-replicate {A = ℕ} (named_size a b c d - length out) 0,
          ))
    by_verdict refuses u k = absurd (cc k)
    by_verdict panics u k = absurd (cc k)
