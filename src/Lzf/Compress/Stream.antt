-- ===== src/Lzf/Compress/Stream.antt =====
-- What a piece of a stream does to the output that is unpacked so far.
use golly.Base.{
  ℕ, ◌+◌, ◌-◌, ◌*◌, ◌/◌, ◌%◌, ◌≤◌, ◌<◌, true, false, some, [], ◌∷◌, ◌++◌, append_assoc, ◌≡◌, refl,
  ap, ◌∙◌, arith, Bytes, ltb, ltb→lt, ltb→le, ◌==◌, Bool-cases, inl, inr, if◌then◌else◌,
}
use golly.Base.Lists.{length}
use golly.Lzf.Format.{Verdict, Unpack, literal_fits, back_fits, repeated, high_part, read_reference}

-- The piece `enc` stands for the bytes `done`, whatever follows it.
pub Decodes : ℕ → Bytes → Bytes → Type 0
Decodes limit enc done =
    (rest : Bytes) (v : Verdict) → Unpack limit done rest v → Unpack limit [] (enc ++ rest) v

pub Decodes-nil : (limit : ℕ) → Decodes limit [] []
unfolding Decodes
Decodes-nil limit rest v u = u

pub Decodes-Unpack :
    (limit : ℕ) (enc done : Bytes) (v : Verdict)
    → Decodes limit enc done
    → Unpack limit done [] v
    → Unpack limit [] (enc ++ []) v
unfolding Decodes
Decodes-Unpack limit enc done v d u = d [] v u

pub Decodes-literal :
    (limit : ℕ) (enc done lits : Bytes)
    → Decodes limit enc done
    → 0 < length lits
    → length lits ≤ 32
    → length done + length lits ≤ limit
    → Decodes limit (enc ++ ((length lits + 255) % 256) ∷ lits) (done ++ lits)
unfolding Decodes
Decodes-literal limit enc done lits d p h fits rest v u =
    let c : ℕ = (length lits + 255) % 256 in
    rw (append_assoc enc (c ∷ lits) rest) (
      d (c ∷ (lits ++ rest)) v (literal_fits c done lits rest v (omega arith) (omega arith) fits u))

Decodes-back :
    (limit n dist c : ℕ) (enc done ref : Bytes)
    → Decodes limit enc done
    → 32 ≤ c
    → ((rest : Bytes) → read_reference c (ref ++ rest) ≡ some (n, dist, rest))
    → length done + n + 2 ≤ limit
    → dist ≤ length done
    → Decodes limit (enc ++ c ∷ ref) (repeated (n + 2) dist done)
unfolding Decodes
Decodes-back limit n dist c enc done ref d h reads fits near rest v u =
    rw (append_assoc enc (c ∷ ref) rest) (
      d (c ∷ (ref ++ rest)) v
        (back_fits c n dist done (ref ++ rest) rest v h (reads rest) fits near u))

short_reads :
    (c b : ℕ) (rest : Bytes)
    → (c / 32 == 7) ≡ false
    → read_reference c (b ∷ rest) ≡ some (c / 32, high_part c + b, rest)
short_reads c b [] e = rw e refl
short_reads c b (x ∷ rest) e = rw e refl

-- The bytes of a reference to what is `offset + 1` bytes back, for `n + 2` bytes.
abbrev pub reference_bytes : ℕ → ℕ → Bytes
reference_bytes offset n =
    if ltb n 7
    then ((offset / 256 + n * 32) % 256) ∷ (offset % 256) ∷ []
    else ((offset / 256 + 7 * 32) % 256) ∷ ((n - 7) % 256) ∷ (offset % 256) ∷ []

long_reads :
    (c b low : ℕ) (rest : Bytes)
    → (c / 32 == 7) ≡ true
    → read_reference c (b ∷ low ∷ rest) ≡ some (7 + b, high_part c + low, rest)
long_reads c b low rest e = rw e refl

short_control :
    (n offset : ℕ) → n < 7 → offset < 8192 → ((offset / 256 + n * 32) % 256 / 32 == 7) ≡ false
short_control n offset h o =
    let q : (offset / 256 + n * 32) % 256 / 32 ≡ n = omega arith in rw q (ground arith)

short_parts :
    (n offset : ℕ) (rest : Bytes)
    → n < 7
    → offset < 8192
    → ◌≡◌ {A = ℕ × ℕ × Bytes}
        (
          (offset / 256 + n * 32) % 256 / 32,
          high_part ((offset / 256 + n * 32) % 256) + offset % 256,
          rest,
        )
        (n, offset + 1, rest)
short_parts n offset rest h o =
    let q : (offset / 256 + n * 32) % 256 / 32 ≡ n = omega arith in
    let r : high_part ((offset / 256 + n * 32) % 256) + offset % 256 ≡ offset + 1 = omega arith in
    rw (q, r) refl

long_control : (offset : ℕ) → offset < 8192 → ((offset / 256 + 7 * 32) % 256 / 32 == 7) ≡ true
long_control offset o = let q : (offset / 256 + 7 * 32) % 256 / 32 ≡ 7 = omega arith in rw q refl

long_parts :
    (n offset : ℕ) (rest : Bytes)
    → 7 ≤ n
    → n ≤ 262
    → offset < 8192
    → ◌≡◌ {A = ℕ × ℕ × Bytes}
        (7 + (n - 7) % 256, high_part ((offset / 256 + 7 * 32) % 256) + offset % 256, rest)
        (n, offset + 1, rest)
long_parts n offset rest h k o =
    let q : 7 + (n - 7) % 256 ≡ n = omega arith in
    let r : high_part ((offset / 256 + 7 * 32) % 256) + offset % 256 ≡ offset + 1 = omega arith in
    rw (q, r) refl

pub Decodes-reference :
    (limit n offset : ℕ) (enc done : Bytes)
    → Decodes limit enc done
    → 0 < n
    → n ≤ 262
    → offset < 8192
    → length done + n + 2 ≤ limit
    → offset + 1 ≤ length done
    → Decodes limit (enc ++ reference_bytes offset n) (repeated (n + 2) (offset + 1) done)
Decodes-reference limit n offset enc done d p h o fits near = elim (Bool-cases (ltb n 7)) [
  | inl e ↦
      let c : ℕ = (offset / 256 + n * 32) % 256 in
      rw e (
        Decodes-back limit n (offset + 1) c enc done ((offset % 256) ∷ []) d
          (omega (arith, ltb→lt n 7 e))
          (λ rest.
            short_reads c (offset % 256) rest (short_control n offset (ltb→lt n 7 e) o)
            ∙ ap some (short_parts n offset rest (ltb→lt n 7 e) o))
          fits near)
  | inr e ↦
      let c : ℕ = (offset / 256 + 7 * 32) % 256 in
      rw e (
        Decodes-back limit n (offset + 1) c enc done (((n - 7) % 256) ∷ (offset % 256) ∷ []) d
          (omega arith)
          (λ rest.
            long_reads c ((n - 7) % 256) (offset % 256) rest (long_control offset o)
            ∙ ap some (long_parts n offset rest (ltb→le n 7 e) h o))
          fits near)
]
