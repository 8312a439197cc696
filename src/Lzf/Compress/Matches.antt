-- ===== src/Lzf/Compress/Matches.antt =====
-- What the test for a match and the loop that extends it find.
use golly.Base.{
  ℕ, zero, suc, ◌+◌, ◌-◌, ◌≤◌, ◌<◌, Bool, true, false, ◌&&◌, inl, inr, Bool-cases, [], ◌∷◌, ◌++◌,
  ◌≡◌, refl, sym, ap, ◌∙◌, arith, Bytes, ltb, leb, leb→lt, ◌==◌, ==_iff,
}
use golly.Base.Calls.{read_at-get_or, ok}
use golly.Base.Lists.{length, length-take, take, get_or}
use golly.Lzf.Format.{repeated}
use golly.Lzf.Compress.{is_match, same_at, extend, max_offset}
use golly.Lzf.Compress.Buffer.{take-snoc, get_or-take}

-- The bytes at `p` and at `q` are there, and the same, as far as `n` bytes on.
pub Same : Bytes → ℕ → ℕ → ℕ → Type 0
Same input p q n = (k : ℕ) → k < n → get_or input (p + k) 0 ≡ get_or input (q + k) 0

same_at_lem :
    (input : Bytes) (p q : ℕ)
    → p < length input
    → q < length input
    → same_at input p q ≡ ok (get_or input p 0 == get_or input q 0)
unfolding same_at
same_at_lem input p q h k = rw (read_at-get_or input p 0 h, read_at-get_or input q 0 k) refl

Same-three :
    (input : Bytes) (p q : ℕ)
    → get_or input p 0 ≡ get_or input q 0
    → get_or input (p + 1) 0 ≡ get_or input (q + 1) 0
    → get_or input (p + 2) 0 ≡ get_or input (q + 2) 0
    → Same input p q 3
unfolding Same
Same-three input p q a b c zero h =
    let e : p + 0 ≡ p = omega arith in let f : q + 0 ≡ q = omega arith in rw (e, f) a
Same-three input p q a b c (suc zero) h = b
Same-three input p q a b c (suc (suc zero)) h = c
Same-three input p q a b c (suc (suc (suc k))) h = absurd (omega arith)

Same-suc :
    (input : Bytes) (p q n : ℕ)
    → Same input p q n
    → get_or input (p + n) 0 ≡ get_or input (q + n) 0
    → Same input p q (n + 1)
unfolding Same
Same-suc input p q n same e k h = elim (Bool-cases (k == n)) [
  | inl t ↦ let q' : k ≡ n = (==_iff k n).0 t in rw q' e
  | inr t ↦ same k (ground arith)
]

-- What `is_match` makes sure of.
pub record Found (input : Bytes) (iidx backref : ℕ) : Type 0 where
  pub near : iidx < backref + 1 + max_offset
  pub inside : iidx + 4 < length input
  pub behind : 0 < backref
  pub same : Same input backref iidx 3

unfoldable pub Tests : Bytes → ℕ → ℕ → Bool → Type 0
Tests input iidx backref true = Found input iidx backref
Tests input iidx backref false = Unit

pub is_match-Tests :
    (input : Bytes) (iidx backref : ℕ)
    → (0 < backref → backref < iidx)
    → (b : Bool) × (is_match input iidx backref ≡ ok b) × Tests input iidx backref b
unfolding is_match Tests Same
is_match-Tests input iidx backref older =
    elim (Bool-cases
      (ltb iidx (backref + 1 + max_offset) && (ltb (iidx + 4) (length input) && ltb 0 backref))) [
        | inr e ↦ (false, rw e refl, tt)
        | inl e ↦
            let near : iidx < backref + 1 + max_offset = ground arith in
            let inside : iidx + 4 < length input = ground arith in
            let behind : 0 < backref = ground arith in
            let o : backref < iidx = older behind in
            let s0 = same_at_lem input backref iidx (omega arith) (omega arith) in
            let s1 = same_at_lem input (backref + 1) (iidx + 1) (omega arith) (omega arith) in
            let s2 = same_at_lem input (backref + 2) (iidx + 2) (omega arith) (omega arith) in
            elim (Bool-cases (get_or input backref 0 == get_or input iidx 0)) [
              | inr t0 ↦ (false, rw (e, s0, t0) refl, tt)
              | inl t0 ↦
                  elim (Bool-cases (get_or input (backref + 1) 0 == get_or input (iidx + 1) 0)) [
                    | inr t1 ↦ (false, rw (e, s0, t0, s1, t1) refl, tt)
                    | inl t1 ↦
                        elim (Bool-cases
                          (get_or input (backref + 2) 0 == get_or input (iidx + 2) 0)) [
                            | inr t2 ↦ (false, rw (e, s0, t0, s1, t1, s2, t2) refl, tt)
                            | inl t2 ↦ (
                              true,
                              rw (e, s0, t0, s1, t1, s2, t2) refl,
                              record {
                                near = near;
                                inside = inside;
                                behind = behind;
                                same =
                                    Same-three input backref iidx ((==_iff _ _).0 t0)
                                      ((==_iff _ _).0 t1) ((==_iff _ _).0 t2);
                              },
                            )
                          ]
                  ]
            ]
      ]

-- The length that `extend` finds: as far as the bytes are the same, or the longest allowed.
pub extend-Same :
    (fuel : ℕ) (input : Bytes) (max backref iidx n : ℕ)
    → backref < iidx
    → iidx + max < length input
    → n < max
    → max ≤ n + fuel
    → Same input backref iidx (n + 1)
    → (m : ℕ) × (extend fuel input max backref iidx n ≡ ok m)
      × n < m
      × m ≤ max
      × Same input backref iidx m
unfolding extend
extend-Same zero input max backref iidx n o i h f same = absurd (omega arith)
extend-Same (suc fuel) input max backref iidx n o i h f same = elim (Bool-cases (leb max (n + 1))) [
  | inl e ↦ (n + 1, rw (e, extend) refl, omega arith, omega arith, same)
  | inr e ↦
      let l : n + 1 < max = leb→lt max (n + 1) e in
      let s = same_at_lem input (backref + (n + 1)) (iidx + (n + 1)) (omega arith) (omega arith) in
      elim (Bool-cases (get_or input (backref + (n + 1)) 0 == get_or input (iidx + (n + 1)) 0)) [
        | inr t ↦ (n + 1, rw (e, extend, s, t) refl, omega arith, omega arith, same)
        | inl t ↦
            let (m, r, a, b, c) =
              extend-Same fuel input max backref iidx (n + 1) o i l (omega arith)
                (Same-suc input backref iidx (n + 1) same ((==_iff _ _).0 t)) in
            (m, rw (e, extend, s, t) r, omega arith, b, c)
      ]
]

later :
    (n : ℕ) (input : Bytes) (d i : ℕ)
    → d ≤ i
    → Same input (i - d) i n
    → (k : ℕ) → suc k < n
    → get_or input (suc i - d + k) 0 ≡ get_or input (suc i + k) 0
unfolding Same
later n input d i h same k l =
    ap (λ m. get_or input m 0) (omega arith)
    ∙ same (suc k) l
    ∙ ap (λ m. get_or input m 0) (omega arith)

-- A reference at the distance of the match gives the bytes of the input that matched.
pub repeated-Same :
    (n d i : ℕ) (input : Bytes)
    → 0 < d
    → d ≤ i
    → i + n ≤ length input
    → Same input (i - d) i n
    → repeated n d (take i input) ≡ take (i + n) input
unfolding Same
repeated-Same zero d i input p h l same = let e : i + 0 ≡ i = omega arith in rw e refl
repeated-Same (suc n) d i input p h l same =
    let li : length (take i input) ≡ i = omega (arith, length-take i input) in
    let g : get_or (take i input) (length (take i input) - d) 0 ≡ get_or input i 0 =
      ap (λ m. get_or (take i input) (m - d) 0) li
      ∙ get_or-take input i (i - d) (omega arith) (omega arith)
      ∙ ap (λ m. get_or input m 0) (omega arith)
      ∙ same 0 (omega arith)
      ∙ ap (λ m. get_or input m 0) (omega arith) in
    let grown : take i input ++ get_or (take i input) (length (take i input) - d) 0 ∷ []
        ≡ take (suc i) input =
      ap (λ b. take i input ++ b ∷ []) g ∙ sym (take-snoc input i (omega arith)) in
    ap (repeated n d) grown
    ∙ repeated-Same n d (suc i) input p (omega arith) (omega arith)
        (λ k h'. later (suc n) input d i h same k (omega arith))
    ∙ ap (λ m. take m input) (omega arith)
