-- ===== src/Url/Decode.antt =====
-- `urlUnescape` against a decoder that reads the text once and builds its result as it goes.
use golly.Base.{
  ℕ, zero, suc, ◌+◌, ◌-◌, ◌*◌, ◌≤◌, Bool, true, false, not, ◌&&◌, ◌||◌, inl, inr, [], ◌∷◌, ◌++◌,
  append_assoc, ◌≡◌, refl, sym, ap, arith, Bytes, length, length-append, length-replicate,
  replicate, ◌==◌, if◌then◌else◌, Bool-cases, ok, err, panic, ◌>>=◌, map_ok, write_at,
  write_at-append,
}
use golly.Url.{Result, ishex, join_hex, scan, unplus, fill, url_unescape}

-- The independent description: an escape is `%` and two hexadecimal digits, and everything else
-- stands for itself, but `+` for a space where `do_plus` says so. The error is the first escape
-- that is broken, cut to three bytes.
unfoldable pub decode : Bool → Bytes → Result Bytes
unfolding ishex join_hex unplus
decode do_plus [] = ok []
decode do_plus (c ∷ []) = if c == b'%' then err (c ∷ []) else ok (unplus do_plus c ∷ [])
decode do_plus (c ∷ a ∷ []) = elim (c == b'%') [
  | true ↦ err (c ∷ a ∷ [])
  | false ↦ map_ok (λ t. unplus do_plus c ∷ t) (decode do_plus (a ∷ []))
]
decode do_plus (c ∷ a ∷ b ∷ s) = elim (c == b'%') [
  | true ↦ elim (ishex a && ishex b) [
    | true ↦ map_ok (λ t. join_hex a b ∷ t) (decode do_plus s)
    | false ↦ err (c ∷ a ∷ b ∷ [])
  ]
  | false ↦ map_ok (λ t. unplus do_plus c ∷ t) (decode do_plus (a ∷ b ∷ s))
]

-- What the first loop knows of a text that the second loop may read: how many escapes it has,
-- and whether a plus sign is to be read as a space.
record Fits (p : Bool) (s : Bytes) (n : ℕ) (h : Bool) (m : ℕ) (h' : Bool) (t : Bytes) : Type 0 where
  size : length t + 2 * m ≡ length s + 2 * n
  grows : n ≤ m
  keeps : p ≡ true → h ≡ true → h' ≡ true
  same : m ≡ n → h' ≡ false → t ≡ s
  fills :
      (out rest : Bytes) (j : ℕ)
      → j ≡ length out
      → length rest ≡ length t
      → fill p s (out ++ rest) j ≡ ok (out ++ t)

abbrev Scanned : Bool → Bytes → ℕ → Bool → Result (ℕ × Bool) → Result Bytes → Type 0
Scanned p s n h (ok (m, h')) (ok t) = Fits p s n h m h' t
Scanned p s n h (err e) (err e') = e ≡ e'
Scanned p s n h _ _ = ⊥

fill_plain :
    (p : Bool) (c : ℕ) (s t : Bytes) (j : ℕ)
    → (c == b'%') ≡ false
    → fill p (c ∷ s) t j ≡ write_at t j (unplus p c) >>= λ u. fill p s u (j + 1)
unfolding fill
fill_plain p c [] t j e = rw e
fill_plain p c (a ∷ []) t j e = rw (e, fill)
fill_plain p c (a ∷ b ∷ s) t j e = rw (e, fill)

fill_hex :
    (p : Bool) (c a b : ℕ) (s t : Bytes) (j : ℕ)
    → (c == b'%') ≡ true
    → fill p (c ∷ a ∷ b ∷ s) t j ≡ write_at t j (join_hex a b) >>= λ u. fill p s u (j + 1)
unfolding fill
fill_hex p c a b s t j e = rw (e, fill)

-- One byte of the output, in front of what the rest of the text gives.
fill_next :
    (p : Bool) (s t : Bytes) (v : ℕ)
    → ((out rest : Bytes) (j : ℕ)
        → j ≡ length out
        → length rest ≡ length t
        → fill p s (out ++ rest) j ≡ ok (out ++ t))
    → (out rest : Bytes) (j : ℕ) → j ≡ length out
    → length rest ≡ suc (length t)
    → (write_at (out ++ rest) j v >>= λ u. fill p s u (j + 1)) ≡ ok (out ++ v ∷ t)
fill_next p s t v fills out [] j h w = absurd (omega arith)
fill_next p s t v fills out (x ∷ rest) j h w =
    rw
      (
        write_at-append out (x ∷ rest) 0 j v (omega arith),
        ← append_assoc out (v ∷ []) rest,
        fills (out ++ v ∷ []) rest (j + 1) (omega (arith, length-append out (v ∷ [])))
            (omega arith),
        append_assoc out (v ∷ []) t,
      )
      refl

Scanned-plain :
    (p : Bool) (c : ℕ) (s : Bytes) (n : ℕ) (h : Bool) (r : Result (ℕ × Bool)) (d : Result Bytes)
    → (c == b'%') ≡ false
    → Scanned p s n (if c == b'+' then p else h) r d
    → Scanned p (c ∷ s) n h r (map_ok (λ t. unplus p c ∷ t) d)
unfolding unplus
Scanned-plain p c s n h (ok (m, h')) (ok t) e f = record {
  size = omega (arith, f.size);
  grows = f.grows;
  keeps = λ x y. f.keeps x (ground arith);
  same = λ x y. let head : unplus p c ≡ c = ground (arith, f.keeps) in cc (head, f.same x y);
  fills = λ out rest j q w.
      rw (fill_plain p c s (out ++ rest) j e) (fill_next p s t (unplus p c) f.fills out rest j q w);
}
Scanned-plain p c s n h (err e) (err e') q f = f
Scanned-plain p c s n h panic d q f = elim f [ ]
Scanned-plain p c s n h (ok x) (err e) q f = elim f [ ]
Scanned-plain p c s n h (ok x) panic q f = elim f [ ]
Scanned-plain p c s n h (err e) (ok t) q f = elim f [ ]
Scanned-plain p c s n h (err e) panic q f = elim f [ ]

Scanned-hex :
    (p : Bool) (c a b : ℕ) (s : Bytes) (n : ℕ) (h : Bool) (r : Result (ℕ × Bool)) (d : Result Bytes)
    → (c == b'%') ≡ true
    → Scanned p s (n + 1) h r d
    → Scanned p (c ∷ a ∷ b ∷ s) n h r (map_ok (λ t. join_hex a b ∷ t) d)
Scanned-hex p c a b s n h (ok (m, h')) (ok t) e f = record {
  size = omega (arith, f.size);
  grows = omega (arith, f.grows);
  keeps = f.keeps;
  same = λ q. absurd (omega (arith, f.grows));
  fills = λ out rest j q w.
      rw (fill_hex p c a b s (out ++ rest) j e)
        (fill_next p s t (join_hex a b) f.fills out rest j q w);
}
Scanned-hex p c a b s n h (err e) (err e') q f = f
Scanned-hex p c a b s n h panic d q f = elim f [ ]
Scanned-hex p c a b s n h (ok x) (err e) q f = elim f [ ]
Scanned-hex p c a b s n h (ok x) panic q f = elim f [ ]
Scanned-hex p c a b s n h (err e) (ok t) q f = elim f [ ]
Scanned-hex p c a b s n h (err e) panic q f = elim f [ ]

fill_nil :
    (p : Bool) (out rest : Bytes) (j : ℕ)
    → j ≡ length out
    → length rest ≡ 0
    → fill p [] (out ++ rest) j ≡ ok (out ++ [])
unfolding fill
fill_nil p out [] j q w = refl
fill_nil p out (x ∷ rest) j q w = absurd (omega arith)

scan-decode :
    (p : Bool) (s : Bytes) (n : ℕ) (h : Bool) → Scanned p s n h (scan p s n h) (decode p s)
unfolding scan decode
scan-decode p [] n h = record {
  size = refl;
  grows = omega arith;
  keeps = λ _ y. y;
  same = λ _ _. refl;
  fills = fill_nil p;
}
scan-decode p (c ∷ []) n h = elim (Bool-cases (c == b'%')) [
  | inl e ↦ rw (e, scan, decode) refl
  | inr e ↦
      rw (e, scan, decode)
        (Scanned-plain p c [] n h (ok (n, if c == b'+' then p else h)) (ok []) e
          (scan-decode p [] n (if c == b'+' then p else h)))
]
scan-decode p (c ∷ a ∷ []) n h = elim (Bool-cases (c == b'%')) [
  | inl e ↦ rw (e, scan, decode) refl
  | inr e ↦
      rw (e, scan, decode)
        (Scanned-plain p c (a ∷ []) n h _ _ e
          (scan-decode p (a ∷ []) n (if c == b'+' then p else h)))
]
scan-decode p (c ∷ a ∷ b ∷ s) n h = elim (Bool-cases (c == b'%')) [
  | inl e ↦ elim (Bool-cases (ishex a && ishex b)) [
    | inl g ↦
        let g' : (not (ishex a) || not (ishex b)) ≡ false = ground arith in
        rw (e, scan, decode, g, g') (Scanned-hex p c a b s n h _ _ e (scan-decode p s (n + 1) h))
    | inr g ↦
        let g' : (not (ishex a) || not (ishex b)) ≡ true = ground arith in
        rw (e, scan, decode, g, g') refl
  ]
  | inr e ↦
      rw (e, scan, decode)
        (Scanned-plain p c (a ∷ b ∷ s) n h _ _ e
          (scan-decode p (a ∷ b ∷ s) n (if c == b'+' then p else h)))
]

finish :
    (p : Bool) (s : Bytes) (r : Result (ℕ × Bool)) (d : Result Bytes)
    → Scanned p s 0 false r d
    → (r >>= λ x.
        if x.0 == 0 && not x.1 then ok s else fill p s (replicate (length s - 2 * x.0) 0) 0)
      ≡ d
finish p s (ok (m, h)) (ok t) f = elim (Bool-cases (m == 0 && not h)) [
  | inl e ↦ rw e (ap ok (sym (f.same (ground arith) (ground arith))))
  | inr e ↦ rw e (
      f.fills [] (replicate (length s - 2 * m) 0) 0 refl
        (omega (arith, f.size, length-replicate (length s - 2 * m) zero)))
]
finish p s (err e) (err e') f = ap err f
finish p s panic d f = elim f [ ]
finish p s (ok x) (err e) f = elim f [ ]
finish p s (ok x) panic f = elim f [ ]
finish p s (err e) (ok t) f = elim f [ ]
finish p s (err e) panic f = elim f [ ]

-- `urlUnescape`, with its check, its count and its buffer, is the decoder that reads the text once,
-- for every text and both readings of `+`: the same text, the same error, and never a panic.
pub url_unescape-decode : (s : Bytes) (p : Bool) → url_unescape s p ≡ decode p s
unfolding url_unescape
url_unescape-decode s p = finish p s (scan p s 0 false) (decode p s) (scan-decode p s 0 false)

pub decode_plain :
    (p : Bool) (c : ℕ) (s : Bytes)
    → (c == b'%') ≡ false
    → decode p (c ∷ s) ≡ map_ok (λ t. unplus p c ∷ t) (decode p s)
unfolding decode
decode_plain p c [] e = rw e
decode_plain p c (a ∷ []) e = rw (e, decode)
decode_plain p c (a ∷ b ∷ s) e = rw (e, decode)

pub decode_hex :
    (p : Bool) (a b : ℕ) (s : Bytes)
    → (ishex a && ishex b) ≡ true
    → decode p (b'%' ∷ a ∷ b ∷ s) ≡ map_ok (λ t. join_hex a b ∷ t) (decode p s)
unfolding decode
decode_hex p a b s e = rw (e, decode)
