-- ===== src/Lzf/Compress/References.antt =====
-- The branch of a match.
use golly.Base.{
  ℕ, suc, ◌+◌, ◌-◌, ◌%◌, ◌≤◌, ◌<◌, inl, inr, Bool-cases, [], ◌∷◌, ◌++◌, append-nil, ◌≡◌, refl, sym,
  ap, ◌∙◌, arith, Bytes, IsBytes, ltb, leb, leb→le, leb→lt,
}
use mathlib.Core.Path.{subst}
use golly.Base.Calls.{ok, Fuel, write_at}
use golly.Base.Lists.{length, length-append, length-take, take}
use golly.Lzf.Format.{repeated}
use golly.Lzf.Compress.{Packer, Progress, breaks, write_length, write_reference}
use golly.Lzf.Compress.Buffer.{front, IsBytes-append}
use golly.Lzf.Compress.Stream.{Decodes, Decodes-reference, reference_bytes}
use golly.Lzf.Compress.Steps.{Inv}
use golly.Lzf.Compress.Turns.{Fresh, Fresh-le, After, rehash-After}
use golly.Lzf.Compress.Writes.{Open, write-reference_bytes}

IsBytes-reference_bytes : (offset n : ℕ) → IsBytes (reference_bytes offset n)
IsBytes-reference_bytes offset n = elim (Bool-cases (ltb n 7)) [
  | inl t ↦ rw t (omega arith, (omega arith, tt))
  | inr t ↦ rw t (omega arith, (omega arith, (omega arith, tt)))
]

length-reference_bytes : (offset n : ℕ) → length (reference_bytes offset n) ≤ 3
length-reference_bytes offset n = elim (Bool-cases (ltb n 7)) [
  | inl t ↦ rw t (omega arith)
  | inr t ↦ rw t (omega arith)
]

-- What is known where a reference is written, for `n + 2` bytes.
pub record Written (input : Bytes) (s : Packer) (offset n : ℕ) : Type 0 where
  pub all_bytes : IsBytes input
  pub opened : Open input s.output s.iidx s.oidx
  pub room_left : s.oidx < length input
  pub some_bytes : 0 < n
  pub few_bytes : n ≤ 262
  pub near : offset < 8192
  pub behind : offset + 1 ≤ s.iidx
  pub inside : s.iidx + n + 4 ≤ length input
  pub same : repeated (n + 2) (offset + 1) (take s.iidx input) ≡ take (s.iidx + (n + 2)) input
  pub fresh : Fresh s.table (s.iidx + 1)

module _ (input : Bytes) (s : Packer) (offset n : ℕ) (w : Written input s offset n) where
  enc : Bytes
  enc = w.opened.enc

  Result : Type 0
  unfolding enc
  Result = (p : Progress) × (write_reference input s offset n ≡ ok p) × After input s.iidx p

  -- The state behind the reference.
  behind_it :
      (slot : ℕ) (rest : Bytes) (r : ℕ)
      → r + 1 ≡ 4 + length (enc ++ reference_bytes offset n)
      → length (enc ++ reference_bytes offset n) + 1 + length rest ≡ length input
      → Inv input
          (front ((enc ++ reference_bytes offset n) ++ slot ∷ rest))
          (s.iidx + 1 + (n + 1))
          (r + 2)
          0
  unfolding enc
  behind_it slot rest r h k =
      let e : s.iidx + (n + 2) ≡ s.iidx + 1 + (n + 1) = omega arith in
      let t : length (take s.iidx input) ≡ s.iidx =
        omega (arith, length-take s.iidx input, w.inside) in
      record {
        enc = enc ++ reference_bytes offset n;
        slot = slot;
        lits = [];
        room = rest;
        done = take (s.iidx + 1 + (n + 1)) input;
        laid = refl;
        place = omega arith;
        count = refl;
        total = omega arith;
        taken = sym (append-nil _);
        within = omega (arith, w.inside);
        decodes =
            subst (Decodes (length input) (enc ++ reference_bytes offset n))
              (w.same ∙ ap (λ m. take m input) e)
              (Decodes-reference (length input) n offset enc (take s.iidx input) w.opened.decodes
                w.some_bytes w.few_bytes w.near (omega (arith, w.inside))
                (omega (arith, w.behind)));
        are_bytes =
            IsBytes-append enc (reference_bytes offset n) w.opened.are_bytes
              (IsBytes-reference_bytes offset n);
        few = omega arith;
      }

  by_rest :
      (x y z : ℕ) (room : Bytes)
      → w.opened.room ≡ x ∷ y ∷ z ∷ room
      → (r : Bytes × ℕ) → write_length s.output s.oidx offset n ≡ ok r
      → (rest : Bytes)
      → write_at {E = Fuel} r.0 r.1 (offset % 256)
        ≡ ok (front ((enc ++ reference_bytes offset n) ++ rest))
      → r.1 + 1 ≡ 4 + length (enc ++ reference_bytes offset n)
      → length (reference_bytes offset n) + length rest ≡ 3 + length room
      → Result
  unfolding write_reference After enc Result
  by_rest x y z room e r a [] b c d =
      let l : length w.opened.room ≡ suc (suc (suc (length room))) = ap length e in
      absurd (
        omega (arith, length-reference_bytes offset n, w.room_left, w.opened.total, w.opened.place))
  by_rest x y z room e r a (slot ∷ rest) b c d =
      let l : length w.opened.room ≡ suc (suc (suc (length room))) = ap length e in
      let k : length (enc ++ reference_bytes offset n) + 1 + length rest ≡ length input =
        omega (arith, length-append enc (reference_bytes offset n), w.opened.total) in
      let inv = behind_it slot rest r.1 c k in
      let s' : Packer = record s {
        output = front ((enc ++ reference_bytes offset n) ++ slot ∷ rest);
        literal = 0;
        oidx = r.1 + 2;
        iidx = s.iidx + 1 + (n + 1);
      } in
      elim (Bool-cases (leb (length input - 2) (s.iidx + 1 + (n + 1)))) [
        | inl t ↦ (breaks s', rw (a, b, t) refl, (inv, omega (arith, leb→le _ _ t)))
        | inr t ↦
            let (p, runs, after) =
              rehash-After input s' s.iidx inv
                (Fresh-le s.table (s.iidx + 1) (s.iidx + 1 + (n + 1)) w.fresh (omega arith))
                (omega (arith, w.some_bytes)) (omega (arith, leb→lt _ _ t)) in
            (p, rw (a, b, t) runs, after)
      ]

  pub write_reference-After :
      (p : Progress) × (write_reference input s offset n ≡ ok p) × After input s.iidx p
  unfolding enc Result
  write_reference-After = by_room w.opened.room refl
    where
      short : (room : Bytes) → w.opened.room ≡ room → length room ≤ 2 → Result
      short room e h =
          let l : length w.opened.room ≡ length room = ap length e in
          absurd (omega (arith, w.room_left, w.opened.total, w.opened.place))

      by_room : (room : Bytes) → w.opened.room ≡ room → Result
      by_room (x ∷ y ∷ z ∷ room) e =
          let (r, a, rest, b, c, d) =
            write-reference_bytes enc x y z room s.oidx offset n w.opened.place in
          by_rest x y z room e r
            (ap (λ o. write_length o s.oidx offset n) (w.opened.laid ∙ ap (λ q. front (enc ++ q)) e)
              ∙ a)
            rest b c d
      by_room [] e = short [] e (omega arith)
      by_room (x ∷ []) e = short (x ∷ []) e (omega arith)
      by_room (x ∷ y ∷ []) e = short (x ∷ y ∷ []) e (omega arith)
