-- ===== src/Lzf/Compress/Steps.antt =====
-- The invariant of `Compress`, and the step that takes a byte over.
use golly.Base.{
  ℕ, suc, ◌+◌, ◌%◌, ◌≤◌, ◌<◌, ◌⊎◌, true, false, inl, inr, Bool-cases, [], ◌∷◌, ◌++◌, append_assoc,
  append-nil, ◌≡◌, ◌≢◌, refl, sym, ap, ◌∙◌, arith, Bytes, IsBytes, ◌==◌, ==_iff,
}
use mathlib.Core.Path.{subst}
use golly.Base.Calls.{read_at-get_or, ok, Fuel, write_at}
use golly.Base.Lists.{length, length-append, length-take, take, get_or}
use golly.Lzf.Compress.{Packer, close_literal, copy_byte}
use golly.Lzf.Compress.Buffer.{
  front, put_front, put_behind, take-snoc, IsBytes-take, IsBytes-append,
}
use golly.Lzf.Decode.{IsBytes-right}
use golly.Lzf.Compress.Stream.{Decodes, Decodes-literal}

-- The output is the piece `enc`, which stands for the first part `done` of the input, a slot for a
-- control byte, the literals `lits` that wait for it, and the room behind them.
pub record Inv (input output : Bytes) (iidx oidx literal : ℕ) : Type 0 where
  pub enc : Bytes
  pub slot : ℕ
  pub lits : Bytes
  pub room : Bytes
  pub done : Bytes
  pub laid : output ≡ front (enc ++ slot ∷ (lits ++ room))
  pub place : oidx ≡ 5 + length enc + length lits
  pub count : literal ≡ length lits
  pub total : length enc + length lits + 1 + length room ≡ length input
  pub taken : take iidx input ≡ done ++ lits
  pub within : iidx ≤ length input
  pub decodes : Decodes (length input) enc done
  pub are_bytes : IsBytes enc
  pub few : length lits < 32

abbrev pub Holds : Bytes → Packer → Type 0
Holds input s = Inv input s.output s.iidx s.oidx s.literal

pub parts :
    {input output : Bytes} {iidx oidx literal : ℕ} (inv : Inv input output iidx oidx literal)
    → length inv.done + length inv.lits ≡ iidx
parts {input} {iidx} inv =
    sym (length-append inv.done inv.lits)
    ∙ sym (ap length inv.taken)
    ∙ omega (arith, length-take iidx input, inv.within)

-- What a step over one byte leaves.
pub record Copied (input : Bytes) (s : Packer) : Type 0 where
  pub next : Packer
  pub runs : copy_byte input s ≡ ok next
  pub holds : Holds input next
  pub moved : next.iidx ≡ s.iidx + 1
  pub table : next.table ≡ s.table
  pub wrote :
      (next.oidx ≡ s.oidx + 1 × next.literal ≡ s.literal + 1)
      ⊎ (next.oidx ≡ s.oidx + 2 × next.literal ≡ 0 × s.literal + 1 ≡ 32)

module _ (input : Bytes) (all_bytes : IsBytes input) (s : Packer) (inv : Holds input s)
    (more : s.iidx < length input) where
  byte : ℕ
  byte = get_or input s.iidx 0

  taken_more : take (s.iidx + 1) input ≡ inv.done ++ (inv.lits ++ byte ∷ [])
  unfolding byte
  taken_more =
      let e : s.iidx + 1 ≡ suc s.iidx = omega arith in
      ap (λ m. take m input) e
      ∙ take-snoc input s.iidx more
      ∙ ap (λ t. t ++ byte ∷ []) inv.taken
      ∙ append_assoc inv.done inv.lits (byte ∷ [])

  are_lits : IsBytes (inv.lits ++ byte ∷ [])
  are_lits =
      IsBytes-right inv.done (inv.lits ++ byte ∷ [])
        (subst IsBytes taken_more (IsBytes-take input (s.iidx + 1) all_bytes))

  written :
      (y : ℕ) (rest : Bytes)
      → inv.room ≡ y ∷ rest
      → write_at {E = Fuel} s.output s.oidx byte
        ≡ ok (front (inv.enc ++ inv.slot ∷ (inv.lits ++ byte ∷ rest)))
  written y rest e =
      ap (λ b. write_at b s.oidx byte)
        (inv.laid ∙ ap (λ r. front (inv.enc ++ inv.slot ∷ (inv.lits ++ r))) e)
      ∙ put_behind inv.enc inv.slot inv.lits y rest s.oidx byte inv.place

  keeps_open :
      (y : ℕ) (rest : Bytes) → inv.room ≡ y ∷ rest → (s.literal + 1 == 32) ≡ false → Copied input s
  unfolding copy_byte byte
  keeps_open y rest e t =
      let l : length (inv.lits ++ byte ∷ []) ≡ length inv.lits + 1 =
        length-append inv.lits (byte ∷ []) in
      let r : length inv.room ≡ suc (length rest) = ap length e in
      record {
        next = record s {
          output = front (inv.enc ++ inv.slot ∷ (inv.lits ++ byte ∷ rest));
          iidx = s.iidx + 1;
          oidx = s.oidx + 1;
          literal = s.literal + 1;
        };
        runs = rw (read_at-get_or input s.iidx 0 more, written y rest e, t) refl;
        holds = record {
          enc = inv.enc;
          slot = inv.slot;
          lits = inv.lits ++ byte ∷ [];
          room = rest;
          done = inv.done;
          laid =
              ap (λ z. front (inv.enc ++ inv.slot ∷ z))
                (sym (append_assoc inv.lits (byte ∷ []) rest));
          place = omega (arith, inv.place);
          count = omega (arith, inv.count);
          total = omega (arith, inv.total);
          taken = taken_more;
          within = omega arith;
          decodes = inv.decodes;
          are_bytes = inv.are_bytes;
          few =
              (let n : s.literal + 1 ≢ 32 = λ q. cc (t, (==_iff (s.literal + 1) 32).1 q) in
                omega (arith, inv.few, inv.count));
        };
        moved = refl;
        table = refl;
        wrote = inl (refl, refl);
      }

  closes :
      (y y' : ℕ) (rest : Bytes)
      → inv.room ≡ y ∷ y' ∷ rest
      → (s.literal + 1 == 32) ≡ true
      → Copied input s
  unfolding copy_byte byte
  closes y y' rest e t =
      let full : s.literal + 1 ≡ 32 = (==_iff (s.literal + 1) 32).0 t in
      let lits : Bytes = inv.lits ++ byte ∷ [] in
      let l : length lits ≡ length inv.lits + 1 = length-append inv.lits (byte ∷ []) in
      let c : ℕ = (s.literal + 1 + 255) % 256 in
      let enc : Bytes = inv.enc ++ c ∷ lits in
      let k : length enc ≡ length inv.enc + 1 + length lits =
        length-append inv.enc (c ∷ lits) ∙ omega arith in
      let r : length inv.room ≡ suc (suc (length rest)) = ap length e in
      let closed : close_literal (front (inv.enc ++ inv.slot ∷ (inv.lits ++ byte ∷ y' ∷ rest)))
            (s.oidx + 1) (s.literal + 1)
          ≡ ok (front (inv.enc ++ c ∷ (inv.lits ++ byte ∷ y' ∷ rest))) =
        put_front inv.enc inv.slot (inv.lits ++ byte ∷ y' ∷ rest) _ c
          (omega (arith, inv.place, inv.count)) in
      let d : length inv.done + length inv.lits ≡ s.iidx = parts inv in
      let q : (length lits + 255) % 256 ≡ c = omega (arith, inv.count) in
      record {
        next = record s {
          output = front (inv.enc ++ c ∷ (inv.lits ++ byte ∷ y' ∷ rest));
          iidx = s.iidx + 1;
          oidx = s.oidx + 2;
          literal = 0;
        };
        runs = rw (read_at-get_or input s.iidx 0 more, written y (y' ∷ rest) e, t, closed) refl;
        holds = record {
          enc = enc;
          slot = y';
          lits = [];
          room = rest;
          done = inv.done ++ lits;
          laid = ap front (
              sym (
                append_assoc inv.enc (c ∷ lits) (y' ∷ rest)
                ∙ ap (λ z. inv.enc ++ c ∷ z) (append_assoc inv.lits (byte ∷ []) (y' ∷ rest))));
          place = omega (arith, inv.place, inv.count);
          count = refl;
          total = omega (arith, inv.total);
          taken = taken_more ∙ sym (append-nil (inv.done ++ lits));
          within = omega arith;
          decodes =
              subst (λ m. Decodes (length input) (inv.enc ++ m ∷ lits) (inv.done ++ lits)) q
                (Decodes-literal (length input) inv.enc inv.done lits inv.decodes (omega arith)
                  (omega (arith, inv.count)) (omega arith));
          are_bytes = IsBytes-append inv.enc (c ∷ lits) inv.are_bytes (omega arith, are_lits);
          few = omega arith;
        };
        moved = refl;
        table = refl;
        wrote = inr (refl, refl, full);
      }

  pub copy_byte-Copied :
      (s.oidx + 2 ≤ length input + 4) ⊎ ((s.oidx + 1 ≤ length input + 4) × (s.literal + 1 < 32))
      → Copied input s
  unfolding copy_byte byte
  copy_byte-Copied roomy = by_room inv.room refl
    where
      by_room : (r : Bytes) → inv.room ≡ r → Copied input s
      by_room [] e =
          absurd (
            let l : length inv.room ≡ 0 = ap length e in omega (arith, inv.total, inv.place, roomy))
      by_room (y ∷ []) e = elim (Bool-cases (s.literal + 1 == 32)) [
        | inl t ↦
            let l : length inv.room ≡ 1 = ap length e in
            let full : s.literal + 1 ≡ 32 = (==_iff (s.literal + 1) 32).0 t in
            absurd (omega (arith, inv.total, inv.place, roomy))
        | inr t ↦ keeps_open y [] e t
      ]
      by_room (y ∷ y' ∷ rest) e = elim (Bool-cases (s.literal + 1 == 32)) [
        | inl t ↦ closes y y' rest e t
        | inr t ↦ keeps_open y (y' ∷ rest) e t
      ]
