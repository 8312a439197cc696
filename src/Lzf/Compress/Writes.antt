-- ===== src/Lzf/Compress/Writes.antt =====
-- What the branch of a match writes, and what `rehash` does.
use golly.Base.{
  ℕ, ◌+◌, ◌-◌, ◌*◌, ◌/◌, ◌%◌, ◌<◌, true, false, inl, inr, Bool-cases, [], ◌∷◌, ◌++◌, append_assoc,
  append-nil, ◌≡◌, refl, sym, ap, ◌∙◌, arith, Bytes, IsBytes, ltb, ◌==◌, ==_iff, if◌then◌else◌,
}
use mathlib.Core.Path.{subst}
use golly.Base.Calls.{ok, Fuel, write_at}
use golly.Base.Lists.{length, length-append, take}
use golly.Lzf.Decode.{IsBytes-right}
use golly.Lzf.Compress.{close_literal, write_length}
use golly.Lzf.Compress.Buffer.{front, put_front, put_behind, IsBytes-take, IsBytes-append}
use golly.Lzf.Compress.Stream.{Decodes, Decodes-literal, reference_bytes}
use golly.Lzf.Compress.Steps.{Inv, parts}

-- The output where no slot is kept: the piece `enc`, and the room behind it.
pub record Open (input output : Bytes) (iidx oidx : ℕ) : Type 0 where
  pub enc : Bytes
  pub room : Bytes
  pub laid : output ≡ front (enc ++ room)
  pub place : oidx ≡ 4 + length enc
  pub total : length enc + length room ≡ length input
  pub decodes : Decodes (length input) enc (take iidx input)
  pub are_bytes : IsBytes enc

abbrev pub oidx_closed : ℕ → ℕ → ℕ
oidx_closed oidx literal = if literal == 0 then oidx - 1 else oidx

closed :
    (input output : Bytes) (iidx oidx literal : ℕ) (inv : Inv input output iidx oidx literal)
    → close_literal output oidx literal
      ≡ ok (front (inv.enc ++ ((literal + 255) % 256) ∷ (inv.lits ++ inv.room)))
closed input output iidx oidx literal inv =
    ap (λ b. close_literal b oidx literal) inv.laid
    ∙ put_front inv.enc inv.slot (inv.lits ++ inv.room) (oidx - literal - 1) ((literal + 255) % 256)
        (omega (arith, inv.place, inv.count))

nothing : (xs : Bytes) → length xs ≡ 0 → xs ≡ []
nothing [] h = refl
nothing (x ∷ xs) h = absurd (omega arith)

unfoldable pub Closes : Bytes → Bytes → ℕ → ℕ → ℕ → Type 0
Closes input output iidx oidx literal =
    (output' : Bytes) × (close_literal output oidx literal ≡ ok output')
    × Open input output' iidx (oidx_closed oidx literal)

closed_none :
    (input output : Bytes) (iidx oidx literal : ℕ)
    → Inv input output iidx oidx literal
    → (literal == 0) ≡ true
    → Closes input output iidx oidx literal
unfolding Closes
closed_none input output iidx oidx literal inv t =
    let none_left : literal ≡ 0 = (==_iff literal 0).0 t in
    let c : ℕ = (literal + 255) % 256 in
    let l : inv.lits ≡ [] = nothing inv.lits (sym inv.count ∙ none_left) in
    let q : take iidx input ≡ inv.done =
      inv.taken ∙ ap (λ z. inv.done ++ z) l ∙ append-nil inv.done in
    (
      front (inv.enc ++ c ∷ (inv.lits ++ inv.room)),
      closed input output iidx oidx literal inv,
      record {
        enc = inv.enc;
        room = c ∷ (inv.lits ++ inv.room);
        laid = refl;
        place = rw t (omega (arith, inv.place, inv.count));
        total = omega (arith, inv.total, length-append inv.lits inv.room);
        decodes = subst (Decodes (length input) inv.enc) (sym q) inv.decodes;
        are_bytes = inv.are_bytes;
      },
    )

closed_some :
    (input output : Bytes) (iidx oidx literal : ℕ)
    → IsBytes input
    → Inv input output iidx oidx literal
    → (literal == 0) ≡ false
    → Closes input output iidx oidx literal
unfolding Closes
closed_some input output iidx oidx literal all_bytes inv t =
    let left : 0 < literal = ground arith in
    let c : ℕ = (literal + 255) % 256 in
    let q : (length inv.lits + 255) % 256 ≡ c = omega (arith, inv.count) in
    let e : length (inv.enc ++ c ∷ inv.lits) ≡ length inv.enc + 1 + length inv.lits =
      length-append inv.enc (c ∷ inv.lits) ∙ omega arith in
    let b : IsBytes inv.lits =
      IsBytes-right inv.done inv.lits
        (subst IsBytes inv.taken (IsBytes-take input iidx all_bytes)) in
    let d : Decodes (length input) (inv.enc ++ ((length inv.lits + 255) % 256) ∷ inv.lits)
        (inv.done ++ inv.lits) =
      Decodes-literal (length input) inv.enc inv.done inv.lits inv.decodes
        (omega (arith, inv.count)) (omega (arith, inv.few))
        (omega (arith, parts inv, inv.within)) in
    (
      front (inv.enc ++ c ∷ (inv.lits ++ inv.room)),
      closed input output iidx oidx literal inv,
      record {
        enc = inv.enc ++ c ∷ inv.lits;
        room = inv.room;
        laid = ap front (sym (append_assoc inv.enc (c ∷ inv.lits) inv.room));
        place = rw t (omega (arith, inv.place));
        total = omega (arith, inv.total);
        decodes =
            subst (λ m. Decodes (length input) (inv.enc ++ m ∷ inv.lits) (take iidx input)) q
              (subst
                (Decodes (length input) (inv.enc ++ ((length inv.lits + 255) % 256) ∷ inv.lits))
                (sym inv.taken) d);
        are_bytes = IsBytes-append inv.enc (c ∷ inv.lits) inv.are_bytes (omega arith, b);
      },
    )

-- `close_literal`, and the slot given back where no literal waits.
pub close-Open :
    (input output : Bytes) (iidx oidx literal : ℕ)
    → IsBytes input
    → Inv input output iidx oidx literal
    → Closes input output iidx oidx literal
close-Open input output iidx oidx literal all_bytes inv = elim (Bool-cases (literal == 0)) [
  | inl t ↦ closed_none input output iidx oidx literal inv t
  | inr t ↦ closed_some input output iidx oidx literal all_bytes inv t
]

-- The output behind the bytes of a reference.
pub write-reference_bytes :
    (enc : Bytes) (x y z : ℕ) (room : Bytes) (oidx offset n : ℕ)
    → oidx ≡ 4 + length enc
    → (w : Bytes × ℕ) × (write_length (front (enc ++ x ∷ y ∷ z ∷ room)) oidx offset n ≡ ok w)
      × (rest : Bytes) × (write_at {E = Fuel} w.0 w.1 (offset % 256)
          ≡ ok (front ((enc ++ reference_bytes offset n) ++ rest)))
      × (w.1 + 1 ≡ 4 + length (enc ++ reference_bytes offset n))
      × (length (reference_bytes offset n) + length rest ≡ 3 + length room)
unfolding write_length
write-reference_bytes enc x y z room oidx offset n h = elim (Bool-cases (ltb n 7)) [
  | inl t ↦
      let p : ℕ = (offset / 256 + n * 32) % 256 in
      let q : ℕ = offset % 256 in
      let l : length (enc ++ p ∷ q ∷ []) ≡ length enc + 2 = length-append enc (p ∷ q ∷ []) in
      (
        (front (enc ++ p ∷ y ∷ z ∷ room), oidx + 1),
        rw (t, put_front enc x (y ∷ z ∷ room) oidx p h) refl,
        z ∷ room,
        rw t (
            put_behind enc p [] y (z ∷ room) (oidx + 1) q (omega arith)
            ∙ ap (λ b. ok (front b)) (sym (append_assoc enc (p ∷ q ∷ []) (z ∷ room)))),
        rw t (omega arith),
        rw t (omega arith),
      )
  | inr t ↦
      let p : ℕ = (offset / 256 + 7 * 32) % 256 in
      let m : ℕ = (n - 7) % 256 in
      let q : ℕ = offset % 256 in
      let l : length (enc ++ p ∷ m ∷ q ∷ []) ≡ length enc + 3 =
        length-append enc (p ∷ m ∷ q ∷ []) in
      (
        (front (enc ++ p ∷ m ∷ z ∷ room), oidx + 2),
        rw
            (
              t,
              put_front enc x (y ∷ z ∷ room) oidx p h,
              put_behind enc p [] y (z ∷ room) (oidx + 1) m (omega arith),
            )
            refl,
        room,
        rw t (
            put_behind enc p (m ∷ []) z room (oidx + 2) q (omega arith)
            ∙ ap (λ b. ok (front b)) (sym (append_assoc enc (p ∷ m ∷ q ∷ []) room))),
        rw t (omega arith),
        rw t (omega arith),
      )
]
