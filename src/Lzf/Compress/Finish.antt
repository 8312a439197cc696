-- ===== src/Lzf/Compress/Finish.antt =====
-- What `Compress` returns: a header, and a stream that stands for the input.
use golly.Base.{
  ℕ, suc, ◌+◌, ◌-◌, ◌/◌, ◌%◌, ◌≤◌, ◌<◌, false, ◌||◌, inl, inr, Bool-cases, Option, none, some, [],
  ◌∷◌, ◌++◌, ◌≡◌, refl, ap, arith, Bytes, IsBytes, ltb, leb, ltb→le, le→ltb,
}
use mathlib.Core.Path.{subst}
use golly.Base.Calls.{Fuel, read_at-get_or, ok, ◌>>=◌}
use golly.Base.Lists.{take-append, length, length-append, length-replicate, replicate, get_or}
use golly.Lzf.{max_size}
use golly.Lzf.Compress.{Packer, put_size, pack, copy_rest, finish, start, compress}
use golly.Lzf.Compress.Buffer.{take-all}
use golly.Lzf.Compress.Steps.{Holds}
use golly.Lzf.Compress.Turns.{Fresh}
use golly.Lzf.Compress.Writes.{oidx_closed, Closes, close-Open}
use golly.Lzf.Compress.Stream.{Decodes, Decodes-nil}
use golly.Lzf.Compress.Loops.{Packed, pack-Packed, copy_rest-Holds}

-- The header for the size, and a stream that stands for the input.
pub record Framed (input out : Bytes) : Type 0 where
  pub stream : Bytes
  pub frame :
      out
      ≡ (length input / 16777216 % 256)
        ∷ (length input / 65536 % 256)
        ∷ (length input / 256 % 256)
        ∷ (length input % 256)
        ∷ stream
  pub decodes : Decodes (length input) stream input
  pub are_bytes : IsBytes stream
  pub short : length stream ≤ length input

finish-Framed :
    (input : Bytes) (s : Packer)
    → IsBytes input
    → Holds input s
    → s.iidx ≡ length input
    → (out : Bytes) × (finish input s ≡ ok (some out)) × Framed input out
unfolding finish Closes
finish-Framed input s all_bytes holds end =
    let (output, c, opened) = close-Open input s.output s.iidx s.oidx s.literal all_bytes holds in
    let enc : Bytes = opened.enc in
    let header : Bytes → Bytes = λ xs.
      (length input / 16777216 % 256)
      ∷ (length input / 65536 % 256)
      ∷ (length input / 256 % 256)
      ∷ (length input % 256)
      ∷ xs in
    let p : put_size output (length input) ≡ ok (header (enc ++ opened.room)) =
      ap (λ o. put_size o (length input)) opened.laid in
    let l : oidx_closed s.oidx s.literal ≡ length (header enc) = omega (arith, opened.place) in
    let t : ltb (length (header (enc ++ opened.room))) (oidx_closed s.oidx s.literal) ≡ false =
      le→ltb _ _ (omega (arith, length-append enc opened.room)) in
    (
      header enc,
      rw (c, p, t) (ap (λ o. ok (some o)) (take-append (header enc) opened.room _ l)),
      record {
        stream = enc;
        frame = refl;
        decodes = subst (Decodes (length input) enc) (take-all input s.iidx end) opened.decodes;
        are_bytes = opened.are_bytes;
        short = omega (arith, opened.total);
      },
    )

start-Holds : (input : Bytes) (a b : ℕ) → 0 < length input → Holds input (start input a b)
start-Holds input a b h = record {
  enc = [];
  slot = 0;
  lits = [];
  room = replicate (length input - 1) 0;
  done = [];
  laid =
      (let e : length input + 4 ≡ suc (suc (suc (suc (suc (length input - 1))))) = omega arith in
        ap (λ m. replicate m 0) e);
  place = refl;
  count = refl;
  total = omega (arith, length-replicate {A = ℕ} (length input - 1) 0);
  taken = refl;
  within = omega arith;
  decodes = Decodes-nil (length input);
  are_bytes = tt;
  few = omega arith;
}

-- What `Compress` returns: nil, or a framed stream; and not every input can have one.
unfoldable pub Returns : Bytes → Option Bytes → Type 0
Returns input none = Unit
Returns input (some out) = (4 < length input) × (length input < max_size) × Framed input out

sized :
    (input : Bytes)
    → (leb (length input) 4 || leb max_size (length input)) ≡ false
    → (4 < length input) × (length input < max_size)
sized input t = (ground arith, ground arith)

packed-Returns :
    (input : Bytes) (s : Packer)
    → IsBytes input
    → (4 < length input) × (length input < max_size)
    → Holds input s
    → length input ≤ s.iidx + 2
    → s.oidx ≤ length input + 1
    → (out : Bytes) × ((copy_rest (length input + 1) input s >>= λ s'. finish input s')
        ≡ ok (some out))
      × Returns input (some out)
unfolding Returns
packed-Returns input s all_bytes (l, u) holds near room =
    let (s', runs, holds', end) = copy_rest-Holds input all_bytes s holds near room in
    let (out, done, framed) = finish-Framed input s' all_bytes holds' end in
    (out, rw runs done, (l, u, framed))

pub compress-Returns :
    (input : Bytes) → IsBytes input → (o : Option Bytes) × (compress input ≡ ok o) × Returns input o
unfolding compress Packed Returns Fresh
compress-Returns input all_bytes =
    elim (Bool-cases (leb (length input) 4 || leb max_size (length input))) [
      | inl t ↦ (none, rw t refl, tt)
      | inr t ↦
          let (l, u) = sized input t in
          let a : ℕ = get_or input 0 0 in
          let b : ℕ = get_or input 1 0 in
          let r0 = read_at-get_or {E = Fuel} input 0 0 (omega arith) in
          let r1 = read_at-get_or {E = Fuel} input 1 0 (omega arith) in
          let (o, runs, packed) =
            pack-Packed input all_bytes (length input + 1) (start input a b)
              (start-Holds input a b (omega arith)) (λ k h. absurd (omega arith)) (omega arith) in
          elim o
              as (λ o.
                pack (length input + 1) input (start input a b) ≡ ok o
                → Packed input o
                → (q : Option Bytes) × (compress input ≡ ok q) × Returns input q) [
                  | none ↦ λ runs packed. (none, rw (t, r0, r1, runs) refl, tt)
                  | some s ↦ λ runs (holds, near).
                      elim (Bool-cases (ltb (length input) (s.oidx - 1))) [
                        | inl f ↦ (none, rw (t, r0, r1, runs, f) refl, tt)
                        | inr f ↦
                            let (out, done, returns) =
                              packed-Returns input s all_bytes (l, u) holds near
                                (omega (arith, ltb→le _ _ f)) in
                            (some out, rw (t, r0, r1, runs, f) done, returns)
                      ]
                ]
            runs packed
    ]
