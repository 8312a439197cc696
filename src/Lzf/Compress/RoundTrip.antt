-- ===== src/Lzf/Compress/RoundTrip.antt =====
-- `Compress` and `Decompress` together.
use golly.Base.{
  ℕ, suc, ◌+◌, ◌-◌, ◌/◌, ◌%◌, ◌≤◌, ◌<◌, Option, none, some, [], ◌∷◌, ◌++◌, append-nil, ◌≡◌, refl,
  sym, ap, ◌∙◌, arith, Bytes, IsBytes,
}
use mathlib.Core.Path.{subst}
use golly.Base.Calls.{ok, Run}
use golly.Base.Lists.{length, replicate}
use golly.Lzf.{max_size, decompress}
use golly.Lzf.Format.{Verdict, gives, Unpack, at_end}
use golly.Lzf.Streams.{named_size, decompress-outcome}
use golly.Lzf.Compress.{compress, preset, LzfPreset}
use golly.Lzf.Compress.Finish.{Framed, Returns, compress-Returns}
use golly.Lzf.Compress.Stream.{Decodes-Unpack}
use golly.Lzf.Rounds.{buffer}

empty_stream :
    (limit : ℕ) {out rest : Bytes} {v : Verdict}
    → Unpack limit out rest v
    → rest ≡ []
    → (done : Bytes) → v ≡ gives done
    → length out ≡ length done
empty_stream limit (at_end out) e done f = cc
empty_stream limit u e done f = absurd (cc e)

Framed-Unpack :
    (input out : Bytes) → (f : Framed input out) → Unpack (length input) [] f.stream (gives input)
Framed-Unpack input out f =
    subst (λ s. Unpack (length input) [] s (gives input)) (append-nil f.stream)
      (Decodes-Unpack (length input) f.stream input (gives input) f.decodes (at_end input))

named :
    (n : ℕ)
    → n < max_size
    → named_size (n / 16777216 % 256) (n / 65536 % 256) (n / 256 % 256) (n % 256) ≡ n
named n h = omega arith

decompress-Framed :
    (input out : Bytes)
    → 4 < length input
    → length input < max_size
    → Framed input out
    → decompress out ≡ ok (some input)
decompress-Framed input out l u f =
    let n : ℕ = length input in
    let stream = Framed-Unpack input out f in
    let k : named_size (n / 16777216 % 256) (n / 65536 % 256) (n / 256 % 256) (n % 256) ≡ n =
      named n u in
    let p : 0 < length f.stream = not_empty f.stream refl in
    let d =
      decompress-outcome (n / 16777216 % 256) (n / 65536 % 256) (n / 256 % 256) (n % 256) f.stream
        (gives input) f.are_bytes p (omega (arith, f.short)) (omega arith)
        (subst (λ m. Unpack m [] f.stream (gives input)) (sym k) stream) in
    ap decompress f.frame
    ∙ d
    ∙ ap (λ m. ok (some (buffer m input))) k
    ∙ ap (λ o. ok (some o))
        (let z : n - n ≡ 0 = omega arith in ap (λ m. input ++ replicate m 0) z ∙ append-nil input)
  where
    not_empty : (rest : Bytes) → f.stream ≡ rest → 0 < length f.stream
    not_empty [] e =
        absurd (omega (arith, empty_stream (length input) (Framed-Unpack input out f) e input refl))
    not_empty (x ∷ rest) e =
        let q : length f.stream ≡ suc (length rest) = ap length e in omega arith

pub compress_ends :
    (input : Bytes)
    → IsBytes input
    → (o : Option Bytes) × (compress input ≡ ok o)
      × ((out : Bytes)
          → o ≡ some out
          → IsBytes out
            × length out ≤ length input + 4
            × 4 < length input
            × length input < max_size)
unfolding Returns
compress_ends input h =
    let (o, runs, returns) = compress-Returns input h in
    (
      o,
      runs,
      λ out e.
          let (l, u, f) = subst (Returns input) e returns in
          let n : ℕ = length input in
          let b : IsBytes out =
            subst IsBytes (sym f.frame)
              (omega arith, (omega arith, (omega arith, (omega arith, f.are_bytes)))) in
          (b, omega (arith, ap length f.frame, f.short), l, u),
    )

pub decompress-compress :
    (input out : Bytes)
    → IsBytes input
    → compress input ≡ ok (some out)
    → decompress out ≡ ok (some input)
unfolding Returns
decompress-compress input out h e =
    let (o, runs, returns) = compress-Returns input h in
    let q : o ≡ some out = cc in
    let (l, u, f) = subst (Returns input) q returns in decompress-Framed input out l u f

-- Where `Preset` returns a preset, the preset keeps the dictionary, its length, and bytes that `Decompress` gives the dictionary back for.
pub decompress-preset :
    (input : Bytes) (p : LzfPreset)
    → IsBytes input
    → preset input ≡ ok (some p)
    → (p.dict ≡ input) × (p.len ≡ length input) × (decompress p.compressed ≡ ok (some input))
unfolding preset
decompress-preset input p h e = let (o, runs, q) = compress_ends input h in by_result o runs
  where
    by_result :
        (o : Option Bytes)
        → compress input ≡ ok o
        → (p.dict ≡ input) × (p.len ≡ length input) × (decompress p.compressed ≡ ok (some input))
    by_result none runs =
        let q : ◌≡◌ {A = Run (Option LzfPreset)} (ok none) (ok (some p)) = rw runs at e in
        absurd (cc q)
    by_result (some out) runs =
        let made : LzfPreset = record { dict = input; len = length input; compressed = out } in
        let q : ◌≡◌ {A = Run (Option LzfPreset)} (ok (some made)) (ok (some p)) = rw runs at e in
        let r : made ≡ p = cc q in
        subst
          (λ p.
            (p.dict ≡ input) × (p.len ≡ length input) × (decompress p.compressed ≡ ok (some input)))
          r (refl, refl, decompress-compress input out h runs)
