-- ===== src/Lzf/Format.antt =====
-- The format that the comment above `Compress` describes, without buffers and indexes: what a
-- stream of literal and back references stands for.
use golly.Base.{
  ℕ, zero, suc, ◌+◌, ◌-◌, ◌*◌, ◌/◌, ◌%◌, ◌≤◌, ◌<◌, Option, none, some, [], ◌∷◌, ◌++◌, ◌≡◌, Bytes,
  if◌then◌else◌, ◌==◌,
}
use golly.Base.Lists.{length, get_or}

pub data Verdict : Type 0 where
  gives : Bytes → Verdict
  refuses panics : Verdict

-- The last bytes again, `n` bytes at the distance `d` behind the end, which may reach into what is
-- being written.
abbrev pub repeated : ℕ → ℕ → Bytes → Bytes
repeated zero d out = out
repeated (suc n) d out = repeated n d (out ++ get_or out (length out - d) 0 ∷ [])

abbrev pub high_part : ℕ → ℕ
high_part c = (c % 32) * 256 + 1

-- The reference that begins with the control byte `c`: its length, its distance and what is behind it.
abbrev pub read_reference : ℕ → Bytes → Option (ℕ × ℕ × Bytes)
read_reference c [] = none
read_reference c (b ∷ []) = if c / 32 == 7 then none else some (c / 32, high_part c + b, [])
read_reference c (b ∷ low ∷ rest) =
    if c / 32 == 7
    then some (7 + b, high_part c + low, rest)
    else some (c / 32, high_part c + b, low ∷ rest)

-- Behind the output `out`, the rest of the stream comes to the verdict.
pub data Unpack (limit : ℕ) : Bytes → Bytes → Verdict → Type 0 where
  at_end : (out : Bytes) → Unpack limit out [] (gives out)
  literal_fits :
      (c : ℕ) (out run rest : Bytes) (v : Verdict)
      → c < 32
      → length run ≡ c + 1
      → length out + length run ≤ limit
      → Unpack limit (out ++ run) rest v
      → Unpack limit out (c ∷ run ++ rest) v
  literal_over :
      (c : ℕ) (out rest : Bytes)
      → c < 32
      → limit < length out + (c + 1)
      → Unpack limit out (c ∷ rest) refuses
  literal_cut :
      (c : ℕ) (out rest : Bytes)
      → c < 32
      → length rest < c + 1
      → Unpack limit out (c ∷ rest) refuses
  back_cut :
      (c : ℕ) (out rest : Bytes)
      → 32 ≤ c
      → read_reference c rest ≡ none
      → Unpack limit out (c ∷ rest) refuses
  back_over :
      (c n d : ℕ) (out rest rest' : Bytes)
      → 32 ≤ c
      → read_reference c rest ≡ some (n, d, rest')
      → limit < length out + n + 2
      → Unpack limit out (c ∷ rest) refuses
  back_far :
      (c n d : ℕ) (out rest rest' : Bytes)
      → 32 ≤ c
      → read_reference c rest ≡ some (n, d, rest')
      → length out + n + 2 ≤ limit
      → length out < d
      → high_part c ≤ length out
      → Unpack limit out (c ∷ rest) refuses
  back_wraps :
      (c n d : ℕ) (out rest rest' : Bytes)
      → 32 ≤ c
      → read_reference c rest ≡ some (n, d, rest')
      → length out + n + 2 ≤ limit
      → length out < high_part c
      → Unpack limit out (c ∷ rest) panics
  back_fits :
      (c n d : ℕ) (out rest rest' : Bytes) (v : Verdict)
      → 32 ≤ c
      → read_reference c rest ≡ some (n, d, rest')
      → length out + n + 2 ≤ limit
      → d ≤ length out
      → Unpack limit (repeated (n + 2) d out) rest' v
      → Unpack limit out (c ∷ rest) v
