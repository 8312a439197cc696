-- ===== src/Lzf.antt =====
-- lzf/lzf.go: `Decompress`.
--
-- `iidx`, `oidx`, `length` and `outputLength` are 32-bit words, `backref` is an `int64` that is set
-- from one. The output is the buffer that the code makes, and an index out of range panics.
pub mod Format
pub mod Copy
pub mod Rounds
pub mod References
pub mod BackRounds
pub mod Decode
pub mod Streams
pub mod Compress
mod Tests
use golly.Base.{
  ℕ, zero, suc, ◌+◌, ◌-◌, ◌*◌, ◌/◌, ◌%◌, Bool, true, false, Option, none, some, List, [], ◌∷◌,
  Bytes, if◌then◌else◌, ltb, leb, ◌==◌,
}
use golly.Base.Calls.{ok, err, out_of_fuel, ◌>>=◌, read_at, write_at, Run}
use golly.Base.Lists.{length, replicate}

abbrev pub word : ℕ → ℕ
word n = n % 4294967296

abbrev pub max_size : ℕ
max_size = 1073741824

-- What a round of the loop leaves, the output and the indexes `iidx` and `oidx`; or `none` where it
-- returns nil.
abbrev pub Round : Type 0
Round = Run (Option (Bytes × ℕ × ℕ))

unfoldable pub copy_literal : ℕ → Bytes → Bytes → ℕ → ℕ → Run Bytes
copy_literal zero input output iidx oidx = ok output
copy_literal (suc n) input output iidx oidx = read_at input iidx >>= λ b.
    write_at output oidx b >>= λ output'. copy_literal n input output' (iidx + 1) (oidx + 1)

-- A literal reference; `iidx` is behind the control byte.
unfoldable pub literal : ℕ → Bytes → ℕ → Bytes → ℕ → ℕ → Round
unfolding copy_literal
literal ctrl input limit output iidx oidx =
    if ltb limit (word (oidx + (ctrl + 1)))
    then ok none
    else if ltb (length input) (word (iidx + (ctrl + 1)))
    then ok none
    else copy_literal (ctrl + 1) input output iidx oidx >>= λ output'.
        ok (some (output', iidx + (ctrl + 1), oidx + (ctrl + 1)))

-- The copies of a back reference: two, and then one for each unit of `length`, which is at least 1.
unfoldable pub copy_back : ℕ → Bytes → ℕ → ℕ → Run Bytes
copy_back zero output backref oidx = ok output
copy_back (suc n) output backref oidx = read_at output backref >>= λ b.
    write_at output oidx b >>= λ output'. copy_back n output' (backref + 1) (oidx + 1)

-- The length of a back reference, with the index behind it; `none` where the input ends.
unfoldable pub read_length : ℕ → Bytes → ℕ → Run (Option (ℕ × ℕ))
read_length ctrl input iidx =
    if ctrl / 32 == 7
    then (read_at input iidx >>= λ b.
        ok (if leb (length input) (iidx + 1) then none else some (ctrl / 32 + b, iidx + 1)))
    else ok (some (ctrl / 32, iidx))

-- The part behind the reading of the length: `backref` before the low byte is taken off is a word.
unfoldable pub refer : ℕ → ℕ → Bytes → ℕ → Bytes → ℕ → ℕ → Round
unfolding copy_back
refer ctrl n input limit output iidx oidx = read_at input iidx >>= λ low.
    let start = word (oidx + 4294967296 - (ctrl % 32) * 256 - 1) in
    if ltb limit (word (oidx + n + 2))
    then ok none
    else if ltb start low
    then ok none
    else copy_back (n + 2) output (start - low) oidx >>= λ output'.
        ok (some (output', iidx + 1, oidx + (n + 2)))

-- A back reference; `iidx` is behind the control byte.
unfoldable pub back_reference : ℕ → Bytes → ℕ → Bytes → ℕ → ℕ → Round
unfolding read_length refer
back_reference ctrl input limit output iidx oidx =
    if leb (length input) iidx
    then ok none
    else read_length ctrl input iidx >>= λ read. elim read [
      | none ↦ ok none
      | some (n, iidx') ↦ refer ctrl n input limit output iidx' oidx
    ]

-- The body of the loop.
unfoldable pub round : Bytes → ℕ → Bytes → ℕ → ℕ → Round
unfolding literal back_reference
round input limit output iidx oidx = read_at input iidx >>= λ ctrl.
    if ltb ctrl 32
    then literal ctrl input limit output (iidx + 1) oidx
    else back_reference ctrl input limit output (iidx + 1) oidx

unfoldable pub expand : ℕ → Bytes → ℕ → Bytes → ℕ → ℕ → Run (Option Bytes)
unfolding round
expand zero input limit output iidx oidx = err out_of_fuel
expand (suc fuel) input limit output iidx oidx = elim (ltb iidx (length input)) [
  | false ↦ ok (some output)
  | true ↦ round input limit output iidx oidx >>= λ r. elim r [
    | none ↦ ok none
    | some (output', iidx', oidx') ↦ expand fuel input limit output' iidx' oidx'
  ]
]

-- `Decompress`.
unfoldable pub decompress : Bytes → Run (Option Bytes)
unfolding expand
decompress input =
    if leb (length input) 4
    then ok none
    else read_at input 0 >>= λ a. read_at input 1 >>= λ b. read_at input 2 >>= λ c.
        read_at input 3 >>= λ d.
        let limit = a * 16777216 + b * 65536 + c * 256 + d in
        if leb max_size limit
        then ok none
        else expand (length input) input limit (replicate limit 0) 4 0
