-- ===== src/Lzf/Compress.antt =====
-- lzf/lzf.go: `Compress` and `Preset`.
--
-- The input is shorter than 2 ^ 30, and the 32-bit indexes stay below its length and 4, so their sums
-- and differences are the plain ones; the words that the hash is made of wrap. The hash table is a
-- function of the slot, a 16-bit number wherever the code takes one.
pub mod Buffer
pub mod Matches
pub mod Stream
pub mod Steps
pub mod Writes
pub mod Turns
pub mod References
pub mod Rounds
pub mod Loops
pub mod Finish
pub mod RoundTrip
mod Tests
use Prim.Native.Nat.{bit_or}
use golly.Base.{
  ℕ, zero, suc, ◌+◌, ◌-◌, ◌*◌, ◌/◌, ◌%◌, Bool, true, false, not, ◌&&◌, ◌||◌, Option, none, some,
  List, [], ◌∷◌, Bytes, if◌then◌else◌, ltb, leb, ◌==◌,
}
use golly.Base.Calls.{ok, err, panic, out_of_fuel, ◌>>=◌, read_at, write_at, Run}
use golly.Base.Lists.{length, replicate, take}
use golly.Lzf.{word, max_size}

abbrev pub max_literal : ℕ
max_literal = 32

abbrev pub max_offset : ℕ
max_offset = 8192

abbrev pub max_backref : ℕ
max_backref = 264

pub record Packer : Type 0 where
  pub output : Bytes
  pub iidx : ℕ
  pub oidx : ℕ
  pub literal : ℕ
  pub table : ℕ → ℕ
  pub hval : ℕ

-- How a round of the loop ends: the loop goes on, it is left by `break`, or nil is returned.
pub data Progress : Type 0 where
  goes_on breaks : Packer → Progress
  gives_nil : Progress

abbrev pub shift_in : ℕ → ℕ → ℕ
shift_in hval b = bit_or (word (hval * 256)) b

abbrev pub slot_of : ℕ → ℕ
slot_of hval = word (hval / 256 + 4294967296 - word (hval * 5)) % 65536

-- `hashTable[slot] = i`
abbrev pub put : (ℕ → ℕ) → ℕ → ℕ → ℕ → ℕ
put table slot i k = if k == slot then i else table k

unfoldable pub same_at : Bytes → ℕ → ℕ → Run Bool
same_at input p q = read_at input p >>= λ a. read_at input q >>= λ b. ok (a == b)

-- `&&` on tests that may panic.
abbrev pub and_then : Run Bool → Run Bool → Run Bool
and_then test next = test >>= λ t. elim t [ false ↦ ok false | true ↦ next ]

-- The condition of the `if`; the offset is below `max_offset`, which is a comparison of `int64`.
unfoldable pub is_match : Bytes → ℕ → ℕ → Run Bool
is_match input iidx backref =
    if ltb iidx (backref + 1 + max_offset) && (ltb (iidx + 4) (length input) && ltb 0 backref)
    then and_then (same_at input backref iidx)
        (and_then (same_at input (backref + 1) (iidx + 1)) (same_at input (backref + 2) (iidx + 2)))
    else ok false

-- The loop that finds the length of a match.
unfoldable pub extend : ℕ → Bytes → ℕ → ℕ → ℕ → ℕ → Run ℕ
extend zero input max backref iidx n = err out_of_fuel
extend (suc fuel) input max backref iidx n = elim (leb max (n + 1)) [
  | true ↦ ok (n + 1)
  | false ↦ same_at input (backref + (n + 1)) (iidx + (n + 1)) >>= λ same. elim same [
    | false ↦ ok (n + 1)
    | true ↦ extend fuel input max backref iidx (n + 1)
  ]
]

-- `output[oidx-literal-1] = byte(literal - 1)`
abbrev pub close_literal : Bytes → ℕ → ℕ → Run Bytes
close_literal output oidx literal = write_at output (oidx - literal - 1) ((literal + 255) % 256)

-- The bytes of a reference, without the last.
unfoldable pub write_length : Bytes → ℕ → ℕ → ℕ → Run (Bytes × ℕ)
write_length output oidx offset n =
    if ltb n 7
    then (write_at output oidx ((offset / 256 + n * 32) % 256) >>= λ output'.
        ok (output', oidx + 1))
    else (write_at output oidx ((offset / 256 + 7 * 32) % 256) >>= λ output'.
        write_at output' (oidx + 1) ((n - 7) % 256) >>= λ output''. ok (output'', oidx + 2))

-- The two entries that the hash table gets behind a reference, with `iidx` taken back by two.
unfoldable pub rehash : Bytes → Packer → Run Progress
rehash input s =
    let i = s.iidx - 2 in
    read_at input i >>= λ a. read_at input (i + 1) >>= λ b. read_at input (i + 2) >>= λ c.
    let h = bit_or (bit_or (a * 256) (b * 256)) c in
    read_at input (i + 1 + 2) >>= λ d.
    let h' = shift_in h d in
    ok (
      goes_on (record s {
        iidx = i + 1 + 1;
        table = put (put s.table (slot_of h) i) (slot_of h') (i + 1);
        hval = h';
      }))

unfoldable pub write_reference : Bytes → Packer → ℕ → ℕ → Run Progress
unfolding write_length rehash
write_reference input s offset n = write_length s.output s.oidx offset n >>= λ w.
    write_at w.0 w.1 (offset % 256) >>= λ output.
    let s' : Packer = record s {
      output = output;
      literal = 0;
      oidx = w.1 + 2;
      iidx = s.iidx + 1 + (n + 1);
    } in
    if leb (length input - 2) s'.iidx then ok (breaks s') else rehash input s'

abbrev pub longest : ℕ → ℕ → ℕ
longest size iidx = if ltb max_backref (size - iidx - 2) then max_backref else size - iidx - 2

-- The branch of a match.
unfoldable pub reference : Bytes → Packer → ℕ → Run Progress
unfolding extend write_reference
reference input s backref =
    if leb (length input) s.oidx && leb (length input) (s.oidx - (if ltb 0 s.literal then 0 else 1))
    then ok gives_nil
    else (close_literal s.output s.oidx s.literal >>= λ output.
        extend max_backref input (longest (length input) s.iidx) backref s.iidx 2 >>= λ n.
        write_reference input
          (record s { output = output; oidx = if s.literal == 0 then s.oidx - 1 else s.oidx })
          (s.iidx - backref - 1) (n - 2))

-- One byte is taken over, and the literal reference is closed where it has 32.
unfoldable pub copy_byte : Bytes → Packer → Run Packer
copy_byte input s = read_at input s.iidx >>= λ b. write_at s.output s.oidx b >>= λ output.
    if s.literal + 1 == max_literal
    then (close_literal output (s.oidx + 1) (s.literal + 1) >>= λ output'.
        ok (record s { output = output'; iidx = s.iidx + 1; oidx = s.oidx + 2; literal = 0 }))
    else ok (record s {
      output = output;
      iidx = s.iidx + 1;
      oidx = s.oidx + 1;
      literal = s.literal + 1;
    })

-- The body of the loop.
unfoldable pub turn : Bytes → Packer → Run Progress
unfolding is_match reference copy_byte
turn input s = read_at input (s.iidx + 2) >>= λ b.
    let h = shift_in s.hval b in
    let backref = s.table (slot_of h) in
    let s' : Packer = record s { table = put s.table (slot_of h) s.iidx; hval = h } in
    is_match input s.iidx backref >>= λ found. elim found [
      | true ↦ reference input s' backref
      | false ↦
          if leb (length input - 4) s.oidx
          then ok gives_nil
          else (copy_byte input s' >>= λ s''. ok (goes_on s''))
    ]

unfoldable pub pack : ℕ → Bytes → Packer → Run (Option Packer)
unfolding turn
pack zero input s = err out_of_fuel
pack (suc fuel) input s = elim (ltb s.iidx (length input - 2)) [
  | false ↦ ok (some s)
  | true ↦ turn input s >>= λ p. elim p [
    | goes_on s' ↦ pack fuel input s'
    | breaks s' ↦ ok (some s')
    | gives_nil ↦ ok none
  ]
]

-- The loop behind it, over the bytes that are left.
unfoldable pub copy_rest : ℕ → Bytes → Packer → Run Packer
unfolding copy_byte
copy_rest zero input s = err out_of_fuel
copy_rest (suc fuel) input s = elim (ltb s.iidx (length input)) [
  | false ↦ ok s
  | true ↦ copy_byte input s >>= λ s'. copy_rest fuel input s'
]

abbrev pub put_size : Bytes → ℕ → Run Bytes
put_size output size = write_at output 0 (size / 16777216 % 256) >>= λ output.
    write_at output 1 (size / 65536 % 256) >>= λ output.
    write_at output 2 (size / 256 % 256) >>= λ output. write_at output 3 (size % 256)

-- What follows the loops: the last literal reference, the header and the slice.
unfoldable pub finish : Bytes → Packer → Run (Option Bytes)
finish input s = close_literal s.output s.oidx s.literal >>= λ output.
    let oidx = if s.literal == 0 then s.oidx - 1 else s.oidx in
    put_size output (length input) >>= λ output'.
    if ltb (length output') oidx then panic else ok (some (take oidx output'))

abbrev pub start : Bytes → ℕ → ℕ → Packer
start input a b = record {
  output = replicate (length input + 4) 0;
  iidx = 0;
  oidx = 5;
  literal = 0;
  table = λ _. 0;
  hval = bit_or (a * 256 % 256) b;
}

unfoldable pub compress : Bytes → Run (Option Bytes)
unfolding pack copy_rest finish
compress input =
    if leb (length input) 4 || leb max_size (length input)
    then ok none
    else (read_at input 0 >>= λ a. read_at input 1 >>= λ b.
        pack (length input + 1) input (start input a b) >>= λ packed. elim packed [
          | none ↦ ok none
          | some s ↦
              if ltb (length input) (s.oidx - 1)
              then ok none
              else (copy_rest (length input + 1) input s >>= λ s'. finish input s')
        ])

-- `lzfPreset`
pub record LzfPreset : Type 0 where
  pub dict : Bytes
  pub len : ℕ
  pub compressed : Bytes

-- `Preset`
unfoldable pub preset : Bytes → Run (Option LzfPreset)
unfolding compress
preset dict = compress dict >>= λ temp. elim temp [
  | none ↦ ok none
  | some temp' ↦ ok (some (record { dict = dict; len = length dict; compressed = temp' }))
]

-- The methods `Compress` and `Decompress` of a preset.
unfoldable pub preset_compress : LzfPreset → Bytes → Run (Option Bytes)
preset_compress p input = ok none

unfoldable pub preset_decompress : LzfPreset → Bytes → Run (Option Bytes)
preset_decompress p input = ok none
