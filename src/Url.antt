-- ===== src/Url.antt =====
-- url/url.go: quoting and unquoting of URLs.
--
-- A string is its list of bytes. A loop over an index is a recursion on the bytes from that index
-- on; the output buffer, its cursor `j` and a write out of the buffer's range are as in the code.
pub mod Decode
pub mod Escape
pub mod RoundTrip
mod Tests
use Prim.Native.Nat.{bit_and, bit_or}
use golly.Base.{
  ℕ, ◌+◌, ◌-◌, ◌*◌, ◌/◌, ◌%◌, ◌^◌, Bool, true, false, not, ◌&&◌, ◌||◌, List, [], ◌∷◌, Bytes, codes,
  length, take, replicate, ltb, leb, ◌==◌, if◌then◌else◌, Outcome, ok, err, panic, ◌>>=◌, read_at,
  write_at,
}

-- A `for` loop with an early return, or a `switch` over constants: is `c` among them?
unfoldable pub is_one_of : ℕ → Bytes → Bool
is_one_of c [] = false
is_one_of c (d ∷ ds) = c == d || is_one_of c ds

unfoldable pub should_escape : ℕ → Bool
unfolding is_one_of
should_escape c =
    if leb c b' ' || leb 0x7F c then true else is_one_of c (codes "<>#%\"{}|\\^[]`?&=+@;:$,")

unfoldable pub should_escape_custom : ℕ → Bytes → Bool
unfolding is_one_of
should_escape_custom c safe =
    if is_one_of c safe
    then false
    else if leb c b',' || leb 0x7B c
    then true
    else is_one_of c (codes "<>#%\"\\^[]`?&=+@;:/")

unfoldable pub ishex : ℕ → Bool
ishex c =
    if leb b'0' c && leb c b'9'
    then true
    else if leb b'a' c && leb c b'f'
    then true
    else if leb b'A' c && leb c b'F'
    then true
    else false

-- Byte arithmetic: each difference is taken in a branch where it is not negative.
unfoldable pub unhex : ℕ → ℕ
unhex c =
    if leb b'0' c && leb c b'9'
    then c - b'0'
    else if leb b'a' c && leb c b'f'
    then c - b'a' + 10
    else if leb b'A' c && leb c b'F'
    then c - b'A' + 10
    else 0

-- `unhex(a)<<4 | unhex(b)`, in bytes
unfoldable pub join_hex : ℕ → ℕ → ℕ
unfolding unhex
join_hex a b = bit_or (unhex a * 2 ^ 4 % 256) (unhex b)

-- An `url.EscapeError` is the text that it quotes.
abbrev pub Result : Type 0 → Type 0
Result A = Outcome Bytes A

-- The first loop of `urlUnescape`: `n` counts escapes, the text is checked.
unfoldable pub scan : Bool → Bytes → ℕ → Bool → Result (ℕ × Bool)
unfolding ishex
scan do_plus [] n has_plus = ok (n, has_plus)
scan do_plus (c ∷ []) n has_plus =
    if c == b'%' then err (c ∷ []) else ok (n, if c == b'+' then do_plus else has_plus)
scan do_plus (c ∷ a ∷ []) n has_plus = elim (c == b'%') [
  | true ↦ err (c ∷ a ∷ [])
  | false ↦ scan do_plus (a ∷ []) n (if c == b'+' then do_plus else has_plus)
]
scan do_plus (c ∷ a ∷ b ∷ s) n has_plus = elim (c == b'%') [
  | true ↦ elim (not (ishex a) || not (ishex b)) [
    | true ↦ err (take 3 (c ∷ a ∷ b ∷ s))
    | false ↦ scan do_plus s (n + 1) has_plus
  ]
  | false ↦ scan do_plus (a ∷ b ∷ s) n (if c == b'+' then do_plus else has_plus)
]

-- The byte that the second loop writes for an unescaped `c`.
unfoldable pub unplus : Bool → ℕ → ℕ
unplus do_plus c = if c == b'+' then (if do_plus then b' ' else b'+') else c

-- The second loop of `urlUnescape`: `s[i+1]` behind the end would panic.
unfoldable pub fill : Bool → Bytes → Bytes → ℕ → Result Bytes
unfolding join_hex unplus
fill do_plus [] t j = ok t
fill do_plus (c ∷ []) t j =
    if c == b'%'
    then panic
    else (write_at t j (unplus do_plus c) >>= λ u. fill do_plus [] u (j + 1))
fill do_plus (c ∷ a ∷ []) t j = elim (c == b'%') [
  | true ↦ panic
  | false ↦ write_at t j (unplus do_plus c) >>= λ u. fill do_plus (a ∷ []) u (j + 1)
]
fill do_plus (c ∷ a ∷ b ∷ s) t j = elim (c == b'%') [
  | true ↦ write_at t j (join_hex a b) >>= λ u. fill do_plus s u (j + 1)
  | false ↦ write_at t j (unplus do_plus c) >>= λ u. fill do_plus (a ∷ b ∷ s) u (j + 1)
]

unfoldable pub url_unescape : Bytes → Bool → Result Bytes
unfolding scan fill
url_unescape s do_plus = do
  (n, has_plus) ← scan do_plus s 0 false
  if n == 0 && not has_plus then ok s else fill do_plus s (replicate (length s - 2 * n) 0) 0

-- The first loop of `urlEscape` and of `urlEscapeCustom`, which differ in the test `esc` alone:
-- `spaceCount` and `hexCount`.
unfoldable pub tally : (ℕ → Bool) → Bool → Bytes → ℕ → ℕ → ℕ × ℕ
tally esc do_plus [] spaces hexes = (spaces, hexes)
tally esc do_plus (c ∷ s) spaces hexes =
    let plus = c == b' ' && do_plus in
    tally esc do_plus s (if esc c then (if plus then spaces + 1 else spaces) else spaces)
      (if esc c then (if plus then hexes else hexes + 1) else hexes)

-- `"0123456789abcdef"[d]`
unfoldable pub hex_digit : ℕ → Result ℕ
hex_digit d = read_at (codes "0123456789abcdef") d

-- One round of the second loop: the buffer and the cursor behind it.
unfoldable pub put_byte : (ℕ → Bool) → Bool → ℕ → Bytes → ℕ → Result (Bytes × ℕ)
unfolding hex_digit
put_byte esc do_plus c t j =
    if c == b' ' && do_plus
    then (do t ← write_at t j b'+'; ok (t, j + 1))
    else if esc c
    then (do
      t ← write_at t j b'%'
      hi ← hex_digit (c / 2 ^ 4)
      t ← write_at t (j + 1) hi
      lo ← hex_digit (bit_and c 15)
      t ← write_at t (j + 2) lo
      ok (t, j + 3))
    else (do t ← write_at t j c; ok (t, j + 1))

unfoldable pub spell : (ℕ → Bool) → Bool → Bytes → Bytes → ℕ → Result Bytes
unfolding put_byte
spell esc do_plus [] t j = ok t
spell esc do_plus (c ∷ s) t j = do (t, j) ← put_byte esc do_plus c t j; spell esc do_plus s t j

unfoldable pub escape_by : (ℕ → Bool) → Bool → Bytes → Result Bytes
unfolding tally spell
escape_by esc do_plus s =
    let (spaces, hexes) = tally esc do_plus s 0 0 in
    if spaces == 0 && hexes == 0
    then ok s
    else spell esc do_plus s (replicate (length s + 2 * hexes) 0) 0

unfoldable pub url_escape : Bytes → Bool → Result Bytes
unfolding escape_by should_escape
url_escape s do_plus = escape_by should_escape do_plus s

unfoldable pub url_escape_custom : Bytes → Bool → Bytes → Result Bytes
unfolding escape_by should_escape_custom
url_escape_custom s do_plus safe = escape_by (λ c. should_escape_custom c safe) do_plus s

unfoldable pub quote : Bytes → Result Bytes
unfolding url_escape
quote s = url_escape s false

unfoldable pub quote_custom : Bytes → Bytes → Result Bytes
unfolding url_escape_custom
quote_custom s safe = url_escape_custom s false safe

unfoldable pub quote_plus : Bytes → Result Bytes
unfolding url_escape
quote_plus s = url_escape s true

unfoldable pub quote_plus_custom : Bytes → Bytes → Result Bytes
unfolding url_escape_custom
quote_plus_custom s safe = url_escape_custom s true safe

unfoldable pub unquote : Bytes → Result Bytes
unfolding url_unescape
unquote s = url_unescape s false

unfoldable pub unquote_plus : Bytes → Result Bytes
unfolding url_unescape
unquote_plus s = url_unescape s true
