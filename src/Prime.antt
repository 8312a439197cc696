-- ===== src/Prime.antt =====
-- prime/prime.go: a random prime number of a range, picked from a table.
--
-- The table is the generated file prime/numbers.go, a parameter here; it has fewer than 2 ^ 32
-- numbers. What `rand.Read` gives is the bytes that it read, or nothing on an error.
pub mod Loops
pub mod Ranges
mod Tests
use golly.Base.{
  ℕ, zero, suc, ◌+◌, ◌-◌, ◌*◌, ◌%◌, Bool, true, false, not, Option, none, some, List, [], ◌∷◌,
  Bytes, if◌then◌else◌, ltb, leb, ◌==◌,
}
use golly.Base.Calls.{Outcome, ok, err, panic, ◌>>=◌, read_at}
use golly.Base.Int.{ℤ, pos, negsuc}
use golly.Base.Lists.{length, get_or, drop}

pub data Failure : Type 0 where
  none_available no_random short_read : Failure

-- `Max`
abbrev pub max_of : List ℕ → ℕ
max_of table = get_or table (length table - 1) 0

-- `binary.BigEndian.Uint32` of four bytes.
abbrev pub big_endian : Bytes → ℕ → ℕ
big_endian [] n = n
big_endian (b ∷ bs) n = big_endian bs (n * 256 + b)

unfoldable pub get_random_prime : List ℕ → ℕ → ℕ → Option Bytes → Outcome Failure ℕ
get_random_prime table init count random = elim random [
  | none ↦ err no_random
  | some buf ↦
      if not (length buf == 4)
      then err short_read
      else if count == 0
      then panic
      else read_at table (init + big_endian buf 0 % count)
]

-- The first loop of `Between`, at index `i`; the list is what the table has from there on.
unfoldable pub skip_below : ℕ → List ℕ → ℕ → Outcome Failure ℕ
skip_below start [] i = panic
skip_below start (x ∷ xs) i = if ltb x start then skip_below start xs (i + 1) else ok i

-- The second loop: how often it goes round.
unfoldable pub count_up_to : ℕ → List ℕ → ℕ
count_up_to end [] = 0
count_up_to end (x ∷ xs) = if leb x end then suc (count_up_to end xs) else 0

-- `Between` behind its first test.
unfoldable pub pick_between : List ℕ → ℕ → ℕ → Option Bytes → Outcome Failure ℕ
unfolding get_random_prime skip_below count_up_to
pick_between table start end random = skip_below start table 0 >>= λ init.
    let count = count_up_to end (drop init table) in
    if count == 0 then err none_available else get_random_prime table init count random

unfoldable pub between : List ℕ → ℤ → ℤ → Option Bytes → Outcome Failure ℕ
unfolding pick_between
between table (negsuc m) end random = err none_available
between table (pos start) (negsuc n) random = err none_available
between table (pos start) (pos end) random =
    if leb end start
    then err none_available
    else if ltb (max_of table) end
    then err none_available
    else if ltb (max_of table) start
    then err none_available
    else pick_between table start end random

unfoldable pub select : List ℕ → Option Bytes → Outcome Failure ℕ
unfolding get_random_prime
select table random = get_random_prime table 0 (length table) random
