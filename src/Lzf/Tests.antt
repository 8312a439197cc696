-- ===== src/Lzf/Tests.antt =====
-- Small streams.
use golly.Base.{none, some, [], ◌∷◌, ◌++◌, ◌≡◌, refl, arith, Bytes, IsBytes, codes}
use golly.Base.Calls.{ok, panic}
use golly.Base.Lists.{length}
use golly.Lzf.{
  copy_literal, copy_back, literal, read_length, refer, back_reference, round, expand, decompress,
}
use golly.Lzf.Streams.{length-decompress}

-- "ab", and then three bytes from two bytes back.
abbrev stream : Bytes
stream = 1 ∷ 97 ∷ 98 ∷ 32 ∷ 1 ∷ []

program : Unit {0}
unfolding copy_literal copy_back literal read_length refer back_reference round expand decompress
program = tt

unpacks :
    (decompress (0 ∷ 0 ∷ 0 ∷ 5 ∷ stream) ≡ ok (some (codes "ababa")))
    × (decompress (0 ∷ 0 ∷ 0 ∷ 7 ∷ stream) ≡ ok (some (codes "ababa" ++ 0 ∷ 0 ∷ [])))
    × (decompress (0 ∷ 0 ∷ 0 ∷ 4 ∷ stream) ≡ ok none)
    × (decompress (0 ∷ 0 ∷ 0 ∷ 5 ∷ 0 ∷ 97 ∷ 32 ∷ 9 ∷ []) ≡ ok none)
    × (decompress (0 ∷ 0 ∷ 0 ∷ 5 ∷ 32 ∷ 1 ∷ []) ≡ panic)
unfolding program
unpacks = (refl, refl, refl, refl, refl)

stream-IsBytes : IsBytes stream
stream-IsBytes = (omega arith, (omega arith, (omega arith, (omega arith, (omega arith, tt)))))

length-decompress_example : length (codes "ababa") ≡ 5
length-decompress_example =
    length-decompress 0 0 0 5 stream (codes "ababa") stream-IsBytes (omega arith) (omega arith)
      (omega arith) unpacks.0
