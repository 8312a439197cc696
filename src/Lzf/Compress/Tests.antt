-- ===== src/Lzf/Compress/Tests.antt =====
-- Small inputs, packed and unpacked.
use golly.Base.{none, some, [], ◌∷◌, ◌≡◌, refl, Bytes, codes}
use golly.Base.Calls.{ok}
use golly.Lzf.Compress.{
  compress, pack, copy_rest, finish, turn, copy_byte, reference, write_reference, rehash,
  write_length, extend, is_match, same_at, preset, LzfPreset,
}

abbrev repeats : Bytes
repeats = codes "abcabcabcabcabcabcabcabcabcabcabcabc"

abbrev packed : Bytes
packed = 0 ∷ 0 ∷ 0 ∷ 36 ∷ 3 ∷ 97 ∷ 98 ∷ 99 ∷ 97 ∷ 224 ∷ 21 ∷ 2 ∷ 1 ∷ 98 ∷ 99 ∷ []

abbrev repeats_preset : LzfPreset
repeats_preset = record { dict = repeats; len = 36; compressed = packed }

compress-repeats : compress repeats ≡ ok (some packed)
unfolding compress pack copy_rest finish turn copy_byte reference write_reference rehash
    write_length extend is_match same_at
compress-repeats = refl

preset-repeats : preset repeats ≡ ok (some repeats_preset)
unfolding preset
preset-repeats = rw compress-repeats refl

-- Nothing is gained on so few bytes.
compress_short : compress (codes "abcdefgh") ≡ ok none
unfolding compress pack copy_rest finish turn copy_byte reference write_reference rehash
    write_length extend is_match same_at
compress_short = refl
