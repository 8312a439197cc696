-- ===== src/Optparse/Tests.antt =====
-- A parser with a number and a switch, which ends its flags at the first argument.
use golly.Base.{
  ℕ, Option, none, some, List, [], ◌∷◌, ◌++◌, ◌≡◌, refl, Bytes, codes, text_eq, has_prefix,
}
use golly.Base.Calls.{ok, err, panic, ◌>>=◌}
use golly.Base.GoMap.{lookup, insert}
use golly.Base.Int.{negsuc}
use golly.Base.Lists.{get_elem?}
use golly.Optparse.{
  Value, int_value, Parser, Result, exits, missing, new, new_opt, add_flags, add_bool, with_flags,
  with_required, halt_flag_parsing_n,
}
use golly.Optparse.Defaults.{atoi, default_text, add_int}
use golly.Optparse.Parse.{parse, parse_args, name_of, take_option, add_help}
use golly.Optparse.Words.{Setting, valued, switch, words, all_applied}

abbrev no_value : Bytes → Option ℕ
no_value text = none

abbrev built : Result (Parser ℕ ℕ) → Parser ℕ ℕ
built (ok p) = p
built (err e) = new
built panic = new

abbrev parser : Parser ℕ ℕ
parser = built (
    add_int none (codes "how many [5]")
      (with_required (with_flags (codes "-n" ∷ codes "--number" ∷ []) new))
    >>= λ p. add_bool (codes "say more") (with_flags (codes "--verbose" ∷ []) p) >>= λ p.
        halt_flag_parsing_n 1 p)

abbrev settings : List Setting
settings =
    valued (codes "-n") (codes "7")
    ∷ switch (codes "--verbose")
    ∷ valued (codes "--number") (codes "-8")
    ∷ []

abbrev with_help : Parser ℕ ℕ
with_help = built (add_help parser)

abbrev set_up : Parser ℕ ℕ
set_up = elim (all_applied no_value no_value with_help settings) [ none ↦ new | some p ↦ p ]

abbrev value_at : Result (Parser ℕ ℕ × List Bytes) → ℕ → Option (Value ℕ ℕ)
value_at (ok (p, ws)) i = elim (get_elem? p.options i) [ none ↦ none | some op ↦ some op.value ]
value_at (err e) i = none
value_at panic i = none

numbers : atoi (codes "-8") ≡ some (negsuc 7)
numbers = refl

-- Without a bracket the whole description is taken for the default.
default_sample : default_text (codes "size]") ≡ some (codes "size")
default_sample = refl

set_number :
    value_at (parse no_value no_value parser (words settings ++ codes "run" ∷ codes "-n" ∷ [])) 0
    ≡ some (int_value (negsuc 7))
unfolding parse parse_args name_of take_option new_opt add_flags lookup insert has_prefix text_eq
set_number = refl

missing_number : parse no_value no_value parser (codes "run" ∷ []) ≡ err (exits 1 (missing 0))
unfolding parse parse_args name_of take_option new_opt add_flags lookup insert has_prefix text_eq
missing_number = refl

-- Nothing is required where there is no argument.
nothing_given : parse no_value no_value parser [] ≡ ok (with_help, [])
unfolding parse new_opt add_flags lookup insert has_prefix text_eq
nothing_given = refl
