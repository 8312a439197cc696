-- ===== src/Optparse/Defaults.antt =====
-- optparse/optparse.go: options with a value, and their defaults.
use golly.Base.{
  ℕ, zero, suc, ◌+◌, ◌-◌, ◌*◌, ◌^◌, Bool, true, false, ◌&&◌, Option, none, some, [], ◌∷◌, Bytes,
  if◌then◌else◌, ltb, leb, ◌==◌, text_key,
}
use golly.Base.Calls.{ok, err, ◌>>=◌}
use golly.Base.Int.{ℤ, pos, negsuc}
use golly.Base.Lists.{length, take, drop}
use golly.Optparse.{
  duration_value, float_value, int_value, string_value, Parser, Result, exits, bad_default, new_opt,
}

-- `strings.LastIndex(s, "[")`
abbrev pub last_bracket : Bytes → Option ℕ
last_bracket [] = none
last_bracket (c ∷ s) = elim (last_bracket s) [
  | some i ↦ some (suc i)
  | none ↦ if c == 91 then some 0 else none
]

abbrev pub ends_bracket : Bytes → Bool
ends_bracket [] = false
ends_bracket (c ∷ []) = c == 93
ends_bracket (c ∷ d ∷ s) = ends_bracket (d ∷ s)

-- The text of a default in a description: from behind the last bracket, or from the start where there is none, since
-- the code compares the index to 1 instead of -1.
abbrev pub default_text : Bytes → Option Bytes
default_text description =
    if ends_bracket description
    then elim (last_bracket description) [
      | none ↦ some (take (length description - 1) description)
      | some i ↦
          if i == 1
          then none
          else some (take (length description - 1 - (i + 1)) (drop (i + 1) description))
    ]
    else none

-- `strconv.Atoi`: a sign, and then one decimal digit at least, within 64 bits.
abbrev pub digits : Bytes → Option ℕ → Option ℕ
digits s none = none
digits [] (some n) = some n
digits (c ∷ s) (some n) = digits s (if leb 48 c && leb c 57 then some (n * 10 + (c - 48)) else none)

abbrev pub magnitude : Bytes → Option ℕ
magnitude [] = none
magnitude (c ∷ s) = digits (c ∷ s) (some 0)

abbrev pub positive : Option ℕ → Option ℤ
positive none = none
positive (some n) = if ltb n (2 ^ 63) then some (pos n) else none

abbrev pub negative : Option ℕ → Option ℤ
negative none = none
negative (some zero) = some (pos 0)
negative (some (suc n)) = if ltb n (2 ^ 63) then some (negsuc n) else none

abbrev pub atoi : Bytes → Option ℤ
atoi [] = none
atoi (c ∷ s) =
    if c == 45
    then negative (magnitude s)
    else if c == 43
    then positive (magnitude s)
    else positive (magnitude (c ∷ s))

-- What an option is given as its first value: the default of the call, that of the description, or `zero_value`.
abbrev pub first_value {ℓ} : {A : Type ℓ} → (Bytes → Option A) → A → Option A → Bytes → Result A
first_value parse zero_value (some v) description = ok v
first_value parse zero_value none description = elim (default_text description) [
  | none ↦ ok zero_value
  | some text ↦ elim (parse text) [ some v ↦ ok v | none ↦ err (exits 1 bad_default) ]
]

module _ {D F : Type 0} where
  -- `Duration`, `Float`, `Int` and `String`
  abbrev pub add_duration :
      (Bytes → Option D) → D → Option D → Bytes → Parser D F → Result (Parser D F)
  add_duration parse zero_duration default description p =
      first_value parse zero_duration default description >>= λ v.
      new_opt p description true (duration_value v)

  abbrev pub add_float :
      (Bytes → Option F) → F → Option F → Bytes → Parser D F → Result (Parser D F)
  add_float parse zero_float default description p =
      first_value parse zero_float default description >>= λ v.
      new_opt p description true (float_value v)

  abbrev pub add_int : Option ℤ → Bytes → Parser D F → Result (Parser D F)
  add_int default description p =
      first_value atoi (pos 0) default description >>= λ v. new_opt p description true (int_value v)

  abbrev pub add_string : Option Bytes → Bytes → Parser D F → Result (Parser D F)
  add_string default description p = first_value (λ s. some s) [] default description >>= λ v.
      new_opt p description true (string_value v)
