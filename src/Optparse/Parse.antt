-- ===== src/Optparse/Parse.antt =====
-- optparse/optparse.go: `Parse` on a command line, without its completion.
--
-- The loop is by the arguments that are left, where the code has an index: an argument that is the
-- last one has none behind it, and an argument that was taken as a value is passed in the next round.
use golly.Base.{
  ℕ, ◌+◌, Bool, true, false, not, ◌&&◌, ◌||◌, Option, none, some, List, [], ◌∷◌, ◌++◌, Bytes, codes,
  if◌then◌else◌, ◌==◌, text_eq, has_prefix, text_key,
}
use golly.Base.Calls.{ok, err, panic, ◌>>=◌}
use golly.Base.GoMap.{lookup}
use golly.Base.Lists.{length, get_elem?, set}
use golly.Optparse.{
  Value, bool_value, duration_value, float_value, int_value, string_value, Opt, Parser, Result,
  exits, shows_help, shows_version, no_such_option, needs_argument, no_value, bad_value, missing,
  add_bool, with_flags, with_hidden,
}
use golly.Optparse.Defaults.{atoi}

-- What an argument is: a flag that is known, as an option, one that is not, or no flag.
pub data Named : Type 0 where
  known : ℕ → Named
  unknown plain : Named

-- What the next round does with its argument: it is read, it is a value that was taken, or it is added to the
-- remainder because the flags have ended.
pub data Mode : Type 0 where
  reads skips adds : Mode

abbrev pub found : Option ℕ → Named
found none = unknown
found (some i) = known i

abbrev pub is_last : List Bytes → Bool
is_last [] = true
is_last (arg ∷ rest) = false

module _ {D F : Type 0} where
  unfoldable pub name_of : Parser D F → Bytes → Named
  name_of p arg =
      if has_prefix arg (codes "--") && not (text_eq arg (codes "--"))
      then found (lookup arg p.long_options)
      else if has_prefix arg (codes "-")
          && not (text_eq arg (codes "-") || text_eq arg (codes "--"))
      then found (lookup arg p.short_options)
      else plain

  abbrev pub defines : Parser D F → ℕ → Opt D F → Value D F → Parser D F
  defines p i op v = record p {
    options = set p.options i (record op { value = v; defined = true });
  }

  abbrev pub is_bool : Value D F → Bool
  is_bool (bool_value b) = true
  is_bool (duration_value d) = false
  is_bool (float_value f) = false
  is_bool (int_value n) = false
  is_bool (string_value s) = false

  -- Whether the flags end behind an argument, which is the last one of the remainder.
  abbrev pub ends_flags : Parser D F → Bytes → ℕ → Bool
  ends_flags p arg n = p.halts && (text_eq arg p.halt_string || n == p.halt_n)

  abbrev pub take_bool : Parser D F → ℕ → Opt D F → Result (Parser D F × Mode)
  take_bool p i op =
      if text_eq op.long_flag (codes "--help") && p.parse_help
      then err (exits 1 shows_help)
      else if text_eq op.long_flag (codes "--version") && p.parse_version
      then err (exits 0 shows_version)
      else ok (defines p i op (bool_value true), reads)

  -- The first option that is required and was not given.
  abbrev pub first_missing : ℕ → List (Opt D F) → Option ℕ
  first_missing i [] = none
  first_missing i (op ∷ ops) =
      if op.required && not op.defined then some i else first_missing (i + 1) ops

  -- The options for help and for the version, which `Parse` adds.
  abbrev pub add_help : Parser D F → Result (Parser D F)
  add_help p =
      if p.parse_help && not p.help_added
      then (add_bool
            (if text_eq p.help_opt_description []
              then codes "Show this help and exit"
              else p.help_opt_description)
            (with_flags (codes "-h" ∷ codes "--help" ∷ [])
              (if p.hide_help_opt then with_hidden p else p))
          >>= λ p'. ok (record p' { help_added = true }))
      else ok p

  abbrev pub add_version : Parser D F → Result (Parser D F)
  add_version p =
      if p.parse_version && not p.version_added
      then (add_bool
            (if text_eq p.version_opt_description []
              then codes "Show the version and exit"
              else p.version_opt_description)
            (with_flags (codes "-v" ∷ codes "--version" ∷ [])
              (if p.hide_version_opt then with_hidden p else p))
          >>= λ p'. ok (record p' { version_added = true }))
      else ok p

  abbrev pub check_required : Parser D F × List Bytes → Result (Parser D F × List Bytes)
  check_required r = elim (first_missing 0 (r.0).options) [
    | none ↦ ok r
    | some i ↦ err (exits 1 (missing i))
  ]

module _ {D F : Type 0} (parse_duration : Bytes → Option D) (parse_float : Bytes → Option F) where
  -- The value that an option has for a text.
  abbrev pub converted : Value D F → Bytes → Option (Value D F)
  converted (bool_value b) text = none
  converted (duration_value d) text = elim (parse_duration text) [
    | none ↦ none
    | some d' ↦ some (duration_value d')
  ]
  converted (float_value f) text = elim (parse_float text) [
    | none ↦ none
    | some f' ↦ some (float_value f')
  ]
  converted (int_value n) text = elim (atoi text) [ none ↦ none | some n' ↦ some (int_value n') ]
  converted (string_value s) text = some (string_value text)

  -- An option with a value, which is the next argument.
  abbrev pub use_value :
      Parser D F → ℕ → Opt D F → Bytes → Bytes → Option (Value D F) → Result (Parser D F × Mode)
  use_value p i op arg text none = err (exits 1 (bad_value arg text))
  use_value p i op arg text (some v) = ok (defines p i op v, skips)

  abbrev pub take_value : Parser D F → ℕ → Opt D F → Bytes → List Bytes → Result (Parser D F × Mode)
  take_value p i op arg [] = err (exits 1 (no_value arg))
  take_value p i op arg (text ∷ rest) = use_value p i op arg text (converted op.value text)

  -- What is done for an option, with the arguments behind its flag.
  unfoldable pub take_option : Parser D F → ℕ → Bytes → List Bytes → Result (Parser D F × Mode)
  take_option p i arg rest = elim (get_elem? p.options i) [
    | none ↦ panic
    | some op ↦
        if not (text_eq op.label []) && is_last rest
        then err (exits 1 (needs_argument arg))
        else if is_bool op.value
        then take_bool p i op
        else take_value p i op arg rest
  ]

  unfoldable pub parse_args :
      Parser D F → Mode → List Bytes → List Bytes → Result (Parser D F × List Bytes)
  parse_args p mode remainder [] = ok (p, remainder)
  parse_args p adds remainder (arg ∷ rest) = parse_args p adds (remainder ++ arg ∷ []) rest
  parse_args p skips remainder (arg ∷ rest) = parse_args p reads remainder rest
  parse_args p reads remainder (arg ∷ rest) = elim (name_of p arg) [
    | plain ↦
        parse_args p (if ends_flags p arg (length remainder + 1) then adds else reads)
          (remainder ++ arg ∷ []) rest
    | unknown ↦ err (exits 1 (no_such_option arg))
    | known i ↦ take_option p i arg rest >>= λ taken. parse_args taken.0 taken.1 remainder rest
  ]

  -- `Parse` of the arguments behind the name of the program; where there are none, nothing is required.
  unfoldable pub parse : Parser D F → List Bytes → Result (Parser D F × List Bytes)
  parse p args = add_help p >>= λ p. add_version p >>= λ p. elim args [
    | [] ↦ ok (p, [])
    | arg ∷ rest ↦ parse_args p reads [] (arg ∷ rest) >>= λ r. check_required r
  ]
