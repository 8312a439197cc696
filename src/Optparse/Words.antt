-- ===== src/Optparse/Words.antt =====
-- Settings as words of a command line, and what they make of the options.
use golly.Base.{
  ℕ, ◌+◌, Bool, true, false, not, ◌&&◌, ◌||◌, Option, none, some, List, [], ◌∷◌, Bytes, codes,
  if◌then◌else◌, text_eq, has_prefix,
}
use golly.Base.Lists.{get_elem?}
use golly.Optparse.{Value, Opt, Parser}
use golly.Optparse.Parse.{
  Named, known, unknown, plain, name_of, defines, converted, is_bool, ends_flags,
}

-- A flag with a value, and the flag of a Bool.
pub data Setting : Type 0 where
  valued : Bytes → Bytes → Setting
  switch : Bytes → Setting

abbrev pub words : List Setting → List Bytes
words [] = []
words (valued flag text ∷ ss) = flag ∷ text ∷ words ss
words (switch flag ∷ ss) = flag ∷ words ss

-- An argument that is no flag.
abbrev pub is_plain : Bytes → Bool
is_plain arg =
    not (has_prefix arg (codes "--") && not (text_eq arg (codes "--")))
    && not (has_prefix arg (codes "-") && not (text_eq arg (codes "-") || text_eq arg (codes "--")))

module _ {D F : Type 0} where
  -- The option of a flag.
  abbrev pub indexed : ℕ → Option (Opt D F) → Option (ℕ × Opt D F)
  indexed i none = none
  indexed i (some op) = some (i, op)

  abbrev pub named_option : Parser D F → Named → Option (ℕ × Opt D F)
  named_option p plain = none
  named_option p unknown = none
  named_option p (known i) = indexed i (get_elem? p.options i)

  abbrev pub is_switch : Parser D F → Opt D F → Bool
  is_switch p op =
      is_bool op.value
      && text_eq op.label []
      && not (text_eq op.long_flag (codes "--help") && p.parse_help)
      && not (text_eq op.long_flag (codes "--version") && p.parse_version)

  abbrev pub updated : Parser D F → ℕ → Opt D F → Option (Value D F) → Option (Parser D F)
  updated p i op none = none
  updated p i op (some v) = some (defines p i op v)

  abbrev pub with_switch : Parser D F → Option (ℕ × Opt D F) → Option (Parser D F)
  with_switch p none = none
  with_switch p (some (i, op)) =
      if is_switch p op then some (defines p i op (Value.bool_value true)) else none

  infixl 5 ◌>>=?◌
  abbrev pub ◌>>=?◌ : Option (Parser D F) → (Parser D F → Option (Parser D F)) → Option (Parser D F)
  none >>=? f = none
  some p >>=? f = f p

  -- Whether the flags end behind one of the arguments, in front of which there are `n`.
  abbrev pub halted : Parser D F → ℕ → List Bytes → Bool
  halted p n [] = false
  halted p n (w ∷ ws) = ends_flags p w (n + 1) || halted p (n + 1) ws

module _ {D F : Type 0} (parse_duration : Bytes → Option D) (parse_float : Bytes → Option F) where
  abbrev pub with_value : Parser D F → Bytes → Option (ℕ × Opt D F) → Option (Parser D F)
  with_value p text none = none
  with_value p text (some (i, op)) =
      if is_bool op.value
      then none
      else updated p i op (converted parse_duration parse_float op.value text)

  -- What a setting makes of the options, where the option is there, and the text is one of its kind.
  abbrev pub applied : Parser D F → Setting → Option (Parser D F)
  applied p (valued flag text) = with_value p text (named_option p (name_of p flag))
  applied p (switch flag) = with_switch p (named_option p (name_of p flag))

  abbrev pub all_applied : Parser D F → List Setting → Option (Parser D F)
  all_applied p [] = some p
  all_applied p (s ∷ ss) = applied p s >>=? λ p'. all_applied p' ss
