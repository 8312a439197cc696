-- ===== src/Optparse.antt =====
-- optparse/optparse.go: the options of a Parser.
--
-- An option is its index in the list of options, since the code shares it between that list, the two maps of flags
-- and the program. `exit` and process.Exit end the program: a result of its own, with the status and the
-- reason. A duration and a float are values of two types that are not looked into, and what time.ParseDuration and
-- strconv.ParseFloat make of a text are parameters. The bytes of a flag are ASCII. Completers are not modelled.
pub mod Defaults
pub mod Parse
pub mod Words
pub mod Settings
mod Tests
use golly.Base.{
  ℕ, zero, suc, ◌+◌, ◌-◌, ◌*◌, ◌^◌, Bool, true, false, not, ◌&&◌, ◌||◌, Option, none, some, List,
  [], ◌∷◌, ◌++◌, Bytes, codes, if◌then◌else◌, ltb, leb, ◌==◌, text_eq, has_prefix, Comparable,
  text_key,
}
use golly.Base.Calls.{Outcome, ok, err, ◌>>=◌}
use golly.Base.GoMap.{GoMap, insert}
use golly.Base.Int.{ℤ, pos, negsuc}
use golly.Base.Lists.{length, take, drop}

pub data Value (D F : Type 0) : Type 0 where
  bool_value : Bool → Value D F
  duration_value : D → Value D F
  float_value : F → Value D F
  int_value : ℤ → Value D F
  string_value : Bytes → Value D F

pub record Opt (D F : Type 0) : Type 0 where
  pub defined : Bool
  pub description : Bytes
  pub hidden : Bool
  pub label : Bytes
  pub long_flag : Bytes
  pub required : Bool
  pub short_flag : Bytes
  pub value : Value D F

pub record Parser (D F : Type 0) : Type 0 where
  pub help_opt_description : Bytes
  pub hide_help_opt : Bool
  pub hide_version_opt : Bool
  pub opt_padding : ℕ
  pub parse_help : Bool
  pub parse_version : Bool
  pub version_opt_description : Bytes
  pub halts : Bool
  pub halt_n : ℕ
  pub halt_string : Bytes
  pub help_added : Bool
  pub long_options : GoMap Bytes ℕ
  pub next_flags : List Bytes
  pub next_hidden : Bool
  pub next_label : Bytes
  pub next_required : Bool
  pub options : List (Opt D F)
  pub short_options : GoMap Bytes ℕ
  pub version_added : Bool

pub data Reason : Type 0 where
  no_flags bad_default bad_halt bad_version shows_help shows_version : Reason
  no_such_option needs_argument no_value : Bytes → Reason
  bad_value : Bytes → Bytes → Reason
  missing : ℕ → Reason

pub data Exit : Type 0 where
  exits : ℕ → Reason → Exit

abbrev pub Result {ℓ} : Type ℓ → Type ℓ
Result A = Outcome Exit A

-- `strings.ToUpper` and `strings.TrimLeft(s, "-")`
abbrev pub to_upper : Bytes → Bytes
to_upper [] = []
to_upper (c ∷ s) = (if leb 97 c && leb c 122 then c - 32 else c) ∷ to_upper s

abbrev pub trim_dashes : Bytes → Bytes
trim_dashes [] = []
trim_dashes (c ∷ s) = if c == 45 then trim_dashes s else c ∷ s

module _ {D F : Type 0} where
  -- `FlagString`
  abbrev pub flag_string : Opt D F → Bytes
  flag_string op =
      codes "  "
      ++ (if text_eq op.short_flag []
          then []
          else op.short_flag ++ (if text_eq op.long_flag [] then [] else codes ", "))
      ++ op.long_flag
      ++ (if text_eq op.label [] then [] else codes " " ++ op.label)

  -- The loop of `newOpt` over the flags: the option, and the two maps.
  unfoldable pub add_flags :
      List Bytes
      → ℕ
      → Opt D F
      → GoMap Bytes ℕ
      → GoMap Bytes ℕ
      → Opt D F × GoMap Bytes ℕ × GoMap Bytes ℕ
  add_flags [] i op long short = (op, long, short)
  add_flags (flag ∷ flags) i op long short =
      if has_prefix flag (codes "--")
      then add_flags flags i (record op { long_flag = flag }) (insert flag i long) short
      else if has_prefix flag (codes "-")
      then add_flags flags i (record op { short_flag = flag }) long (insert flag i short)
      else add_flags flags i op long short

  abbrev pub label_for : Parser D F → Opt D F → Bool → Bytes
  label_for p op show_label =
      if op.hidden || not show_label
      then []
      else if not (text_eq p.next_label [])
      then p.next_label
      else if not (text_eq op.long_flag [])
      then to_upper (trim_dashes op.long_flag)
      else to_upper (trim_dashes op.short_flag)

  -- `newOpt`, with the value that its callers set in the option.
  unfoldable pub new_opt : Parser D F → Bytes → Bool → Value D F → Result (Parser D F)
  unfolding add_flags
  new_opt p description show_label value =
      let op : Opt D F = record {
        defined = false;
        description = description;
        hidden = p.next_hidden;
        label = [];
        long_flag = [];
        required = p.next_required;
        short_flag = [];
        value = value;
      } in
      let added = add_flags p.next_flags (length p.options) op p.long_options p.short_options in
      let op' : Opt D F = record (added.0) { label = label_for p added.0 show_label } in
      let width = length (flag_string op') in
      if text_eq op'.short_flag [] && text_eq op'.long_flag []
      then err (exits 1 no_flags)
      else ok (record p {
        long_options = added.1;
        short_options = added.2;
        options = p.options ++ op' ∷ [];
        opt_padding = if not op'.hidden && ltb p.opt_padding width then width else p.opt_padding;
        next_flags = [];
        next_hidden = false;
        next_label = [];
        next_required = false;
      })

  -- `New`
  abbrev pub new : Parser D F
  new = record {
    help_opt_description = [];
    hide_help_opt = false;
    hide_version_opt = false;
    opt_padding = 20;
    parse_help = true;
    parse_version = false;
    version_opt_description = [];
    halts = false;
    halt_n = 0;
    halt_string = [];
    help_added = false;
    long_options = [];
    next_flags = [];
    next_hidden = false;
    next_label = [];
    next_required = false;
    options = [];
    short_options = [];
    version_added = false;
  }

  -- `Flags`, `Hidden`, `Required` and `Label`
  abbrev pub with_flags : List Bytes → Parser D F → Parser D F
  with_flags flags p = record p { next_flags = flags }

  abbrev pub with_hidden : Parser D F → Parser D F
  with_hidden p = record p { next_hidden = true }

  abbrev pub with_required : Parser D F → Parser D F
  with_required p = record p { next_required = true }

  abbrev pub with_label : Bytes → Parser D F → Parser D F
  with_label label p = record p { next_label = label }

  -- `HaltFlagParsing` with a number, and with a text.
  abbrev pub halt_flag_parsing_n : ℕ → Parser D F → Result (Parser D F)
  halt_flag_parsing_n n p =
      if ltb 0 n then ok (record p { halts = true; halt_n = n }) else err (exits 1 bad_halt)

  abbrev pub halt_flag_parsing_string : Bytes → Parser D F → Result (Parser D F)
  halt_flag_parsing_string s p =
      if text_eq s []
      then err (exits 1 bad_halt)
      else ok (record p { halts = true; halt_string = s })

  -- `SetVersion` with a text, which is kept by the program.
  abbrev pub set_version : Bytes → Parser D F → Result (Parser D F)
  set_version version p =
      if text_eq version []
      then err (exits 1 bad_version)
      else ok (record p { parse_version = true })

  -- `Bool`
  abbrev pub add_bool : Bytes → Parser D F → Result (Parser D F)
  add_bool description p = new_opt p description false (bool_value false)
