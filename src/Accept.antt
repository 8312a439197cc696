-- ===== src/Accept.antt =====
-- httputil/httputil.go: which values an Accept header takes; and structure/slice.go.
--
-- A weight is a `float64` that is only compared with zero here; `Weight` is its type and `is_zero`
-- that comparison.
pub mod Agreement
mod Tests
use golly.Base.{
  ℕ, Bool, true, false, not, ◌&&◌, List, [], ◌∷◌, ◌++◌, Bytes, codes, text_eq, has_prefix,
  if◌then◌else◌,
}

pub record AcceptOption (Weight : Type 0) : Type 0 where
  pub identity : Bool
  pub order : ℕ
  pub meta_prefix : Bytes
  pub meta_wildcard : Bool
  pub value : Bytes
  pub weight : Weight
  pub wildcard : Bool

pub record Acceptable (Weight : Type 0) : Type 0 where
  pub codings : Bool
  pub opts : List (AcceptOption Weight)

unfoldable pub in_string_slice : List Bytes → Bytes → Bool
in_string_slice [] s = false
in_string_slice (e ∷ xs) s = if text_eq e s then true else in_string_slice xs s

abbrev pub identity_value : Bytes
identity_value = codes "identity"

-- A value is appended to the matches unless it is there.
unfoldable pub add_match : List Bytes → Bytes → List Bytes
unfolding in_string_slice
add_match matches value =
    if not (in_string_slice matches value) then matches ++ value ∷ [] else matches

-- The loop of `FindPreferred` under a wildcard.
unfoldable pub add_all : List Bytes → List Bytes → List Bytes
unfolding add_match
add_all [] matches = matches
add_all (value ∷ values) matches = add_all values (add_match matches value)

module _ {Weight : Type 0} where
  -- The body of the loop over the values under an option.
  unfoldable pub try_value : AcceptOption Weight → List Bytes → Bytes → List Bytes
  unfolding add_match in_string_slice
  try_value opt matches value =
      if text_eq opt.value value
      then add_match matches value
      else if opt.meta_wildcard
          && has_prefix value opt.meta_prefix
          && not (in_string_slice matches value)
      then matches ++ value ∷ []
      else matches

  unfoldable pub try_values : AcceptOption Weight → List Bytes → List Bytes → List Bytes
  unfolding try_value
  try_values opt [] matches = matches
  try_values opt (value ∷ values) matches = try_values opt values (try_value opt matches value)

  module _ (is_zero : Weight → Bool) where
    -- The loop of `Accepts`.
    unfoldable pub accepts_from : List (AcceptOption Weight) → Bytes → Bool
    accepts_from [] value = false
    accepts_from (opt ∷ opts) value =
        if is_zero opt.weight
        then false
        else if opt.identity
        then text_eq value identity_value
        else if opt.wildcard
        then true
        else if text_eq opt.value value
        then true
        else if opt.meta_wildcard && has_prefix value opt.meta_prefix
        then true
        else accepts_from opts value

    unfoldable pub accepts : Acceptable Weight → Bytes → Bool
    unfolding accepts_from
    accepts a value = elim a.opts [
      | [] ↦ if a.codings then text_eq value identity_value else true
      | opt ∷ opts ↦ accepts_from (opt ∷ opts) value
    ]

    -- The loop of `FindPreferred` over the options.
    unfoldable pub prefer : List (AcceptOption Weight) → List Bytes → List Bytes → List Bytes
    unfolding add_all try_values
    prefer [] values matches = matches
    prefer (opt ∷ opts) values matches =
        if is_zero opt.weight
        then matches
        else if opt.wildcard
        then add_all values matches
        else prefer opts values (try_values opt values matches)

    unfoldable pub find_preferred : Acceptable Weight → List Bytes → List Bytes
    unfolding prefer in_string_slice
    find_preferred a values = elim a.opts [
      | [] ↦
          if a.codings
          then (if in_string_slice values identity_value then identity_value ∷ [] else [])
          else values
      | opt ∷ opts ↦ prefer (opt ∷ opts) values []
    ]
