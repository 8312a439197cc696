-- ===== src/Accept/Tests.antt =====
-- Headers with weights in tenths.
use golly.Base.{
  ℕ, Bool, true, false, List, [], ◌∷◌, ◌≡◌, refl, Bytes, codes, text_eq, has_prefix, ◌==◌, ◌&&◌,
}
use golly.Accept.{
  AcceptOption, Acceptable, in_string_slice, add_match, add_all, try_value, try_values,
  accepts_from, accepts, prefer, find_preferred,
}
use golly.Accept.Agreement.{find_preferred-accepts, identity_hides}

abbrev is_zero : ℕ → Bool
is_zero w = w == 0

abbrev option : Bytes → ℕ → AcceptOption ℕ
option value weight = record {
  identity = false;
  order = 0;
  meta_prefix = [];
  meta_wildcard = false;
  value = value;
  weight = weight;
  wildcard = false;
}

-- "text/*, image/png;q=0"
abbrev types : Acceptable ℕ
types = record {
  codings = false;
  opts =
      record (option (codes "text/*") 10) { meta_prefix = codes "text/"; meta_wildcard = true }
      ∷ option (codes "image/png") 0
      ∷ [];
}

abbrev offered : List Bytes
offered = codes "image/png" ∷ codes "text/css" ∷ codes "text/html" ∷ codes "text/css" ∷ []

program : Unit {0}
unfolding in_string_slice add_match add_all try_value try_values accepts_from accepts prefer
    find_preferred text_eq has_prefix
program = tt

prefers :
    (find_preferred is_zero types offered ≡ codes "text/css" ∷ codes "text/html" ∷ [])
    × (accepts is_zero types (codes "image/png") ≡ false)
unfolding program
prefers = (refl, refl)

find_preferred-accepts_example :
    in_string_slice (find_preferred is_zero types offered) (codes "text/css")
    ≡ (in_string_slice offered (codes "text/css") && accepts is_zero types (codes "text/css"))
find_preferred-accepts_example =
    find_preferred-accepts is_zero types offered (codes "text/css") (refl, (refl, tt))

-- "identity, gzip;q=0.5"
abbrev identity_first : List (AcceptOption ℕ)
identity_first =
    record (option (codes "identity") 10) { identity = true } ∷ option (codes "gzip") 5 ∷ []

identity_hides_example :
    (accepts is_zero (record { codings = true; opts = identity_first }) (codes "gzip") ≡ false)
    × (in_string_slice
          (find_preferred is_zero
            (record { codings = true; opts = identity_first })
            (codes "gzip" ∷ []))
          (codes "gzip")
        ≡ true)
unfolding program
identity_hides_example =
    identity_hides is_zero true (record (option (codes "identity") 10) { identity = true })
      (option (codes "gzip") 5 ∷ []) (codes "gzip" ∷ []) (codes "gzip") refl refl refl (refl, tt)
      refl refl refl (λ e. cc e)
