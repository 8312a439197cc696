-- ===== src/Accept/Agreement.antt =====
-- `Accepts` against `FindPreferred`.
use golly.Base.{
  Bool, true, false, not, ◌&&◌, ◌||◌, inl, inr, Bool-cases, List, [], ◌∷◌, ◌++◌, ◌≡◌, ◌≢◌, refl,
  sym, ap, ◌∙◌, arith, Bytes, text_eq, text_eq_iff, has_prefix, if◌then◌else◌,
}
use golly.Base.Lists.{All}
use golly.Accept.{
  AcceptOption, Acceptable, in_string_slice, identity_value, add_match, add_all, try_value,
  try_values, accepts_from, accepts, prefer, find_preferred,
}

in-append :
    (xs : List Bytes) (w v : Bytes)
    → in_string_slice (xs ++ w ∷ []) v ≡ (in_string_slice xs v || text_eq w v)
unfolding in_string_slice
in-append [] w v = elim (Bool-cases (text_eq w v)) [ inl e ↦ rw e refl | inr e ↦ rw e refl ]
in-append (x ∷ xs) w v = elim (Bool-cases (text_eq x v)) [
  | inl e ↦ rw e refl
  | inr e ↦ rw e (in-append xs w v)
]

in-add_match :
    (xs : List Bytes) (w v : Bytes)
    → in_string_slice (add_match xs w) v ≡ (in_string_slice xs v || text_eq w v)
unfolding add_match
in-add_match xs w v = elim (Bool-cases (in_string_slice xs w)) [
  | inr e ↦ rw e (in-append xs w v)
  | inl e ↦ elim (Bool-cases (text_eq w v)) [
    | inr f ↦ rw (e, f) (grind arith)
    | inl f ↦
        let q : w ≡ v = (text_eq_iff w v).0 f in
        let k : in_string_slice xs v ≡ true = ap (in_string_slice xs) (sym q) ∙ e in
        rw (e, f, k) refl
  ]
]

in-add_all :
    (values xs : List Bytes) (v : Bytes)
    → in_string_slice (add_all values xs) v ≡ (in_string_slice xs v || in_string_slice values v)
unfolding add_all in_string_slice
in-add_all [] xs v = grind arith
in-add_all (w ∷ values) xs v =
    in-add_all values (add_match xs w) v ∙ grind (arith, in-add_match xs w v)

-- The answer where a header for codings names no option.
in-identity :
    (values : List Bytes) (v : Bytes)
    → in_string_slice (if in_string_slice values identity_value then identity_value ∷ [] else []) v
      ≡ (in_string_slice values v && text_eq v identity_value)
unfolding in_string_slice
in-identity values v = elim (Bool-cases (text_eq v identity_value)) [
  | inl f ↦
      let q : v ≡ identity_value = (text_eq_iff v identity_value).0 f in
      let g : text_eq identity_value v ≡ true = (text_eq_iff identity_value v).1 (sym q) in
      elim (Bool-cases (in_string_slice values identity_value)) [
        | inl k ↦
            let k' : in_string_slice values v ≡ true = ap (in_string_slice values) q ∙ k in
            rw (k, k', f, in_string_slice, g) refl
        | inr k ↦
            let k' : in_string_slice values v ≡ false = ap (in_string_slice values) q ∙ k in
            rw (k, k', in_string_slice) refl
      ]
  | inr f ↦ elim (Bool-cases (text_eq identity_value v)) [
    | inl g ↦
        let f' : text_eq v identity_value ≡ true =
          (text_eq_iff v identity_value).1 (sym ((text_eq_iff identity_value v).0 g)) in
        absurd (cc (f, f'))
    | inr g ↦ elim (Bool-cases (in_string_slice values identity_value)) [
      | inl k ↦ rw (k, f, in_string_slice, g) (grind arith)
      | inr k ↦ rw (k, f, in_string_slice) (grind arith)
    ]
  ]
]

module _ {Weight : Type 0} where
  abbrev takes : AcceptOption Weight → Bytes → Bool
  takes opt value =
      text_eq opt.value value || (opt.meta_wildcard && has_prefix value opt.meta_prefix)

  try_value_lem :
      (opt : AcceptOption Weight) (xs : List Bytes) (w : Bytes)
      → try_value opt xs w ≡ (if takes opt w then add_match xs w else xs)
  unfolding try_value add_match
  try_value_lem opt xs w =
      by_tests (text_eq opt.value w) opt.meta_wildcard (has_prefix w opt.meta_prefix)
        (in_string_slice xs w)
    where
      by_tests :
          (e m p i : Bool)
          → (if e
              then (if not i then xs ++ w ∷ [] else xs)
              else if m && p && not i
              then xs ++ w ∷ []
              else xs)
            ≡ (if e || (m && p) then (if not i then xs ++ w ∷ [] else xs) else xs)
      by_tests true m p i = refl
      by_tests false true true i = refl
      by_tests false true false i = refl
      by_tests false false p i = refl

  in-try_value :
      (opt : AcceptOption Weight) (xs : List Bytes) (w v : Bytes)
      → in_string_slice (try_value opt xs w) v
        ≡ (in_string_slice xs v || (text_eq w v && takes opt v))
  unfolding try_value
  in-try_value opt xs w v = ap (λ r. in_string_slice r v) (try_value_lem opt xs w) ∙ by_takes
    where
      same : text_eq w v ≡ true → takes opt w ≡ takes opt v
      same f = ap (takes opt) ((text_eq_iff w v).0 f)

      by_takes :
          in_string_slice (if takes opt w then add_match xs w else xs) v
          ≡ (in_string_slice xs v || (text_eq w v && takes opt v))
      by_takes = elim (Bool-cases (text_eq w v)) [
        | inl f ↦ elim (Bool-cases (takes opt w)) [
          | inl t ↦
              let t' : takes opt v ≡ true = sym (same f) ∙ t in
              rw (t, f, t') (in-add_match xs w v ∙ rw f refl)
          | inr t ↦ let t' : takes opt v ≡ false = sym (same f) ∙ t in rw (t, f, t') (grind arith)
        ]
        | inr f ↦ elim (Bool-cases (takes opt w)) [
          | inl t ↦ rw (t, f) (in-add_match xs w v ∙ rw f refl)
          | inr t ↦ rw (t, f) (grind arith)
        ]
      ]

  in-try_values :
      (opt : AcceptOption Weight) (values xs : List Bytes) (v : Bytes)
      → in_string_slice (try_values opt values xs) v
        ≡ (in_string_slice xs v || (in_string_slice values v && takes opt v))
  unfolding try_values in_string_slice
  in-try_values opt [] xs v = grind arith
  in-try_values opt (w ∷ values) xs v =
      in-try_values opt values (try_value opt xs w) v ∙ grind (arith, in-try_value opt xs w v)

  module _ (is_zero : Weight → Bool) where
    in-prefer :
        (opts : List (AcceptOption Weight)) (values xs : List Bytes) (v : Bytes)
        → All (λ (opt : AcceptOption Weight). opt.identity ≡ false) opts
        → in_string_slice (prefer is_zero opts values xs) v
          ≡ (in_string_slice xs v || (in_string_slice values v && accepts_from is_zero opts v))
    unfolding prefer accepts_from
    in-prefer [] values xs v h = grind arith
    in-prefer (opt ∷ opts) values xs v (n, h) = elim (Bool-cases (is_zero opt.weight)) [
      | inl z ↦ rw z (grind arith)
      | inr z ↦ elim (Bool-cases opt.wildcard) [
        | inl w ↦ rw (z, n, w) (in-add_all values xs v ∙ grind arith)
        | inr w ↦
            rw (z, n, w)
              (in-prefer opts values (try_values opt values xs) v h
                ∙ rw (in-try_values opt values xs v) (
                    by_tests (in_string_slice xs v) (in_string_slice values v) (text_eq opt.value v)
                      (opt.meta_wildcard && has_prefix v opt.meta_prefix)
                      (accepts_from is_zero opts v)))
      ]
    ]
      where
        by_tests :
            (x i e p r : Bool)
            → ((x || (i && (e || p))) || (i && r))
              ≡ (x || (i && (if e then true else if p then true else r)))
        by_tests x i e p r = grind arith

    -- Where no option is for identity, `FindPreferred` returns those of the values that `Accepts`
    -- takes, and no others; also where no option was given.
    pub find_preferred-accepts :
        (a : Acceptable Weight) (values : List Bytes) (v : Bytes)
        → All (λ (opt : AcceptOption Weight). opt.identity ≡ false) a.opts
        → in_string_slice (find_preferred is_zero a values) v
          ≡ (in_string_slice values v && accepts is_zero a v)
    unfolding find_preferred accepts
    find_preferred-accepts a values v h = by_options a.opts h
      where
        by_options :
            (opts : List (AcceptOption Weight))
            → All (λ (opt : AcceptOption Weight). opt.identity ≡ false) opts
            → in_string_slice
                (find_preferred is_zero (record { codings = a.codings; opts = opts }) values)
                v
              ≡ (in_string_slice values v
                  && accepts is_zero (record { codings = a.codings; opts = opts }) v)
        by_options [] h = elim (Bool-cases a.codings) [
          | inl c ↦ rw c (in-identity values v)
          | inr c ↦ rw c (grind arith)
        ]
        by_options (opt ∷ opts) h = in-prefer (opt ∷ opts) values [] v h

    -- An option for identity that comes first hides the options behind it from `Accepts`, but not from
    -- `FindPreferred`: a value that they take, and that is not identity, is denied by the one and
    -- returned by the other.
    pub identity_hides :
        (codings : Bool) (opt : AcceptOption Weight) (opts : List (AcceptOption Weight))
        (values : List Bytes) (v : Bytes)
        → opt.identity ≡ true
        → opt.wildcard ≡ false
        → is_zero opt.weight ≡ false
        → All (λ (opt : AcceptOption Weight). opt.identity ≡ false) opts
        → text_eq v identity_value ≡ false
        → in_string_slice values v ≡ true
        → accepts is_zero (record { codings = codings; opts = opts }) v ≡ true
        → opts ≢ []
        → (accepts is_zero (record { codings = codings; opts = opt ∷ opts }) v ≡ false)
          × (in_string_slice
                (find_preferred is_zero (record { codings = codings; opts = opt ∷ opts }) values)
                v
              ≡ true)
    unfolding accepts accepts_from find_preferred prefer
    identity_hides codings opt [] values v i w z h f k a ne = absurd (ne refl)
    identity_hides codings opt (o ∷ opts) values v i w z h f k a ne = (
      rw (z, i, f) refl,
      rw (z, w)
          (in-prefer (o ∷ opts) values (try_values opt values []) v h ∙ rw (k, a) (grind arith)),
    )
