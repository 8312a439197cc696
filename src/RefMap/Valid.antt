-- ===== src/RefMap/Valid.antt =====
-- When the two maps of a `Map` belong together.
use golly.Base.{
  ℕ, ◌+◌, ◌^◌, ◌≤◌, ◌<◌, none, some, Bytes, ◌≡◌, refl, sym, ap, inl, inr, arith, text_eq,
  text_eq_iff, ==_iff, Bool-cases, Option-cases, ref_key, text_key,
}
use mathlib.Core.Path.{subst}
use golly.Base.GoMap.{lookup, insert, remove, lookup-insert, lookup-remove}
use golly.Base.Int.{ℤ, pos, ◌-ℤ◌, leb_ℤ, wrap_int}
use golly.RefMap.{
  Value, Map, next_ref, value_at, add, drop_both, create, lower, decr, decr_ref, delete, delete_ref,
  incr, incr_ref, starting_from,
}

-- Every string has a reference that stands for it, every reference in use is one that its string
-- has, and no reference in use lies beyond the last one given out.
pub record IsValid (m : Map) : Type 0 where
  pub forth :
      (s : Bytes) (ref : ℕ)
      → lookup s m.strings ≡ some ref
      → (v : Value) × (lookup ref m.refs ≡ some v) × (v.s ≡ s)
  pub back : (ref : ℕ) (v : Value) → lookup ref m.refs ≡ some v → lookup v.s m.strings ≡ some ref
  pub given : (ref : ℕ) (v : Value) → lookup ref m.refs ≡ some v → ref ≤ m.last_ref

pub starting_from-IsValid : (start : ℕ) → IsValid (starting_from start)
unfolding starting_from lookup
starting_from-IsValid start = record {
  forth = λ s r h. cc;
  back = λ r v h. cc;
  given = λ r v h. cc;
}

pub decr-lower :
    (m : Map) (s : Bytes) (ref : ℕ) (v : Value) (by : ℤ)
    → lookup s m.strings ≡ some ref
    → lookup ref m.refs ≡ some v
    → decr m s by ≡ lower m ref v by
unfolding decr
decr-lower m s ref v by e g =
    let q : value_at m ref ≡ v = rw (g, value_at) in rw (e, decr) (ap (λ x. lower m ref x by) q)

module _ {m : Map} (valid : IsValid m) where
  unused : (ref : ℕ) → m.last_ref < ref → lookup ref m.refs ≡ none
  unused ref h = elim (Option-cases (lookup ref m.refs)) [
    | inl e ↦ e
    | inr (v, e) ↦ absurd (omega (arith, valid.given ref v e))
  ]

  module _ (s : Bytes) (count : ℤ) (new_s : lookup s m.strings ≡ none)
      (room : m.last_ref + 1 < 2 ^ 64) where
    fresh : ℕ
    fresh = m.last_ref + 1

    w : Value
    w = record { count = count; s = s }

    added : Map
    added = record {
      last_ref = fresh;
      strings = insert s fresh m.strings;
      refs = insert fresh w m.refs;
    }

    add-added : (add m s count) ≡ (added, fresh)
    unfolding added fresh w
    add-added = let e : next_ref m ≡ m.last_ref + 1 = omega arith in rw e

    added-forth :
        (t : Bytes) (r : ℕ)
        → lookup t added.strings ≡ some r
        → (v : Value) × (lookup r added.refs ≡ some v) × (v.s ≡ t)
    unfolding added fresh w
    added-forth t r h = elim (Bool-cases (text_eq s t)) [
      | inl e ↦ (
        w,
        ground (arith, lookup-insert s t fresh m.strings, lookup-insert fresh r w m.refs),
        (text_eq_iff s t).0 e,
      )
      | inr e ↦
          let old : lookup t m.strings ≡ some r =
            ground (arith, lookup-insert s t fresh m.strings) in
          let (v, g, q) = valid.forth t r old in
          (v, ground (arith, lookup-insert fresh r w m.refs, valid.given r v), q)
    ]

    added-back :
        (r : ℕ) (v : Value) → lookup r added.refs ≡ some v → lookup v.s added.strings ≡ some r
    unfolding added fresh w
    added-back r v h = ground (
      arith,
      lookup-insert fresh r w m.refs,
      lookup-insert s v.s fresh m.strings,
      text_eq_iff s v.s,
      valid.back r v,
      ==_iff fresh r,
    )

    added-given : (r : ℕ) (v : Value) → lookup r added.refs ≡ some v → r ≤ added.last_ref
    unfolding added fresh w
    added-given r v h = ground (arith, lookup-insert fresh r w m.refs, valid.given r v)

    add-IsValid : IsValid (add m s count).0
    add-IsValid =
        subst (λ x. IsValid x.0) (sym add-added)
          (record { forth = added-forth; back = added-back; given = added-given })

  module _ (s : Bytes) (ref : ℕ) (w : Value) (here : lookup ref m.refs ≡ some w)
      (spells : w.s ≡ s) where
    drop_both-IsValid : IsValid (drop_both m s ref)
    drop_both-IsValid = record {
      forth = forth';
      back = λ r v h. ground (
        arith,
        lookup-remove ref r m.refs,
        lookup-remove s v.s m.strings,
        valid.back r v,
        text_eq_iff s v.s,
        valid.back ref w,
      );
      given = λ r v h. ground (arith, lookup-remove ref r m.refs, valid.given r v);
    }
      where
        forth' :
            (t : Bytes) (r : ℕ)
            → lookup t (remove s m.strings) ≡ some r
            → (v : Value) × (lookup r (remove ref m.refs) ≡ some v) × (v.s ≡ t)
        forth' t r h =
            let old : lookup t m.strings ≡ some r = ground (arith, lookup-remove s t m.strings) in
            let (v, g, q) = valid.forth t r old in
            (
              v,
              ground (
                arith,
                lookup-remove ref r m.refs,
                lookup-remove s t m.strings,
                text_eq_iff s t,
                ==_iff ref r,
              ),
              q,
            )

  pub create-IsValid : (s : Bytes) → m.last_ref + 1 < 2 ^ 64 → IsValid (create m s).0
  unfolding create
  create-IsValid s room = elim (Option-cases (lookup s m.strings)) [
    | inl e ↦ rw (e, create) (add-IsValid s (pos 0) e room)
    | inr (r, e) ↦ rw (e, create) valid
  ]

  pub incr-IsValid : (s : Bytes) (by : ℤ) → m.last_ref + 1 < 2 ^ 64 → IsValid (incr m s by).0
  unfolding incr
  incr-IsValid s by room = elim (Option-cases (lookup s m.strings)) [
    | inl e ↦ rw (e, incr) (add-IsValid s by e room)
    | inr (r, e) ↦ rw (e, incr) valid
  ]

  pub incr_ref-IsValid : (ref : ℕ) (by : ℤ) → IsValid (incr_ref m ref by)
  unfolding incr_ref
  incr_ref-IsValid ref by = elim (Option-cases (lookup ref m.refs)) [
    | inl e ↦ rw (e, incr_ref) valid
    | inr (v, e) ↦ rw (e, incr_ref) valid
  ]

  lower-IsValid :
      (ref : ℕ) (v : Value) (by : ℤ) → lookup ref m.refs ≡ some v → IsValid (lower m ref v by)
  unfolding lower
  lower-IsValid ref v by e = elim (Bool-cases (leb_ℤ (wrap_int (v.count -ℤ by)) (pos 0))) [
    | inl h ↦ rw h (drop_both-IsValid v.s ref v e refl)
    | inr h ↦ rw h valid
  ]

  pub decr_ref-IsValid : (ref : ℕ) (by : ℤ) → IsValid (decr_ref m ref by)
  unfolding decr_ref
  decr_ref-IsValid ref by = elim (Option-cases (lookup ref m.refs)) [
    | inl e ↦ rw (e, decr_ref) valid
    | inr (v, e) ↦ rw (e, decr_ref) (lower-IsValid ref v by e)
  ]

  pub decr-IsValid : (s : Bytes) (by : ℤ) → IsValid (decr m s by)
  unfolding decr
  decr-IsValid s by = elim (Option-cases (lookup s m.strings)) [
    | inl e ↦ rw (e, decr) valid
    | inr (r, e) ↦
        let (v, g, q) = valid.forth s r e in
        subst IsValid (sym (decr-lower m s r v by e g)) (lower-IsValid r v by g)
  ]

  pub delete-IsValid : (s : Bytes) → IsValid (delete m s)
  unfolding delete
  delete-IsValid s = elim (Option-cases (lookup s m.strings)) [
    | inl e ↦ rw (e, delete) valid
    | inr (r, e) ↦ let (v, g, q) = valid.forth s r e in rw (e, delete) (drop_both-IsValid s r v g q)
  ]

  pub delete_ref-IsValid : (ref : ℕ) → IsValid (delete_ref m ref)
  unfolding delete_ref
  delete_ref-IsValid ref = elim (Option-cases (lookup ref m.refs)) [
    | inl e ↦ rw (e, delete_ref) valid
    | inr (v, e) ↦ rw (e, delete_ref) (drop_both-IsValid v.s ref v e refl)
  ]
