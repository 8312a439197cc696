-- ===== src/RefMap/Methods.antt =====
-- What `Create` and the two deletions do to what `Get` and `Lookup` return.
use golly.Base.{
  ℕ, ◌+◌, ◌^◌, ◌<◌, none, some, Bytes, ◌≡◌, ◌≢◌, inl, inr, arith, text_eq_iff, ==_iff, Option-cases,
  ref_key, text_key, ap,
}
use golly.Base.GoMap.{lookup, lookup-insert, lookup-remove}
use golly.Base.Int.{pos}
use golly.RefMap.{Value, Map, next_ref, drop_both, create, delete, delete_ref, get, look_up}
use golly.RefMap.Valid.{IsValid}

-- Two results of a map that agree with those of another but at one string and one reference.
abbrev pub AgreeBut : Bytes → ℕ → Map → Map → Type 0
AgreeBut s ref m m' =
    ((t : Bytes) → t ≢ s → get m' t ≡ get m t) × ((r : ℕ) → r ≢ ref → look_up m' r ≡ look_up m r)

-- `Create` returns a reference by which the string is found and which the string has, whether it is
-- a new one or the old one, and no other string or reference is touched.
pub create-look_up :
    (m : Map) (s : Bytes)
    → IsValid m
    → m.last_ref + 1 < 2 ^ 64
    → (look_up (create m s).0 (create m s).1 ≡ some s)
      × (get (create m s).0 s ≡ (create m s).1)
      × AgreeBut s (create m s).1 m (create m s).0
unfolding create look_up get
create-look_up m s valid room = elim (Option-cases (lookup s m.strings)) [
  | inr (ref, e) ↦
      let (v, g, q) = valid.forth s ref e in
      (ground arith, ground arith, ((λ t h. ground arith), (λ r h. ground arith)))
  | inl e ↦
      let ref = next_ref m in
      let w : Value = record { count = pos 0; s = s } in
      (
        ground (arith, lookup-insert ref ref w m.refs),
        ground (arith, lookup-insert s s ref m.strings, text_eq_iff s s),
        (
          (λ t h. ground (arith, lookup-insert s t ref m.strings, text_eq_iff s t)),
          (λ r h. ground (arith, lookup-insert ref r w m.refs, ==_iff ref r)),
        ),
      )
]

-- `Delete` of a string and `DeleteRef` of its reference are the same change: both are gone, and no
-- other string or reference is touched.
pub delete-delete_ref :
    (m : Map) (s : Bytes) (ref : ℕ)
    → IsValid m
    → lookup s m.strings ≡ some ref
    → (delete_ref m ref ≡ delete m s)
      × (get (delete m s) s ≡ 0)
      × (look_up (delete m s) ref ≡ none)
      × AgreeBut s ref m (delete m s)
unfolding delete delete_ref look_up get
delete-delete_ref m s ref valid e =
    let (v, g, q) = valid.forth s ref e in
    (
      rw (e, g, delete, delete_ref) (ap (λ t. drop_both m t ref) q),
      ground (arith, lookup-remove s s m.strings, text_eq_iff s s),
      ground (arith, lookup-remove ref ref m.refs),
      (
        (λ t h. ground (arith, lookup-remove s t m.strings, text_eq_iff s t)),
        (λ r h. ground (arith, lookup-remove ref r m.refs, ==_iff ref r)),
      ),
    )
