-- ===== src/RefMap.antt =====
-- refmap/refmap.go: integer references in place of long strings.
--
-- The two Go maps are association lists. `count` is an `int` and wraps; `lastRef` is a `uint64`
-- and wraps. A `value` read from a map is a copy, as in Go: what is done to the copy is lost
-- unless the code writes it back.
pub mod Valid
pub mod Counts
pub mod Methods
mod Tests
use golly.Base.{
  ℕ, ◌+◌, ◌%◌, ◌^◌, Bool, Option, none, some, List, [], Bytes, if◌then◌else◌, ref_key, text_key,
}
use golly.Base.GoMap.{GoMap, lookup, insert, remove}
use golly.Base.Int.{ℤ, pos, ◌+ℤ◌, ◌-ℤ◌, leb_ℤ, wrap_int}

-- `value`
pub record Value : Type 0 where
  pub count : ℤ
  pub s : Bytes

pub record Map : Type 0 where
  pub last_ref : ℕ
  pub refs : GoMap ℕ Value
  pub strings : GoMap Bytes ℕ

-- `m.lastRef += 1`
abbrev pub next_ref : Map → ℕ
next_ref m = (m.last_ref + 1) % 2 ^ 64

-- The tail that `Create` and `Incr` share: a new reference for `s`.
abbrev pub add : Map → Bytes → ℤ → Map × ℕ
add m s count =
    let ref = next_ref m in
    (
      record {
        last_ref = ref;
        strings = insert s ref m.strings;
        refs = insert ref (record { count = count; s = s }) m.refs;
      },
      ref,
    )

-- The two calls of `delete` that end the deleting operations.
abbrev pub drop_both : Map → Bytes → ℕ → Map
drop_both m s ref = record m { strings = remove s m.strings; refs = remove ref m.refs }

unfoldable pub create : Map → Bytes → Map × ℕ
create m s = elim (lookup s m.strings) [ some ref ↦ (m, ref) | none ↦ add m s (pos 0) ]

-- `m.refs[ref]`, the zero value for a missing key
abbrev pub value_at : Map → ℕ → Value
value_at m ref = elim (lookup ref m.refs) [ some v ↦ v | none ↦ record { count = pos 0; s = [] } ]

-- `value.count -= by`, and the test and the deletions behind it, on a copy of the value.
unfoldable pub lower : Map → ℕ → Value → ℤ → Map
lower m ref value by =
    let value = record value { count = wrap_int (value.count -ℤ by) } in
    if leb_ℤ value.count (pos 0) then drop_both m value.s ref else m

unfoldable pub decr : Map → Bytes → ℤ → Map
unfolding lower
decr m s by = elim (lookup s m.strings) [ none ↦ m | some ref ↦ lower m ref (value_at m ref) by ]

unfoldable pub decr_ref : Map → ℕ → ℤ → Map
unfolding lower
decr_ref m ref by = elim (lookup ref m.refs) [ none ↦ m | some value ↦ lower m ref value by ]

unfoldable pub delete : Map → Bytes → Map
delete m s = elim (lookup s m.strings) [ none ↦ m | some ref ↦ drop_both m s ref ]

unfoldable pub delete_ref : Map → ℕ → Map
delete_ref m ref = elim (lookup ref m.refs) [ none ↦ m | some value ↦ drop_both m value.s ref ]

unfoldable pub get : Map → Bytes → ℕ
get m s = elim (lookup s m.strings) [ some ref ↦ ref | none ↦ 0 ]

-- `value.count += by` raises the count of a copy that nothing reads.
unfoldable pub incr : Map → Bytes → ℤ → Map × ℕ
incr m s by = elim (lookup s m.strings) [
  | some ref ↦
      let value = value_at m ref in
      let value = record value { count = wrap_int (value.count +ℤ by) } in (m, ref)
  | none ↦ add m s by
]

unfoldable pub incr_ref : Map → ℕ → ℤ → Map
incr_ref m ref by = elim (lookup ref m.refs) [
  | none ↦ m
  | some value ↦ let value = record value { count = wrap_int (value.count +ℤ by) } in m
]

-- `Lookup` returns a string and whether it was found.
unfoldable pub look_up : Map → ℕ → Option Bytes
look_up m ref = elim (lookup ref m.refs) [ some value ↦ some value.s | none ↦ none ]

unfoldable pub starting_from : ℕ → Map
starting_from start = record { last_ref = start; refs = []; strings = [] }

unfoldable pub new : Map
unfolding starting_from
new = record { last_ref = 0; refs = []; strings = [] }
