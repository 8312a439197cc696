-- ===== src/RefMap/Counts.antt =====
-- Runs of operations: the references that they give out, and the counts.
use golly.Base.{
  ℕ, ◌+◌, ◌^◌, ◌≤◌, ◌<◌, some, List, [], ◌∷◌, Bytes, ◌≡◌, inl, inr, arith, Option-cases, length,
  ref_key, text_key,
}
use golly.Base.GoMap.{lookup, lookup-insert, lookup-remove}
use golly.Base.Int.{ℤ, pos}
use golly.RefMap.{
  Value, Map, next_ref, create, decr, decr_ref, delete, delete_ref, incr, incr_ref, look_up,
}
use golly.RefMap.Valid.{
  IsValid, create-IsValid, incr-IsValid, incr_ref-IsValid, decr-IsValid, decr_ref-IsValid,
  delete-IsValid, delete_ref-IsValid,
}

-- A call of one of the methods that may change a map.
pub data Op : Type 0 where
  create_op : Bytes → Op
  decr_op : Bytes → ℤ → Op
  decr_ref_op : ℕ → ℤ → Op
  delete_op : Bytes → Op
  delete_ref_op : ℕ → Op
  incr_op : Bytes → ℤ → Op
  incr_ref_op : ℕ → ℤ → Op

unfoldable pub apply : Map → Op → Map
apply m (create_op s) = (create m s).0
apply m (decr_op s by) = decr m s by
apply m (decr_ref_op ref by) = decr_ref m ref by
apply m (delete_op s) = delete m s
apply m (delete_ref_op ref) = delete_ref m ref
apply m (incr_op s by) = (incr m s by).0
apply m (incr_ref_op ref by) = incr_ref m ref by

unfoldable pub run : Map → List Op → Map
unfolding apply
run m [] = m
run m (op ∷ ops) = run (apply m op) ops

apply-last_ref :
    (m : Map) (op : Op)
    → m.last_ref + 1 < 2 ^ 64
    → (m.last_ref ≤ (apply m op).last_ref) × ((apply m op).last_ref ≤ m.last_ref + 1)
unfolding apply create decr decr_ref delete delete_ref incr incr_ref
apply-last_ref m (create_op s) h = ground arith
apply-last_ref m (decr_op s by) h = ground arith
apply-last_ref m (decr_ref_op ref by) h = ground arith
apply-last_ref m (delete_op s) h = ground arith
apply-last_ref m (delete_ref_op ref) h = ground arith
apply-last_ref m (incr_op s by) h = ground arith
apply-last_ref m (incr_ref_op ref by) h = ground arith

apply-IsValid : (m : Map) (op : Op) → IsValid m → m.last_ref + 1 < 2 ^ 64 → IsValid (apply m op)
unfolding apply
apply-IsValid m (create_op s) v h = create-IsValid v s h
apply-IsValid m (decr_op s by) v h = decr-IsValid v s by
apply-IsValid m (decr_ref_op ref by) v h = decr_ref-IsValid v ref by
apply-IsValid m (delete_op s) v h = delete-IsValid v s
apply-IsValid m (delete_ref_op ref) v h = delete_ref-IsValid v ref
apply-IsValid m (incr_op s by) v h = incr-IsValid v s by h
apply-IsValid m (incr_ref_op ref by) v h = incr_ref-IsValid v ref by

-- Any run of operations that the 64-bit counter has room for keeps the two maps inverse to one another.
pub run-IsValid :
    (ops : List Op) (m : Map) → IsValid m → m.last_ref + length ops < 2 ^ 64 → IsValid (run m ops)
unfolding run
run-IsValid [] m v h = v
run-IsValid (op ∷ ops) m v h =
    run-IsValid ops (apply m op) (apply-IsValid m op v (omega arith))
      (omega (arith, apply-last_ref m op (omega arith)))

-- An entry under an old reference is one that was there before.
apply-refs :
    (m : Map) (op : Op) (ref : ℕ) (v : Value)
    → m.last_ref + 1 < 2 ^ 64
    → ref ≤ m.last_ref
    → lookup ref (apply m op).refs ≡ some v
    → lookup ref m.refs ≡ some v
unfolding apply create decr decr_ref delete delete_ref incr incr_ref
apply-refs m (create_op s) r v h k e =
    ground (arith, lookup-insert (next_ref m) r (record { count = pos 0; s = s }) m.refs)
apply-refs m (decr_op s by) r v h k e = elim (Option-cases (lookup s m.strings)) [
  | inl q ↦ ground arith
  | inr (ref, q) ↦ ground (arith, lookup-remove ref r m.refs)
]
apply-refs m (decr_ref_op ref by) r v h k e = ground (arith, lookup-remove ref r m.refs)
apply-refs m (delete_op s) r v h k e = elim (Option-cases (lookup s m.strings)) [
  | inl q ↦ ground arith
  | inr (ref, q) ↦ ground (arith, lookup-remove ref r m.refs)
]
apply-refs m (delete_ref_op ref) r v h k e = ground (arith, lookup-remove ref r m.refs)
apply-refs m (incr_op s by) r v h k e =
    ground (arith, lookup-insert (next_ref m) r (record { count = by; s = s }) m.refs)
apply-refs m (incr_ref_op ref by) r v h k e = ground arith

run-refs :
    (ops : List Op) (m : Map) (ref : ℕ) (v : Value)
    → m.last_ref + length ops < 2 ^ 64
    → ref ≤ m.last_ref
    → lookup ref (run m ops).refs ≡ some v
    → lookup ref m.refs ≡ some v
unfolding run
run-refs [] m ref v h k e = e
run-refs (op ∷ ops) m ref v h k e =
    let small : m.last_ref + 1 < 2 ^ 64 = omega arith in
    let grows = apply-last_ref m op small in
    apply-refs m op ref v small k (run-refs ops (apply m op) ref v (omega arith) (omega arith) e)

-- A reference that was given out is never given to another string, also after the string that had
-- it was deleted: what any later state returns for it, the present state returns too.
pub look_up-run :
    (ops : List Op) (m : Map) (ref : ℕ) (s : Bytes)
    → m.last_ref + length ops < 2 ^ 64
    → ref ≤ m.last_ref
    → look_up (run m ops) ref ≡ some s
    → look_up m ref ≡ some s
unfolding look_up
look_up-run ops m ref s h k e = elim (Option-cases (lookup ref (run m ops).refs)) [
  | inl q ↦ absurd (ground arith)
  | inr (v, q) ↦ ground (arith, run-refs ops m ref v h k q)
]
