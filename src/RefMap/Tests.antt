-- ===== src/RefMap/Tests.antt =====
-- The theorems at a map of two strings, and what `Incr` and `Decr` do there.
use golly.Base.{text_eq, none, some, List, [], ◌∷◌, codes, ◌≡◌, refl, arith, ref_key, text_key}
use golly.Base.GoMap.{lookup, insert, remove}
use golly.Base.Int.{pos, ◌-ℤ◌, ◌+ℤ◌, wrap_int}
use golly.RefMap.{
  Map, starting_from, create, decr, decr_ref, delete, delete_ref, get, incr, incr_ref, look_up, new,
}
use golly.RefMap.Valid.{IsValid, starting_from-IsValid}
use golly.RefMap.Counts.{Op, create_op, delete_op, incr_op, run, run-IsValid, look_up-run}

program : Unit {0}
unfolding new starting_from create decr decr_ref delete delete_ref get incr incr_ref look_up run
    lookup text_eq insert remove ◌-ℤ◌ ◌+ℤ◌ wrap_int
program = tt

abbrev calls : List Op
calls = create_op (codes "tav") ∷ incr_op (codes "sofia") (pos 3) ∷ []

abbrev two : Map
two = run (starting_from 40) calls

two_refs : (get two (codes "tav") ≡ 41) × (look_up two 42 ≡ some (codes "sofia"))
unfolding program
two_refs = (refl, refl)

-- Three uses and five more are counted: still four releases delete the string.
forgets : look_up (decr_ref (incr two (codes "sofia") (pos 5)).0 42 (pos 4)) 42 ≡ none
unfolding program
forgets = refl

run-IsValid_example : IsValid two
run-IsValid_example =
    run-IsValid calls (starting_from 40) (starting_from-IsValid 40)
      (unfold starting_from in omega arith)

look_up-run_example : look_up two 41 ≡ some (codes "tav")
look_up-run_example =
    look_up-run (delete_op (codes "sofia") ∷ []) two 41 (codes "tav")
      (unfold program in omega arith) (unfold program in omega arith) (unfold program in refl)
