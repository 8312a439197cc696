-- ===== src/Lzf/Copy.antt =====
-- The two loops that copy, on a buffer whose first part is written.
use golly.Base.{
  ℕ, zero, suc, ◌+◌, ◌-◌, ◌≤◌, ◌<◌, [], ◌∷◌, ◌++◌, append_assoc, append-nil, ◌≡◌, refl, sym, ap,
  ◌∙◌, arith, Bytes,
}
use golly.Base.Calls.{ok, Fuel, read_at, write_at, write_at-append, read_at-append, read_at-get_or}
use golly.Base.Lists.{length, length-append, drop, get_or}
use golly.Lzf.{copy_literal, copy_back}
use golly.Lzf.Format.{repeated}

put-append :
    (out : Bytes) (y : ℕ) (z : Bytes) (j v : ℕ)
    → j ≡ length out
    → write_at {E = Fuel} (out ++ y ∷ z) j v ≡ ok ((out ++ v ∷ []) ++ z)
put-append out y z j v h =
    write_at-append out (y ∷ z) 0 j v (omega arith) ∙ ap ok (sym (append_assoc out (v ∷ []) z))

get_or-append : (xs ys : Bytes) (i : ℕ) → i < length xs → get_or (xs ++ ys) i 0 ≡ get_or xs i 0
get_or-append [] ys i h = absurd (omega arith)
get_or-append (x ∷ xs) ys zero h = refl
get_or-append (x ∷ xs) ys (suc i) h = get_or-append xs ys i (omega arith)

pub copy_literal-append :
    (run pre post out z : Bytes) (i j : ℕ)
    → i ≡ length pre
    → j ≡ length out
    → length run ≤ length z
    → copy_literal (length run) (pre ++ (run ++ post)) (out ++ z) i j
      ≡ ok ((out ++ run) ++ drop (length run) z)
unfolding copy_literal
copy_literal-append [] pre post out z i j hi hj h = ap (λ r. ok (r ++ z)) (sym (append-nil out))
copy_literal-append (b ∷ run) pre post out [] i j hi hj h = absurd (omega arith)
copy_literal-append (b ∷ run) pre post out (y ∷ z) i j hi hj h =
    let q : read_at {E = Fuel} (pre ++ b ∷ (run ++ post)) i ≡ ok b =
      read_at-append pre b (run ++ post) i hi in
    rw
      (
        q,
        put-append out y z j b hj,
        ← append_assoc pre (b ∷ []) (run ++ post),
        ← append_assoc out (b ∷ []) run,
      )
      (copy_literal-append run (pre ++ b ∷ []) post (out ++ b ∷ []) z (i + 1) (j + 1)
        (omega (arith, length-append pre (b ∷ []))) (omega (arith, length-append out (b ∷ [])))
        (omega arith))

pub copy_back-repeated :
    (n d : ℕ) (out z : Bytes) (k j : ℕ)
    → 0 < d
    → k + d ≡ j
    → j ≡ length out
    → n ≤ length z
    → copy_back n (out ++ z) k j ≡ ok (repeated n d out ++ drop n z)
unfolding copy_back
copy_back-repeated zero d out z k j p hk hj h = refl
copy_back-repeated (suc n) d out [] k j p hk hj h = absurd (omega arith)
copy_back-repeated (suc n) d out (y ∷ z) k j p hk hj h =
    let q : length out - d ≡ k = omega arith in
    rw
      (
        read_at-get_or (out ++ y ∷ z) k 0 (omega (arith, length-append out (y ∷ z))),
        get_or-append out (y ∷ z) k (omega arith),
        put-append out y z j (get_or out k 0) hj,
        q,
      )
      (copy_back-repeated n d (out ++ get_or out k 0 ∷ []) z (k + 1) (j + 1) p (omega arith)
        (omega (arith, length-append out (get_or out k 0 ∷ []))) (omega arith))
