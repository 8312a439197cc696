-- ===== src/Lzf/Compress/Buffer.antt =====
-- The output of `Compress` while it is written: four bytes for the size, what was written for good,
-- and the rest of the buffer; and the parts of the input.
use golly.Base.{
  ℕ, zero, suc, ◌+◌, ◌≤◌, ◌<◌, [], ◌∷◌, ◌++◌, append_assoc, ◌≡◌, refl, sym, ap, ◌∙◌, arith, Bytes,
  IsBytes,
}
use golly.Base.Calls.{ok, Fuel, write_at, write_at-append}
use golly.Base.Lists.{length, length-append, take, get_or}

abbrev pub front : Bytes → Bytes
front xs = 0 ∷ 0 ∷ 0 ∷ 0 ∷ xs

pub put_front :
    (xs : Bytes) (y : ℕ) (z : Bytes) (j v : ℕ)
    → j ≡ 4 + length xs
    → write_at {E = Fuel} (front (xs ++ y ∷ z)) j v ≡ ok (front (xs ++ v ∷ z))
put_front xs y z j v h = write_at-append (front xs) (y ∷ z) 0 j v (omega arith)

-- A write behind a slot and the bytes that follow it.
pub put_behind :
    (enc : Bytes) (slot : ℕ) (lits : Bytes) (y : ℕ) (z : Bytes) (j v : ℕ)
    → j ≡ 5 + length enc + length lits
    → write_at {E = Fuel} (front (enc ++ slot ∷ (lits ++ y ∷ z))) j v
      ≡ ok (front (enc ++ slot ∷ (lits ++ v ∷ z)))
put_behind enc slot lits y z j v h =
    let regroup : (r : Bytes)
        → front (enc ++ slot ∷ (lits ++ r)) ≡ front ((enc ++ slot ∷ lits) ++ r) =
      λ r. ap front (sym (append_assoc enc (slot ∷ lits) r)) in
    ap (λ b. write_at b j v) (regroup (y ∷ z))
    ∙ put_front (enc ++ slot ∷ lits) y z j v (omega (arith, length-append enc (slot ∷ lits)))
    ∙ ap ok (sym (regroup (v ∷ z)))

pub take-snoc :
    (xs : Bytes) (i : ℕ) → i < length xs → take (suc i) xs ≡ take i xs ++ get_or xs i 0 ∷ []
take-snoc [] i h = absurd (omega arith)
take-snoc (x ∷ xs) zero h = refl
take-snoc (x ∷ xs) (suc i) h = ap (λ r. x ∷ r) (take-snoc xs i (omega arith))

pub take-all : (xs : Bytes) (n : ℕ) → n ≡ length xs → take n xs ≡ xs
take-all [] zero h = refl
take-all [] (suc n) h = refl
take-all (x ∷ xs) zero h = absurd (omega arith)
take-all (x ∷ xs) (suc n) h = ap (λ r. x ∷ r) (take-all xs n (omega arith))

pub get_or-take :
    (xs : Bytes) (n i : ℕ) → i < n → n ≤ length xs → get_or (take n xs) i 0 ≡ get_or xs i 0
get_or-take [] n i h k = absurd (omega arith)
get_or-take (x ∷ xs) zero i h k = absurd (omega arith)
get_or-take (x ∷ xs) (suc n) zero h k = refl
get_or-take (x ∷ xs) (suc n) (suc i) h k = get_or-take xs n i (omega arith) (omega arith)

pub IsBytes-take : (xs : Bytes) (n : ℕ) → IsBytes xs → IsBytes (take n xs)
IsBytes-take xs zero h = tt
IsBytes-take [] (suc n) h = tt
IsBytes-take (x ∷ xs) (suc n) (p, h) = (p, IsBytes-take xs n h)

pub IsBytes-append : (xs ys : Bytes) → IsBytes xs → IsBytes ys → IsBytes (xs ++ ys)
IsBytes-append [] ys hx hy = hy
IsBytes-append (x ∷ xs) ys (p, hx) hy = (p, IsBytes-append xs ys hx hy)
