-- ===== src/Base/Calls.antt =====
-- What a Go call does: it returns a value, returns an error, or panics.
use mathlib.Core.Path.{◌≡◌, refl, ap}
use Prim.Native.Nat.{ℕ, zero, suc, ◌+◌, ◌<◌}
use mathlib.Core.List.{List, [], ◌∷◌, ◌++◌}
use mathlib.Core.Option.{none, some}
use native.Mathlib.Omega.{arith}
use golly.Base.Lists.{length, get_elem?, get_elem?-append, get_or, set}

pub data Outcome {ℓ κ} (E : Type ℓ) (A : Type κ) : Type (ℓ ⊔ κ) where
  ok : A → Outcome E A
  err : E → Outcome E A
  panic : Outcome E A

infixl 5 ◌>>=◌
abbrev pub ◌>>=◌ {ℓ κ μ} :
    {E : Type ℓ} {A : Type κ} {B : Type μ} → Outcome E A → (A → Outcome E B) → Outcome E B
ok a >>= f = f a
err e >>= f = err e
panic >>= f = panic

abbrev pub map_ok {ℓ κ μ} :
    {E : Type ℓ} {A : Type κ} {B : Type μ} → (A → B) → Outcome E A → Outcome E B
map_ok f (ok a) = ok (f a)
map_ok f (err e) = err e
map_ok f panic = panic

map_ok_id {ℓ κ} : {E : Type ℓ} {A : Type κ} (r : Outcome E A) → r ≡ map_ok (λ a. a) r
map_ok_id (ok a) = refl
map_ok_id (err e) = refl
map_ok_id panic = refl

module _ {ℓ κ} {E : Type ℓ} {A : Type κ} where
  -- `xs[i]`
  abbrev pub read_at : List A → ℕ → Outcome E A
  read_at xs i = elim (get_elem? xs i) [ some x ↦ ok x | none ↦ panic ]

  -- `xs[i] = v`
  abbrev pub write_at : List A → ℕ → A → Outcome E (List A)
  write_at [] i v = panic
  write_at (x ∷ xs) zero v = ok (v ∷ xs)
  write_at (x ∷ xs) (suc i) v = map_ok (λ ys. x ∷ ys) (write_at xs i v)

  -- A write behind a prefix leaves the prefix alone.
  pub write_at-append :
      (out rest : List A) (i j : ℕ) (v : A)
      → j ≡ length out + i
      → write_at (out ++ rest) j v ≡ map_ok (λ ys. out ++ ys) (write_at rest i v)
  write_at-append [] rest i j v h =
      let e : j ≡ i = omega arith in rw e (map_ok_id (write_at rest i v))
  write_at-append (y ∷ out) rest i zero v h = absurd (omega arith)
  write_at-append (y ∷ out) rest i (suc j) v h =
      rw (write_at-append out rest i j v (omega arith)) (map_ok_map_ok (write_at rest i v))
    where
      map_ok_map_ok :
          (r : Outcome E (List A))
          → map_ok (λ ys. y ∷ ys) (map_ok (λ ys. out ++ ys) r) ≡ map_ok (λ ys. (y ∷ out) ++ ys) r
      map_ok_map_ok (ok ys) = refl
      map_ok_map_ok (err e) = refl
      map_ok_map_ok panic = refl

  pub write_at-set :
      (xs : List A) (i : ℕ) (v : A) → i < length xs → write_at xs i v ≡ ok (set xs i v)
  write_at-set [] i v h = absurd (omega arith)
  write_at-set (x ∷ xs) zero v h = refl
  write_at-set (x ∷ xs) (suc i) v h = ap (map_ok (λ ys. x ∷ ys)) (write_at-set xs i v (omega arith))

  pub read_at-some : (xs : List A) (i : ℕ) (x : A) → get_elem? xs i ≡ some x → read_at xs i ≡ ok x
  read_at-some [] i x h = cc
  read_at-some (y ∷ xs) zero x h = cc
  read_at-some (y ∷ xs) (suc i) x h = read_at-some xs i x h

  pub read_at-append :
      (xs : List A) (y : A) (ys : List A) (n : ℕ) → n ≡ length xs → read_at (xs ++ y ∷ ys) n ≡ ok y
  read_at-append xs y ys n h = read_at-some (xs ++ y ∷ ys) n y (get_elem?-append xs (y ∷ ys) n h)

  pub read_at-get_or :
      (xs : List A) (i : ℕ) (d : A) → i < length xs → read_at xs i ≡ ok (get_or xs i d)
  read_at-get_or [] i d h = absurd (omega arith)
  read_at-get_or (x ∷ xs) zero d h = refl
  read_at-get_or (x ∷ xs) (suc i) d h = read_at-get_or xs i d (omega arith)

-- A call that fails in no other way than by a panic. The loops of the model take fuel, and a loop
-- that would go on when its fuel is spent is told apart from all that the code does.
pub data Fuel : Type 0 where
  out_of_fuel : Fuel

abbrev pub Run {ℓ} : Type ℓ → Type ℓ
Run A = Outcome Fuel A
