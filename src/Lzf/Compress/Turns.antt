-- ===== src/Lzf/Compress/Turns.antt =====
-- A round of the loop of `Compress`.
use Prim.Native.Nat.{bit_or}
use golly.Base.{ℕ, ◌+◌, ◌-◌, ◌*◌, ◌≤◌, ◌<◌, inl, inr, Bool-cases, ◌≡◌, refl, arith, Bytes, ◌==◌}
use mathlib.Core.Path.{subst}
use golly.Base.Calls.{read_at-get_or, ok}
use golly.Base.Lists.{length, get_or}
use golly.Lzf.Compress.{
  Packer, Progress, goes_on, breaks, gives_nil, rehash, put, slot_of, shift_in,
}
use golly.Lzf.Compress.Steps.{Inv, Holds}

-- The table names positions before `i` only.
unfoldable pub Fresh : (ℕ → ℕ) → ℕ → Type 0
Fresh table i = (k : ℕ) → 0 < table k → table k < i

pub Fresh-put : (table : ℕ → ℕ) (slot i j : ℕ) → Fresh table i → j < i → Fresh (put table slot j) i
unfolding Fresh
Fresh-put table slot i j f h k p = elim (Bool-cases (k == slot)) [
  | inl t ↦ rw t h
  | inr t ↦ rw t (f k (rw t at p))
]

pub Fresh-le : (table : ℕ → ℕ) (i j : ℕ) → Fresh table i → i ≤ j → Fresh table j
unfolding Fresh
Fresh-le table i j f h k p = omega (arith, f k p)

-- What a round leaves.
unfoldable pub After : Bytes → ℕ → Progress → Type 0
After input iidx (goes_on s) = Holds input s × Fresh s.table s.iidx × iidx < s.iidx
After input iidx (breaks s) = Holds input s × length input ≤ s.iidx + 2
After input iidx gives_nil = Unit

pub rehash-After :
    (input : Bytes) (s : Packer) (before : ℕ)
    → Holds input s
    → Fresh s.table s.iidx
    → before + 2 < s.iidx
    → s.iidx + 2 < length input
    → (p : Progress) × (rehash input s ≡ ok p) × After input before p
unfolding rehash After
rehash-After input s before holds fresh h k =
    let i : ℕ = s.iidx - 2 in
    let e : s.iidx ≡ i + 1 + 1 = omega arith in
    let g : ℕ =
      bit_or (bit_or (get_or input i 0 * 256) (get_or input (i + 1) 0 * 256))
        (get_or input (i + 2) 0) in
    let g' : ℕ = shift_in g (get_or input (i + 1 + 2) 0) in
    let table : ℕ → ℕ = put (put s.table (slot_of g) i) (slot_of g') (i + 1) in
    (
      goes_on (record s { iidx = i + 1 + 1; table = table; hval = g' }),
      rw
          (
            read_at-get_or input i 0 (omega arith),
            read_at-get_or input (i + 1) 0 (omega arith),
            read_at-get_or input (i + 2) 0 (omega arith),
            read_at-get_or input (i + 1 + 2) 0 (omega arith),
          )
          refl,
      (
        subst (λ m. Inv input s.output m s.oidx s.literal) e holds,
        subst (Fresh table) e (
            Fresh-put _ (slot_of g') s.iidx (i + 1)
              (Fresh-put s.table (slot_of g) s.iidx i fresh (omega arith)) (omega arith)),
        omega arith,
      ),
    )
