-- ===== src/Prime/Loops.antt =====
-- Where the two loops of `Between` end, on a sorted table.
use golly.Base.{
  ℕ, suc, ◌+◌, ◌-◌, ◌≤◌, ◌<◌, inl, inr, Bool-cases, List, [], ◌∷◌, ◌++◌, ◌≡◌, refl, ap, arith, ltb,
  leb, ltb→lt, ltb→le, leb→le, leb→lt,
}
use mathlib.Core.Path.{subst}
use golly.Base.Calls.{ok}
use golly.Base.Lists.{length, get_or, All}
use golly.Prime.{max_of, skip_below, count_up_to}

abbrev pub IsSorted : List ℕ → Type 0
IsSorted [] = Unit
IsSorted (x ∷ xs) = All (λ y. x ≤ y) xs × IsSorted xs

pub IsSorted-right : (xs ys : List ℕ) → IsSorted (xs ++ ys) → IsSorted ys
IsSorted-right [] ys h = h
IsSorted-right (x ∷ xs) ys (k, h) = IsSorted-right xs ys h

pub All-map : (P Q : ℕ → Type 0) → ((x : ℕ) → P x → Q x) → (xs : List ℕ) → All P xs → All Q xs
All-map P Q f [] h = tt
All-map P Q f (x ∷ xs) (p, h) = (f x p, All-map P Q f xs h)

pub All-left : (P : ℕ → Type 0) (xs ys : List ℕ) → All P (xs ++ ys) → All P xs
All-left P [] ys h = tt
All-left P (x ∷ xs) ys (p, h) = (p, All-left P xs ys h)

-- Where the first loop ends.
pub record Below (start : ℕ) (table : List ℕ) (i : ℕ) : Type 0 where
  pub below : List ℕ
  pub first : ℕ
  pub above : List ℕ
  pub splits : table ≡ below ++ first ∷ above
  pub small : All (λ y. y < start) below
  pub reached : start ≤ first
  pub ends : skip_below start table i ≡ ok (i + length below)

pub skip-Below :
    (start : ℕ) (table : List ℕ) (i : ℕ) → ¬ All (λ y. y < start) table → Below start table i
unfolding skip_below
skip-Below start [] i h = absurd (h tt)
skip-Below start (x ∷ xs) i h = elim (Bool-cases (ltb x start)) [
  | inl l ↦
      let r = skip-Below start xs (i + 1) (λ a. h (ltb→lt x start l, a)) in
      let q : i + 1 + length r.below ≡ i + length (x ∷ r.below) = omega arith in
      record {
        below = x ∷ r.below;
        first = r.first;
        above = r.above;
        splits = ap (λ t. x ∷ t) r.splits;
        small = (ltb→lt x start l, r.small);
        reached = r.reached;
        ends = rw (l, r.ends, q) refl;
      }
  | inr l ↦ record {
    below = [];
    first = x;
    above = xs;
    splits = refl;
    small = tt;
    reached = ltb→le x start l;
    ends = let q : i ≡ i + 0 = omega arith in rw l (ap ok q);
  }
]

-- Where the second loop ends, on a sorted list.
pub record Inside (end : ℕ) (xs : List ℕ) : Type 0 where
  pub inside : List ℕ
  pub beyond : List ℕ
  pub splits : xs ≡ inside ++ beyond
  pub small : All (λ y. y ≤ end) inside
  pub large : All (λ y. end < y) beyond
  pub counts : count_up_to end xs ≡ length inside

pub count-Inside : (end : ℕ) (xs : List ℕ) → IsSorted xs → Inside end xs
unfolding count_up_to
count-Inside end [] s = record {
  inside = [];
  beyond = [];
  splits = refl;
  small = tt;
  large = tt;
  counts = refl;
}
count-Inside end (x ∷ xs) (k, s) = elim (Bool-cases (leb x end)) [
  | inl l ↦
      let r = count-Inside end xs s in
      record {
        inside = x ∷ r.inside;
        beyond = r.beyond;
        splits = ap (λ t. x ∷ t) r.splits;
        small = (leb→le x end l, r.small);
        large = r.large;
        counts = rw l (ap suc r.counts);
      }
  | inr l ↦ record {
    inside = [];
    beyond = x ∷ xs;
    splits = refl;
    small = tt;
    large = (
      leb→lt x end l,
      All-map (λ y. x ≤ y) (λ y. end < y) (λ y h. omega (arith, leb→lt x end l)) xs k,
    );
    counts = rw l refl;
  }
]

pub All-max_of : (P : ℕ → Type 0) (xs : List ℕ) → 0 < length xs → All P xs → P (max_of xs)
All-max_of P [] h a = absurd (omega arith)
All-max_of P (x ∷ []) h (p, a) = p
All-max_of P (x ∷ y ∷ xs) h (p, a) =
    let q : suc (suc (length xs) - 1) ≡ suc (suc (length xs)) - 1 = omega arith in
    subst (λ k. P (get_or (x ∷ y ∷ xs) k 0)) q (All-max_of P (y ∷ xs) (omega arith) a)

pub not-All_small :
    (table : List ℕ) (start : ℕ) → start < max_of table → ¬ All (λ y. y < start) table
not-All_small [] start h a = absurd (omega arith)
not-All_small (x ∷ xs) start h a =
    let l : max_of (x ∷ xs) < start = All-max_of (λ y. y < start) (x ∷ xs) (omega arith) a in
    absurd (omega arith)

pub All-nothing : (P : ℕ → Type 0) (xs : List ℕ) → length xs ≡ 0 → All P xs
All-nothing P [] h = tt
All-nothing P (x ∷ xs) h = absurd (omega arith)
