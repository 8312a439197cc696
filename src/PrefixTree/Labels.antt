-- ===== src/PrefixTree/Labels.antt =====
-- A key against the label of a node.
use golly.Base.{
  ℕ, suc, true, false, inl, inr, Bool-cases, Option, none, some, [], ◌∷◌, ◌≡◌, refl, ◌∙◌, arith,
  Bytes, if◌then◌else◌, ltb, ◌==◌, text_eq,
}
use golly.Base.Lists.{length, drop}
use golly.PrefixTree.{leaves_label}

-- What is behind a label in a key that begins with it.
abbrev pub strip : Bytes → Bytes → Option Bytes
strip [] key = some key
strip (c ∷ label) [] = none
strip (c ∷ label) (b ∷ key) = if b == c then strip label key else none

-- The tests of the code at a label, and what is behind the label.
pub data Meets (label key : Bytes) : Type 0 where
  same : text_eq key label ≡ true → strip label key ≡ some [] → Meets label key
  leaves :
      text_eq key label ≡ false
      → leaves_label key label ≡ true
      → strip label key ≡ none
      → Meets label key
  below :
      (c : ℕ) (k : Bytes)
      → text_eq key label ≡ false
      → leaves_label key label ≡ false
      → drop (length label) key ≡ c ∷ k
      → strip label key ≡ some (c ∷ k)
      → Meets label key

ltb-suc : (a b : ℕ) → ltb (suc a) (suc b) ≡ ltb a b
ltb-suc a b = ground arith

leaves_cons :
    (b c : ℕ) (key label : Bytes)
    → (b == c) ≡ true
    → leaves_label (b ∷ key) (c ∷ label) ≡ leaves_label key label
unfolding text_eq
leaves_cons b c key label e = rw (ltb-suc (length key) (length label), e) refl

leaves_other :
    (b c : ℕ) (key label : Bytes) → (b == c) ≡ false → leaves_label (b ∷ key) (c ∷ label) ≡ true
unfolding text_eq
leaves_other b c key label e =
    rw e (elim (Bool-cases (ltb (length (b ∷ key)) (length (c ∷ label)))) [
      | inl t ↦ rw t refl
      | inr t ↦ rw t refl
    ])

pub meets : (label key : Bytes) → Meets label key
unfolding text_eq
meets [] [] = same refl refl
meets [] (b ∷ key) =
    let l : ltb (suc (length key)) 0 ≡ false = ground arith in
    below b key refl (rw l refl) refl refl
meets (c ∷ label) [] =
    let l : ltb 0 (suc (length label)) ≡ true = ground arith in leaves refl (rw l refl) refl
meets (c ∷ label) (b ∷ key) = elim (Bool-cases (b == c)) [
  | inr t ↦ leaves (rw t refl) (leaves_other b c key label t) (rw t refl)
  | inl t ↦ elim (meets label key) [
    | same e s ↦ same (rw (t, e) refl) (rw t s)
    | leaves e l s ↦ leaves (rw (t, e) refl) (leaves_cons b c key label t ∙ l) (rw t s)
    | below d k e l r s ↦ below d k (rw (t, e) refl) (leaves_cons b c key label t ∙ l) r (rw t s)
  ]
]
