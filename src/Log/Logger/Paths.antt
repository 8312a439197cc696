-- ===== src/Log/Logger/Paths.antt =====
-- The loggers that an entry goes through on its way up.
use golly.Base.{
  ℕ, zero, suc, ◌+◌, ◌<◌, ◌≤◌, Bool, true, false, Option, none, some, List, [], ◌∷◌, ◌++◌, ◌≡◌,
  refl, arith, ap, inl, inr, Option-cases, Bool-cases,
}
use mathlib.Core.Path.{subst, sym, ◌∙◌}
use golly.Base.Calls.{ok, read_at-some}
use golly.Base.Lists.{length, get_elem?, get_elem?-some, set}
use golly.Log.Logger.{Logger, System, Walk, climb, note_place, hand_over}

abbrev pub Below : Option ℕ → ℕ → Type 0
Below none n = Unit
Below (some p) n = p < n

module _ {D W : Type 0} where
  abbrev pub stops : Logger D W → Bool
  stops logger = elim logger.parent [ none ↦ true | some p ↦ logger.stop ]

  stops-stop : (logger : Logger D W) → logger.stop ≡ true → stops logger ≡ true
  stops-stop logger t = grind arith

  stops-none : (logger : Logger D W) → logger.parent ≡ none → stops logger ≡ true
  stops-none logger e = rw e refl

  -- The loggers from the one of an index up to the first that has no parent or stops.
  pub data Up (ls : List (Logger D W)) : ℕ → List (Logger D W) → Type 0 where
    up_top :
        (l : ℕ) (logger : Logger D W)
        → get_elem? ls l ≡ some logger
        → stops logger ≡ true
        → Up ls l (logger ∷ [])
    up_next :
        (l p : ℕ) (logger : Logger D W) (above : List (Logger D W))
        → get_elem? ls l ≡ some logger
        → logger.parent ≡ some p
        → logger.stop ≡ false
        → Up ls p above
        → Up ls l (logger ∷ above)

  -- What `climb` does on the way.
  unfoldable pub pass : System W → Bool → ℕ → List (Logger D W) → Walk D W → Walk D W
  pass system debug depth [] s = s
  pass system debug depth (logger ∷ above) s =
      pass system debug depth above (hand_over logger (note_place system debug depth s))

  pub climb-Up :
      (ls : List (Logger D W)) (system : System W) (debug : Bool) (depth fuel : ℕ) (s : Walk D W)
      {l : ℕ} {above : List (Logger D W)}
      → Up ls l above
      → length above ≤ fuel
      → climb fuel ls l system debug depth s ≡ ok (pass system debug depth above s)
  unfolding climb pass
  climb-Up ls system debug depth zero s (up_top l logger q t) h = absurd (omega arith)
  climb-Up ls system debug depth (suc fuel) s (up_top l logger q t) h =
      rw (read_at-some ls l logger q) (elim (Option-cases logger.parent) [
        | inl e ↦ rw e refl
        | inr (p, e) ↦ let f : logger.stop ≡ true = grind arith in rw (e, f) refl
      ])
  climb-Up ls system debug depth zero s (up_next l p logger above q e t u) h = absurd (omega arith)
  climb-Up ls system debug depth (suc fuel) s (up_next l p logger above q e t u) h =
      rw (read_at-some ls l logger q, e, t) (climb-Up ls system debug depth fuel _ u (omega arith))

  -- Every logger was made behind its parent; the first logger of the list has index `n`.
  unfoldable pub RootedFrom : ℕ → List (Logger D W) → Type 0
  RootedFrom n [] = Unit
  RootedFrom n (logger ∷ loggers) = Below logger.parent n × RootedFrom (suc n) loggers

  unfoldable pub IsRooted : List (Logger D W) → Type 0
  IsRooted ls = RootedFrom 0 ls

  RootedFrom-Below :
      (n : ℕ) (ls : List (Logger D W)) (i : ℕ) (logger : Logger D W)
      → RootedFrom n ls
      → get_elem? ls i ≡ some logger
      → Below logger.parent (n + i)
  unfolding RootedFrom
  RootedFrom-Below n [] i logger r e = absurd (cc e)
  RootedFrom-Below n (x ∷ ls) zero logger (b, r) e =
      let q : n ≡ n + 0 = omega arith in
      let u : x ≡ logger = cc in
      subst (λ m. Below logger.parent m) q (subst (λ y. Below y.parent n) u b)
  RootedFrom-Below n (x ∷ ls) (suc i) logger (b, r) e =
      let q : suc n + i ≡ n + suc i = omega arith in
      subst (λ m. Below logger.parent m) q (RootedFrom-Below (suc n) ls i logger r e)

  Reaches : List (Logger D W) → ℕ → Type 0
  Reaches ls l = (above : List (Logger D W)) × Up ls l above × length above ≤ suc l

  rooted-Reaches :
      (n : ℕ) (ls : List (Logger D W)) (l : ℕ) → IsRooted ls → l < n → l < length ls → Reaches ls l
  unfolding IsRooted Reaches
  rooted-Reaches zero ls l r h k = absurd (omega arith)
  rooted-Reaches (suc n) ls l r h k =
      let (logger, q) = get_elem?-some ls l k in
      elim (Bool-cases logger.stop) [
        | inl t ↦ (logger ∷ [], up_top l logger q (stops-stop logger t), omega arith)
        | inr t ↦ elim (Option-cases logger.parent) [
          | inl e ↦ (logger ∷ [], up_top l logger q (stops-none logger e), omega arith)
          | inr (p, e) ↦
              let b : p < 0 + l =
                subst (λ m. Below m (0 + l)) e (RootedFrom-Below 0 ls l logger r q) in
              let (above, u, c) = rooted-Reaches n ls p r (omega arith) (omega arith) in
              (logger ∷ above, up_next l p logger above q e t u, omega arith)
        ]
      ]

  pub Up-exists :
      (ls : List (Logger D W)) (l : ℕ)
      → IsRooted ls
      → l < length ls
      → (above : List (Logger D W)) × Up ls l above × length above ≤ length ls
  unfolding Reaches
  Up-exists ls l r h =
      let (above, u, c) = rooted-Reaches (suc l) ls l r (omega arith) h in (above, u, omega arith)

  pub append-RootedFrom :
      (n : ℕ) (ls : List (Logger D W)) (logger : Logger D W)
      → RootedFrom n ls
      → Below logger.parent (n + length ls)
      → RootedFrom n (ls ++ logger ∷ [])
  unfolding RootedFrom
  append-RootedFrom n [] logger r b =
      let q : n + 0 ≡ n = omega arith in (subst (λ m. Below logger.parent m) q b, tt)
  append-RootedFrom n (x ∷ ls) logger (c, r) b =
      let q : n + length (x ∷ ls) ≡ suc n + length ls = omega arith in
      (c, append-RootedFrom (suc n) ls logger r (subst (λ m. Below logger.parent m) q b))

  pub set-RootedFrom :
      (n : ℕ) (ls : List (Logger D W)) (l : ℕ) (logger changed : Logger D W)
      → RootedFrom n ls
      → get_elem? ls l ≡ some logger
      → changed.parent ≡ logger.parent
      → RootedFrom n (set ls l changed)
  unfolding RootedFrom
  set-RootedFrom n [] l logger changed r e q = tt
  set-RootedFrom n (x ∷ ls) zero logger changed (b, r) e q =
      let u : x ≡ logger = cc in
      let c : x.parent ≡ changed.parent = ap (λ y. y.parent) u ∙ sym q in
      (subst (λ p. Below p n) c b, r)
  set-RootedFrom n (x ∷ ls) (suc l) logger changed (b, r) e q =
      (b, set-RootedFrom (suc n) ls l logger changed r e q)
