-- ===== src/Ring/Consistent.antt =====
-- Consistency of the hashing: keys whose node stays, when another node goes.
use golly.Base.{
  ℕ, inl, inr, Option, none, some, [], ◌∷◌, ◌≡◌, ◌≢◌, refl, sym, ap, ◌∙◌, arith, Bytes, text_eq,
  text_eq_iff, Bool-cases, Option-cases, ok, ◌>>=◌, Run,
}
use golly.Ring.{Bucket, Ring, IsSorted, Library, remove, find}
use golly.Ring.Remove.{without, remove-without, without-IsSorted}
use golly.Ring.Find.{successor, owner, owner-some, owner-none, find-owner}

successor-without :
    (c : ℕ) (node : Bytes) (bs : Ring) (b : Bucket)
    → successor c bs ≡ some b
    → b.node ≢ node
    → successor c (without node bs) ≡ some b
unfolding successor without
successor-without c node [] b e h = cc e
successor-without c node (x ∷ bs) b e h =
    ground (arith, successor-without c node bs b, text_eq_iff x.node node)

successor-without-none :
    (c : ℕ) (node : Bytes) (bs : Ring)
    → successor c bs ≡ none
    → successor c (without node bs) ≡ none
unfolding successor without
successor-without-none c node [] e = refl
successor-without-none c node (x ∷ bs) e = ground (arith, successor-without-none c node bs)

without_kept :
    (node : Bytes) (b : Bucket) (bs : Ring)
    → b.node ≢ node
    → without node (b ∷ bs) ≡ b ∷ without node bs
unfolding without
without_kept node b bs h = elim (Bool-cases (text_eq b.node node)) [
  | inl e ↦ absurd (h ((text_eq_iff b.node node).0 e))
  | inr e ↦ rw e
]

owner-without :
    (c : ℕ) (node s : Bytes) (bs : Ring)
    → owner c bs ≡ some s
    → s ≢ node
    → owner c (without node bs) ≡ some s
unfolding owner
owner-without c node s [] e h = cc
owner-without c node s (x ∷ bs) e h = elim (Option-cases (successor c (x ∷ bs))) [
  | inr (b, g) ↦
      let q : some b.node ≡ some s = sym (owner-some c (x ∷ bs) b g) ∙ e in
      let q' : b.node ≡ s = cc q in
      owner-some c (without node (x ∷ bs)) b
        (successor-without c node (x ∷ bs) b g (λ r. h (sym q' ∙ r)))
      ∙ q
  | inl g ↦
      let q : some x.node ≡ some s = sym (owner-none c x bs g) ∙ e in
      let q' : x.node ≡ s = cc q in
      let kept = without_kept node x bs (λ r. h (sym q' ∙ r)) in
      rw kept (
        owner-none c x (without node bs) (rw kept at (successor-without-none c node (x ∷ bs) g))
        ∙ q)
]

-- After `Remove` of a node, a key that belonged to another node is found at the node where it was.
pub find-remove :
    (lib : Library) (bs : Ring) (node key s : Bytes)
    → IsSorted bs
    → find lib bs key ≡ ok (some s)
    → s ≢ node
    → (remove node bs >>= λ r. find lib r key) ≡ ok (some s)
find-remove lib bs node key s sorted e h =
    let q : ◌≡◌ {A = Run (Option Bytes)} (ok (owner (lib.crc key) bs)) (ok (some s)) =
      sym (find-owner lib bs key sorted) ∙ e in
    let q' : owner (lib.crc key) bs ≡ some s = cc q in
    rw (remove-without node bs) (
      find-owner lib (without node bs) key (without-IsSorted node bs sorted)
      ∙ ap ok (owner-without (lib.crc key) node s bs q' h))
