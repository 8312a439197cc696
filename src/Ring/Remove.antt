-- ===== src/Ring/Remove.antt =====
-- `Remove` against a filter.
use golly.Base.{
  ℕ, zero, suc, ◌+◌, ◌≤◌, ◌<◌, true, false, inl, inr, [], ◌∷◌, ◌++◌, append_assoc, append-nil, ◌≡◌,
  refl, sym, ap, ◌∙◌, arith, Bytes, text_eq, length, length-append, take, drop, take-append,
  drop-append, read_at-append, All, leb, ◌==◌, if◌then◌else◌, Bool-cases, ok, ◌>>=◌, Fuel,
}
use golly.Ring.{Bucket, Ring, IsSorted, remove_from, remove}

-- The buckets of the other nodes, in their order.
unfoldable pub without : Bytes → Ring → Ring
without node [] = []
without node (b ∷ bs) = if text_eq b.node node then without node bs else b ∷ without node bs

cut :
    (pre : Ring) (b : Bucket) (r : Ring) (i : ℕ) → i ≡ length pre → drop (i + 1) (pre ++ b ∷ r) ≡ r
cut pre b r i h =
    rw (← append_assoc pre (b ∷ []) r)
      (drop-append (pre ++ b ∷ []) r (i + 1) (omega (arith, length-append pre (b ∷ []))))

-- The last bucket goes by a shorter slice, any other by moving the buckets behind it.
last_without :
    (node : Bytes) (pre : Ring) (b : Bucket) (r : Ring) (i : ℕ)
    → i ≡ length pre
    → i + 1 ≡ length (pre ++ b ∷ r)
    → take i (pre ++ b ∷ r) ≡ pre ++ without node r
last_without node pre b [] i h k =
    rw (take-append pre (b ∷ []) i h) (unfold without in sym (append-nil pre))
last_without node pre b (d ∷ r) i h k = absurd (omega (arith, length-append pre (b ∷ d ∷ r)))

remove_from-without :
    (fuel : ℕ) (node : Bytes) (pre rest : Ring) (i : ℕ)
    → i ≡ length pre
    → length rest < fuel
    → remove_from fuel node (pre ++ rest) i ≡ ok (pre ++ without node rest)
unfolding remove_from without
remove_from-without zero node pre rest i h k = absurd (omega arith)
remove_from-without (suc fuel) node pre [] i h k =
    let stop : leb (length (pre ++ [])) i ≡ true = ground (arith, length-append pre []) in
    rw (stop, remove_from)
remove_from-without (suc fuel) node pre (b ∷ r) i h k =
    let go : leb (length (pre ++ b ∷ r)) i ≡ false = ground (arith, length-append pre (b ∷ r)) in
    let cur = read_at-append {E = Fuel} pre b r i h in
    elim (Bool-cases (text_eq b.node node)) [
      | inl e ↦
          rw (go, remove_from, cur, ◌>>=◌, e)
            (elim (Bool-cases (i + 1 == length (pre ++ b ∷ r))) [
              | inl last ↦ rw last (ap ok (last_without node pre b r i h (ground arith)))
              | inr more ↦
                  rw (more, take-append pre (b ∷ r) i h, cut pre b r i h)
                    (remove_from-without fuel node pre r i h (omega arith))
            ])
      | inr e ↦
          rw (go, remove_from, cur, ◌>>=◌, e)
            (rw (← append_assoc pre (b ∷ []) r) (
              remove_from-without fuel node (pre ++ b ∷ []) r (i + 1)
                (omega (arith, length-append pre (b ∷ []))) (omega arith)
              ∙ ap ok (append_assoc pre (b ∷ []) (without node r))))
    ]

-- `Remove` ends without a panic, and leaves the buckets of the other nodes, in their order.
pub remove-without : (node : Bytes) (bs : Ring) → remove node bs ≡ ok (without node bs)
unfolding remove
remove-without node bs = remove_from-without (length bs + 1) node [] bs 0 refl (omega arith)

All-without : (p : Bucket → Type 0) (node : Bytes) (bs : Ring) → All p bs → All p (without node bs)
unfolding without
All-without p node [] a = tt
All-without p node (b ∷ bs) (h, a) = elim (Bool-cases (text_eq b.node node)) [
  | inl e ↦ rw e (All-without p node bs a)
  | inr e ↦ rw e (h, All-without p node bs a)
]

pub without-IsSorted : (node : Bytes) (bs : Ring) → IsSorted bs → IsSorted (without node bs)
unfolding without
without-IsSorted node [] s = tt
without-IsSorted node (b ∷ bs) (h, s) = elim (Bool-cases (text_eq b.node node)) [
  | inl e ↦ rw e (without-IsSorted node bs s)
  | inr e ↦ rw e (All-without (λ d. b.id ≤ d.id) node bs h, without-IsSorted node bs s)
]
