-- ===== src/Ring/Multiple.antt =====
-- `FindMultiple`, and the nodes in the order of the ring.
use mathlib.Core.Path.{subst}
use golly.Base.{
  ℕ, zero, suc, ◌+◌, ◌-◌, ◌≤◌, ◌<◌, true, false, ◌||◌, inl, inr, some, List, [], ◌∷◌, ◌++◌,
  append_assoc, append-nil, ◌≡◌, refl, sym, ap, ◌∙◌, arith, Bytes, text_eq, text_eq_iff, length,
  length-append, get_elem?, get_elem?-some, get_elem?-lt, leb, leb→le, leb→lt, All, All-append, ltb,
  ltb→lt, ltb→le, ◌==◌, if◌then◌else◌, Bool-cases, ok, ◌>>=◌, read_at-some, Fuel,
}
use golly.Ring.{Bucket, Ring, Library, IsSorted, contains, collect, find_multiple}
use golly.Ring.Find.{home, locate-home, owner, home-owner}

abbrev pub IsDistinct : List Bytes → Type 0
IsDistinct [] = Unit
IsDistinct (s ∷ ss) = (contains ss s ≡ false) × IsDistinct ss

contains-append :
    (ss : List Bytes) (s t : Bytes) → contains (ss ++ s ∷ []) t ≡ (contains ss t || text_eq s t)
unfolding contains
contains-append [] s t = ground arith
contains-append (r ∷ ss) s t = ground (arith, contains-append ss s t)

contains_last : (ss : List Bytes) (s : Bytes) → contains (ss ++ s ∷ []) s ≡ true
contains_last ss s = ground (arith, contains-append ss s s, text_eq_iff s s)

append-IsDistinct :
    (ss : List Bytes) (s : Bytes)
    → IsDistinct ss
    → contains ss s ≡ false
    → IsDistinct (ss ++ s ∷ [])
append-IsDistinct [] s d h = (unfold contains in refl, tt)
append-IsDistinct (r ∷ ss) s (a, d) h = (
  unfold contains in ground (arith, contains-append ss s r, text_eq_iff s r, text_eq_iff r s),
  append-IsDistinct ss s d (unfold contains in ground arith),
)

-- The index that is `k` places behind `first` on a ring of `n` buckets.
abbrev behind : ℕ → ℕ → ℕ → ℕ
behind n first k = if ltb (first + k) n then first + k else first + k - n

abbrev step : ℕ → ℕ → ℕ
step n i = if i + 1 == n then 0 else i + 1

-- The walk is back at its start after `n` steps, and no earlier.
step_back :
    (n first v : ℕ) → first < n → v < n → (step n (behind n first v) == first) ≡ true → v + 1 ≡ n
step_back n first v f w e = ground arith

step_on :
    (n first v : ℕ)
    → first < n
    → v < n
    → (step n (behind n first v) == first) ≡ false
    → (v + 1 < n) × (step n (behind n first v) ≡ behind n first (v + 1))
step_on n first v f w e = ground arith

behind-lt : (n first v : ℕ) → first < n → v < n → behind n first v < n
behind-lt n first v f w = ground arith

-- Every index is some number of places behind the first.
ahead : (n first k : ℕ) → first < n → k < n → (j : ℕ) × (j < n) × (behind n first j ≡ k)
ahead n first k f w = elim (Bool-cases (ltb k first)) [
  | inl e ↦ (k + n - first, ground arith, ground arith)
  | inr e ↦ (k - first, ground arith, ground arith)
]

module _ (bs : Ring) (count : ℕ) where
  abbrev Seen : ℕ → ℕ → List Bytes → Type 0
  Seen first v found =
      (k : ℕ) (b : Bucket)
      → k ≤ v
      → get_elem? bs (behind (length bs) first k) ≡ some b
      → contains found b.node ≡ true

  abbrev pub Known : List Bytes → Type 0
  Known = All (λ s. (k : ℕ) × (b : Bucket) × (get_elem? bs k ≡ some b) × (b.node ≡ s))

  -- At most `count` distinct nodes of the ring, and all of its nodes where these are fewer.
  pub record Collects (found : List Bytes) : Type 0 where
    pub distinct : IsDistinct found
    pub bounded : length found ≤ count
    pub known : Known found
    pub complete :
        length found < count
        → (k : ℕ) (b : Bucket) → get_elem? bs k ≡ some b
        → contains found b.node ≡ true

  collected :
      (found : List Bytes)
      → IsDistinct found
      → length found ≤ count
      → Known found
      → (length found < count
          → (k : ℕ) (b : Bucket) → get_elem? bs k ≡ some b
          → contains found b.node ≡ true)
      → Collects (found ++ [])
  collected found d l n c =
      rw append-nil (record { distinct = d; bounded = l; known = n; complete = c })

  all-Seen :
      (first v : ℕ) (found : List Bytes)
      → first < length bs
      → v + 1 ≡ length bs
      → Seen first v found
      → (k : ℕ) (b : Bucket) → get_elem? bs k ≡ some b
      → contains found b.node ≡ true
  all-Seen first v found f w s k b e =
      let (j, small, q) = ahead (length bs) first k f (get_elem?-lt bs k b e) in
      s j b (omega arith) (rw q e)

  Seen-old :
      (first v i : ℕ) (found : List Bytes) (b : Bucket)
      → get_elem? bs i ≡ some b
      → i ≡ behind (length bs) first (v + 1)
      → contains found b.node ≡ true
      → Seen first v found
      → Seen first (v + 1) found
  Seen-old first v i found b g e h s k d le q = elim (Bool-cases (leb k v)) [
    | inl t ↦ s k d (leb→le k v t) q
    | inr t ↦
        let last : k ≡ v + 1 = omega (arith, leb→lt k v t) in
        let q' : get_elem? bs (behind (length bs) first (v + 1)) ≡ some d = rw last at q in
        cc (g, ap (get_elem? bs) e, q', h)
  ]

  Seen-more :
      (first v : ℕ) (found : List Bytes) (t : Bytes)
      → Seen first v found
      → Seen first v (found ++ t ∷ [])
  Seen-more first v found t s k d le q = rw (contains-append found t d.node, s k d le q)

  Seen-first :
      (first : ℕ) (b : Bucket)
      → first < length bs
      → get_elem? bs first ≡ some b
      → Seen first 0 (b.node ∷ [])
  Seen-first first b f g k d le q =
      let here : behind (length bs) first k ≡ first = ground arith in
      let q' : get_elem? bs first ≡ some d = rw here at q in
      let same : b.node ≡ d.node = cc in rw (← same) (contains_last [] b.node)

  collect-Collects :
      (fuel first i v : ℕ) (found : List Bytes)
      → first < length bs
      → v < length bs
      → i ≡ behind (length bs) first v
      → length bs - v < fuel
      → IsDistinct found
      → length found ≤ count
      → Known found
      → Seen first v found
      → (more : List Bytes) × (collect fuel bs first count i found ≡ ok (found ++ more))
        × Collects (found ++ more)
  unfolding collect
  collect-Collects zero first i v found f w e k d l n s = absurd (omega arith)
  collect-Collects (suc fuel) first i v found f w e k d l n s =
      elim (Bool-cases (ltb (length found) count)) [
        | inr t ↦ (
          [],
          rw (t, collect) (ap ok (sym (append-nil found))),
          collected found d l n (λ h. absurd (omega (arith, ltb→le (length found) count t))),
        )
        | inl t ↦ elim (Bool-cases (step (length bs) i == first)) [
          | inl r ↦ (
            [],
            rw (t, collect, r) (ap ok (sym (append-nil found))),
            collected found d l n
                (λ h. all-Seen first v found f (step_back (length bs) first v f w (rw e at r)) s),
          )
          | inr r ↦
              let (w', e') = step_on (length bs) first v f w (rw e at r) in
              let q : step (length bs) i ≡ behind (length bs) first (v + 1) = rw e e' in
              let (b, g) =
                get_elem?-some bs (step (length bs) i)
                  (rw q (behind-lt (length bs) first (v + 1) f w')) in
              let a = read_at-some {E = Fuel} bs (step (length bs) i) b g in
              elim (Bool-cases (contains found b.node)) [
                | inl h ↦
                    let (more, run, c) =
                      collect-Collects fuel first (step (length bs) i) (v + 1) found f w' q
                        (omega arith) d l n
                        (Seen-old first v (step (length bs) i) found b g q h s) in
                    (more, rw (t, collect, r, a, ◌>>=◌, h) run, c)
                | inr h ↦
                    let one : List Bytes = b.node ∷ [] in
                    let has = contains_last found b.node in
                    let (more, run, c) =
                      collect-Collects fuel first (step (length bs) i) (v + 1) (found ++ one) f w' q
                        (omega arith) (append-IsDistinct found b.node d h)
                        (omega (arith, length-append found one, ltb→lt (length found) count t))
                        (All-append _ found one n ((step (length bs) i, b, g, refl), tt))
                        (Seen-old first v (step (length bs) i) (found ++ one) b g q has
                          (Seen-more first v found b.node s)) in
                    (
                      b.node ∷ more,
                      rw (t, collect, r, a, ◌>>=◌, h) (run ∙ ap ok (append_assoc found one more)),
                      subst Collects (append_assoc found one more) c,
                    )
              ]
        ]
      ]

-- On a sorted ring with a bucket, and for a positive count, `FindMultiple` ends without a panic
-- within its fuel. It returns distinct nodes of the ring, at most `count` of them, and all of them
-- where these are fewer; the first is the one that `Find` returns.
pub find_multiple-Collects :
    (lib : Library) (b₀ : Bucket) (bs : Ring) (key : Bytes) (count : ℕ)
    → IsSorted (b₀ ∷ bs)
    → 0 < count
    → (s : Bytes) × (more : List Bytes) × (find_multiple lib (b₀ ∷ bs) key count
        ≡ ok (some (s ∷ more)))
      × (owner (lib.crc key) (b₀ ∷ bs) ≡ some s)
      × Collects (b₀ ∷ bs) count (s ∷ more)
unfolding find_multiple
find_multiple-Collects lib b₀ bs key count sorted pos =
    let ring = b₀ ∷ bs in
    let c = lib.crc key in
    let (b, g, o) = home-owner c b₀ bs in
    let some_count : (count == 0) ≡ false = ground arith in
    let some_bucket : (length ring == 0) ≡ false = ground arith in
    let f = get_elem?-lt ring (home c ring) b g in
    let (more, run, all) =
      collect-Collects ring count (length ring + 1) (home c ring) (home c ring) 0 (b.node ∷ []) f
        (omega arith) (ground arith) (omega arith) (unfold contains in refl, tt) (omega arith)
        ((home c ring, b, g, refl), tt) (Seen-first ring count (home c ring) b f g) in
    (
      b.node,
      more,
      rw
          (
            some_count,
            find_multiple,
            some_bucket,
            locate-home ring c sorted,
            ◌>>=◌,
            read_at-some {E = Fuel} ring (home c ring) b g,
            run,
          )
          refl,
      o,
      all,
    )
