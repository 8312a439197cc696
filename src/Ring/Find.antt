-- ===== src/Ring/Find.antt =====
-- `Find`, a binary search, against a walk over the buckets.
use golly.Base.{
  ℕ, zero, suc, ◌+◌, ◌-◌, ◌/◌, ◌≤◌, ◌<◌, false, inl, inr, Option, none, some, [], ◌∷◌, ◌≡◌, refl,
  sym, ap, ◌∙◌, arith, Bytes, length, get_elem?, get_elem?-some, All-get_elem?, ltb, ltb→lt, ltb→le,
  ◌==◌, if◌then◌else◌, Bool-cases, Option-cases, ok, ◌>>=◌, read_at-some, Fuel,
}
use golly.Ring.{Bucket, Ring, IsSorted, Library, search, locate, find}

-- The number of buckets in front of the first one whose identifier is at least `c`.
unfoldable pub first_at_least : ℕ → Ring → ℕ
first_at_least c [] = 0
first_at_least c (b ∷ bs) = if ltb b.id c then suc (first_at_least c bs) else 0

pub first-le-length : (c : ℕ) (bs : Ring) → first_at_least c bs ≤ length bs
unfolding first_at_least
first-le-length c [] = omega arith
first-le-length c (b ∷ bs) = ground (arith, first-le-length c bs)

le-first :
    (c : ℕ) (bs : Ring) (p : ℕ) (b : Bucket)
    → get_elem? bs p ≡ some b
    → c ≤ b.id
    → first_at_least c bs ≤ p
unfolding first_at_least
le-first c [] p b e h = omega arith
le-first c (x ∷ bs) zero b e h = ground arith
le-first c (x ∷ bs) (suc p) b e h = ground (arith, le-first c bs p b e h)

lt-first :
    (c : ℕ) (bs : Ring) (p : ℕ) (b : Bucket)
    → IsSorted bs
    → get_elem? bs p ≡ some b
    → b.id < c
    → p < first_at_least c bs
unfolding first_at_least
lt-first c [] p b s e h = cc e
lt-first c (x ∷ bs) zero b s e h = ground arith
lt-first c (x ∷ bs) (suc p) b (o, s) e h =
    let le = All-get_elem? (λ (d : Bucket). x.id ≤ d.id) bs p b o e in
    ground (arith, lt-first c bs p b s e h)

-- With the answer between its bounds, the search ends within the fuel and returns it.
search-first :
    (fuel : ℕ) (bs : Ring) (c i j : ℕ)
    → IsSorted bs
    → i ≤ first_at_least c bs
    → first_at_least c bs ≤ j
    → j ≤ length bs
    → j - i < fuel
    → search fuel bs c i j ≡ ok (first_at_least c bs)
unfolding search
search-first zero bs c i j s lo hi fits k = absurd (omega arith)
search-first (suc fuel) bs c i j s lo hi fits k = elim (Bool-cases (ltb i j)) [
  | inr e ↦ rw (e, search) (ap ok (omega (arith, ltb→le i j e)))
  | inl e ↦
      let lt = ltb→lt i j e in
      let p = i + (j - i) / 2 in
      let (b, g) = get_elem?-some bs p (omega arith) in
      let r = read_at-some {E = Fuel} bs p b g in
      elim (Bool-cases (ltb b.id c)) [
        | inl t ↦
            rw (e, search, r, ◌>>=◌, t)
              (search-first fuel bs c (p + 1) j s
                (omega (arith, lt-first c bs p b s g (ltb→lt b.id c t))) hi fits (omega arith))
        | inr t ↦
            rw (e, search, r, ◌>>=◌, t)
              (search-first fuel bs c i p s lo (le-first c bs p b g (ltb→le b.id c t)) (omega arith)
                (omega arith))
      ]
]

abbrev pub home : ℕ → Ring → ℕ
home c bs = if first_at_least c bs == length bs then 0 else first_at_least c bs

pub locate-home : (bs : Ring) (c : ℕ) → IsSorted bs → locate bs c ≡ ok (home c bs)
unfolding locate
locate-home bs c s = rw (
    search-first (length bs + 1) bs c 0 (length bs) s (omega arith) (first-le-length c bs)
      (omega arith) (omega arith))

-- The first bucket whose identifier is at least `c`.
unfoldable pub successor : ℕ → Ring → Option Bucket
successor c [] = none
successor c (b ∷ bs) = if ltb b.id c then successor c bs else some b

-- The node that a point on the ring belongs to: the next bucket's, and the first bucket's where
-- none is next.
unfoldable pub owner : ℕ → Ring → Option Bytes
unfolding successor
owner c bs = elim (successor c bs) [
  | some b ↦ some b.node
  | none ↦ elim bs [ [] ↦ none | b ∷ _ ↦ some b.node ]
]

get_elem?-first : (c : ℕ) (bs : Ring) → get_elem? bs (first_at_least c bs) ≡ successor c bs
unfolding first_at_least successor
get_elem?-first c [] = refl
get_elem?-first c (b ∷ bs) = elim (Bool-cases (ltb b.id c)) [
  | inl e ↦ rw e (get_elem?-first c bs)
  | inr e ↦ rw e
]

first_none : (c : ℕ) (bs : Ring) → successor c bs ≡ none → first_at_least c bs ≡ length bs
unfolding first_at_least successor
first_none c [] h = refl
first_none c (b ∷ bs) h = ground (arith, first_none c bs)

first_some :
    (c : ℕ) (bs : Ring) (b : Bucket) → successor c bs ≡ some b → first_at_least c bs < length bs
unfolding first_at_least successor
first_some c [] b h = cc h
first_some c (x ∷ bs) b h = ground (arith, first_some c bs b)

pub owner-some :
    (c : ℕ) (bs : Ring) (b : Bucket) → successor c bs ≡ some b → owner c bs ≡ some b.node
unfolding owner
owner-some c bs b e = rw (e, owner)

pub owner-none :
    (c : ℕ) (b : Bucket) (bs : Ring) → successor c (b ∷ bs) ≡ none → owner c (b ∷ bs) ≡ some b.node
unfolding owner
owner-none c b bs e = rw (e, owner)

-- The bucket at `home` is the owner's.
pub home-owner :
    (c : ℕ) (b₀ : Bucket) (bs : Ring)
    → (b : Bucket) × (get_elem? (b₀ ∷ bs) (home c (b₀ ∷ bs)) ≡ some b)
      × (owner c (b₀ ∷ bs) ≡ some b.node)
home-owner c b₀ bs = elim (Option-cases (successor c (b₀ ∷ bs))) [
  | inl e ↦
      let q = first_none c (b₀ ∷ bs) e in
      let h : home c (b₀ ∷ bs) ≡ 0 = ground arith in (b₀, rw h, owner-none c b₀ bs e)
  | inr (b, e) ↦
      let q = first_some c (b₀ ∷ bs) b e in
      let h : home c (b₀ ∷ bs) ≡ first_at_least c (b₀ ∷ bs) = ground arith in
      (b, rw h (get_elem?-first c (b₀ ∷ bs) ∙ e), owner-some c (b₀ ∷ bs) b e)
]

module _ (lib : Library) where
  -- On a sorted ring `Find` ends without a panic, and returns the node that the checksum of the key
  -- belongs to; on an empty one it finds nothing.
  pub find-owner :
      (bs : Ring) (key : Bytes) → IsSorted bs → find lib bs key ≡ ok (owner (lib.crc key) bs)
  unfolding find
  find-owner [] key s = unfold owner in refl
  find-owner (b₀ ∷ bs) key s =
      let (b, g, o) = home-owner (lib.crc key) b₀ bs in
      let some_bucket : (length (b₀ ∷ bs) == 0) ≡ false = ground arith in
      rw
        (
          some_bucket,
          find,
          locate-home (b₀ ∷ bs) (lib.crc key) s,
          ◌>>=◌,
          read_at-some {E = Fuel} (b₀ ∷ bs) (home (lib.crc key) (b₀ ∷ bs)) b g,
        )
        (ap ok (sym o))
