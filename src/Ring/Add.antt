-- ===== src/Ring/Add.antt =====
-- `Add`: the buckets of the node, and those of the others.
use Prim.Native.Nat.{bit_or}
use golly.Base.{
  ℕ, zero, suc, ◌+◌, ◌-◌, ◌*◌, ◌/◌, ◌^◌, ◌≤◌, ◌<◌, Bool, not, ◌&&◌, inl, inr, [], ◌∷◌, ◌++◌,
  append_assoc, append-nil, ◌≡◌, refl, sym, ap, ◌∙◌, arith, Bytes, text_eq, text_eq_iff, length,
  length-append, get_or, All, All-append, ltb, ltb→lt, ltb→le, if◌then◌else◌, Bool-cases, ok, ◌>>=◌,
  read_at-get_or, Fuel, Run,
}
use golly.Ring.{
  Bucket, Ring, Library, count_by, IsSorted, bucket_id, add_digest, add_buckets, add, add_with_opts,
}
use golly.Ring.Remove.{without, remove-without}

abbrev OwnedBy : Bytes → Ring → Type 0
OwnedBy node = All (λ (b : Bucket). b.node ≡ node)

bucket_id_total : (d : Bytes) (j : ℕ) → j + 3 < length d → (id : ℕ) × (bucket_id d j ≡ ok id)
unfolding bucket_id
bucket_id_total d j h = (
  bit_or
      (bit_or (bit_or (get_or d (j + 3) 0) (get_or d (j + 2) 0 * 2 ^ 8))
        (get_or d (j + 1) 0 * 2 ^ 16))
      (get_or d j 0 * 2 ^ 24),
  rw
      (
        read_at-get_or {E = Fuel} d (j + 3) 0 h,
        read_at-get_or {E = Fuel} d (j + 2) 0 (omega arith),
        read_at-get_or {E = Fuel} d (j + 1) 0 (omega arith),
        read_at-get_or {E = Fuel} d j 0 (omega arith),
      )
      refl,
)

ok_pair :
    {i k : ℕ} {bs cs : Ring} → i ≡ k → bs ≡ cs → ◌≡◌ {A = Run (ℕ × Ring)} (ok (i, bs)) (ok (k, cs))
ok_pair p q = cc

-- A digest gives one bucket for each four bytes or part of four bytes below `m`.
add_digest_lem :
    (fuel : ℕ) (d node : Bytes) (m j i : ℕ) (bs : Ring) (q : ℕ)
    → length d ≡ 64
    → m ≤ 64
    → j ≡ 4 * q
    → (m + 3 - j) / 4 < fuel
    → (fresh : Ring) × (add_digest fuel d node m j i bs ≡ ok (i + (m + 3 - j) / 4, bs ++ fresh))
      × (length fresh ≡ (m + 3 - j) / 4)
      × OwnedBy node fresh
unfolding add_digest
add_digest_lem zero d node m j i bs q w small e k = absurd (omega arith)
add_digest_lem (suc fuel) d node m j i bs q w small e k = elim (Bool-cases (ltb j m)) [
  | inr t ↦
      let over = ltb→le j m t in
      let none_left : (m + 3 - j) / 4 ≡ 0 = omega arith in
      let still : i ≡ i + (m + 3 - j) / 4 = omega arith in
      ([], rw (t, add_digest) (ok_pair still (sym (append-nil bs))), omega arith, tt)
  | inl t ↦
      let lt = ltb→lt j m t in
      let (id, g) = bucket_id_total d j (omega arith) in
      let b : Bucket = record { id = id; node = node } in
      let (fresh, run, n, own) =
        add_digest_lem fuel d node m (j + 4) (i + 1) (bs ++ b ∷ []) (q + 1) w small (omega arith)
          (omega arith) in
      (
        b ∷ fresh,
        rw (t, add_digest, g, ◌>>=◌) (run ∙ ok_pair (omega arith) (append_assoc bs (b ∷ []) fresh)),
        omega arith,
        (refl, own),
      )
]

module _ (lib : Library) where
  -- The loop makes as many buckets as it is short of.
  add_buckets_lem :
      (fuel : ℕ) (node : Bytes) (total : ℕ) (written : Bytes) (i : ℕ) (bs : Ring)
      → i ≤ total
      → total - i < fuel
      → (fresh : Ring) × (add_buckets lib fuel node total written i bs ≡ ok (bs ++ fresh))
        × (length fresh ≡ total - i)
        × OwnedBy node fresh
  unfolding add_buckets
  add_buckets_lem zero node total written i bs le k = absurd (omega arith)
  add_buckets_lem (suc fuel) node total written i bs le k = elim (Bool-cases (ltb i total)) [
    | inr t ↦
        ([], rw (t, add_buckets) (ap ok (sym (append-nil bs))), omega (arith, ltb→le i total t), tt)
    | inl t ↦
        let lt = ltb→lt i total t in
        let written = written ++ node in
        let m : ℕ = if ltb 64 (total - i) then 64 else total - i in
        let small : m ≤ 64 = ground arith in
        let within : m ≤ total - i = ground arith in
        let some : 0 < m = ground arith in
        let (fresh, run, n, own) =
          add_digest_lem 17 (lib.sum written) node m 0 i bs 0 (lib.length-sum written) small
            (omega arith) (omega arith) in
        let (rest, run', n', own') =
          add_buckets_lem fuel node total written (i + (m + 3 - 0) / 4) (bs ++ fresh) (omega arith)
            (omega arith) in
        (
          fresh ++ rest,
          rw (t, add_buckets, run, ◌>>=◌) (run' ∙ ap ok (append_assoc bs fresh rest)),
          omega (arith, length-append fresh rest),
          All-append (λ (b : Bucket). b.node ≡ node) fresh rest own own',
        )
  ]

-- The buckets of a node, and those of the other nodes that pass a test.
abbrev pub owned : Bytes → Bucket → Bool
owned node b = text_eq b.node node

abbrev pub others : Bytes → (Bucket → Bool) → Bucket → Bool
others node p b = p b && not (text_eq b.node node)

count_by-append :
    (p : Bucket → Bool) (xs ys : Ring) → count_by p (xs ++ ys) ≡ count_by p xs + count_by p ys
unfolding count_by
count_by-append p [] ys = omega arith
count_by-append p (x ∷ xs) ys = omega (arith, count_by-append p xs ys)

count_by-owned : (node : Bytes) (bs : Ring) → OwnedBy node bs → count_by (owned node) bs ≡ length bs
unfolding count_by
count_by-owned node [] o = refl
count_by-owned node (b ∷ bs) (e, o) =
    let same = (text_eq_iff b.node node).1 e in rw same (omega (arith, count_by-owned node bs o))

count_by-others :
    (node : Bytes) (p : Bucket → Bool) (bs : Ring)
    → OwnedBy node bs
    → count_by (others node p) bs ≡ 0
unfolding count_by
count_by-others node p [] o = refl
count_by-others node p (b ∷ bs) (e, o) =
    let same = (text_eq_iff b.node node).1 e in ground (arith, count_by-others node p bs o)

without-owned : (node : Bytes) (bs : Ring) → count_by (owned node) (without node bs) ≡ 0
unfolding count_by without
without-owned node [] = refl
without-owned node (b ∷ bs) = ground (arith, without-owned node bs)

without-others :
    (node : Bytes) (p : Bucket → Bool) (bs : Ring)
    → count_by (others node p) (without node bs) ≡ count_by (others node p) bs
unfolding count_by without
without-others node p [] = refl
without-others node p (b ∷ bs) = ground (arith, without-others node p bs)

module _ (lib : Library) where
  -- What `add` with a refresh leaves: a sorted ring with `total` buckets of the node, whether it
  -- had some before or not, and as many others of each kind as before.
  pub record Adds (node : Bytes) (total : ℕ) (bs r : Ring) : Type 0 where
    pub sorted : IsSorted r
    pub own : count_by (owned node) r ≡ total
    pub rest : (p : Bucket → Bool) → count_by (others node p) r ≡ count_by (others node p) bs

  -- `AddWithOpts` ends without a panic, within the fuel of each of its loops. The ring that it
  -- leaves is sorted, has exactly the number of buckets of the node that was asked for, whether it
  -- had some before or not, and has as many buckets of the other nodes as before under every test.
  pub add-Adds :
      (node : Bytes) (total : ℕ) (bs : Ring)
      → (r : Ring) × (add_with_opts lib node total bs ≡ ok r) × Adds node total bs r
  unfolding add_with_opts add
  add-Adds node total bs =
      let (fresh, run, n, own) =
        add_buckets_lem lib (total + 1) node total [] 0 (without node bs) (omega arith)
          (omega arith) in
      let all = without node bs ++ fresh in
      (
        lib.sort all,
        rw (remove-without node bs, ◌>>=◌, run, ◌>>=◌) refl,
        record {
          sorted = lib.sort-IsSorted all;
          own =
              lib.sort_keeps (owned node) all
              ∙ omega (
                arith,
                count_by-append (owned node) (without node bs) fresh,
                without-owned node bs,
                count_by-owned node fresh own,
              );
          rest = λ p.
              lib.sort_keeps (others node p) all
              ∙ omega (
                arith,
                count_by-append (others node p) (without node bs) fresh,
                without-others node p bs,
                count_by-others node p fresh own,
              );
        },
      )
