-- ===== src/Ring.antt =====
-- hash/ring.go: a consistent hashing ring, a list of buckets sorted by their identifiers.
--
-- SHA-512, CRC-32 and `sort.Sort` are of Go's library: `Library` holds them, with what the code
-- relies on. The lock is held through every method, so a method is one step of the model. A negative
-- count behaves as 0 in every loop and test on it.
pub mod Remove
pub mod Find
pub mod Multiple
pub mod Add
pub mod Consistent
mod Tests
use Prim.Native.Nat.{bit_or}
use golly.Base.{
  ℕ, zero, suc, ◌+◌, ◌-◌, ◌*◌, ◌/◌, ◌%◌, ◌^◌, ◌<◌, ◌≤◌, Bool, true, false, Option, none, some, List,
  [], ◌∷◌, ◌++◌, ◌≡◌, Bytes, text_eq, length, get_or, take, drop, All, ltb, leb, ◌==◌,
  if◌then◌else◌, Outcome, ok, err, panic, ◌>>=◌, read_at, Run, out_of_fuel,
}

pub record Bucket : Type 0 where
  pub id : ℕ
  pub node : Bytes

abbrev pub Ring : Type 0
Ring = List Bucket

-- How many buckets pass a test.
unfoldable pub count_by : (Bucket → Bool) → Ring → ℕ
count_by p [] = 0
count_by p (b ∷ bs) = (if p b then 1 else 0) + count_by p bs

abbrev pub IsSorted : Ring → Type 0
IsSorted [] = Unit
IsSorted (b ∷ bs) = All (λ (d : Bucket). b.id ≤ d.id) bs × IsSorted bs

-- `sum` is the SHA-512 digest of all that was written, `crc` the Castagnoli checksum; `sort` is
-- `sort.Sort` by `Less`, which need not be stable.
pub record Library : Type 0 where
  pub sum : Bytes → Bytes
  pub length-sum : (s : Bytes) → length (sum s) ≡ 64
  pub crc : Bytes → ℕ
  pub sort : Ring → Ring
  pub sort_keeps : (p : Bucket → Bool) (bs : Ring) → count_by p (sort bs) ≡ count_by p bs
  pub sort-IsSorted : (bs : Ring) → IsSorted (sort bs)

abbrev pub default_buckets_per_node : ℕ
default_buckets_per_node = 100

-- The loop of `remove` from index `i`; `n` is the length less one, so `i > n` is `len <= i`.
unfoldable pub remove_from : ℕ → Bytes → Ring → ℕ → Run Ring
remove_from zero node bs i = err out_of_fuel
remove_from (suc fuel) node bs i = elim (leb (length bs) i) [
  | true ↦ ok bs
  | false ↦ do
    cur ← read_at bs i
    elim (text_eq cur.node node) [
      | false ↦ remove_from fuel node bs (i + 1)
      | true ↦ elim (i + 1 == length bs) [
        | true ↦ ok (take i bs)
        | false ↦ remove_from fuel node (take i bs ++ drop (i + 1) bs) i
      ]
    ]
]

-- `remove`, and `Remove`, which adds the lock. A round shortens the list or moves on in it.
unfoldable pub remove : Bytes → Ring → Run Ring
unfolding remove_from
remove node bs = remove_from (length bs + 1) node bs 0

-- A binary search by identifier; the last argument but one is below the last.
unfoldable pub search : ℕ → Ring → ℕ → ℕ → ℕ → Run ℕ
search zero bs c i j = err out_of_fuel
search (suc fuel) bs c i j = elim (ltb i j) [
  | false ↦ ok i
  | true ↦ do
    let p = i + (j - i) / 2
    b ← read_at bs p
    elim (ltb b.id c) [ true ↦ search fuel bs c (p + 1) j | false ↦ search fuel bs c i p ]
]

-- What `Find` and `FindMultiple` begin with: the index of the bucket that a key belongs to.
unfoldable pub locate : Ring → ℕ → Run ℕ
unfolding search
locate bs c = do i ← search (length bs + 1) bs c 0 (length bs); ok (if i == length bs then 0 else i)

-- A test for a node among those found.
unfoldable pub contains : List Bytes → Bytes → Bool
contains [] s = false
contains (t ∷ ts) s = if text_eq t s then true else contains ts s

-- The loop of `FindMultiple`. `found` is appended to.
unfoldable pub collect : ℕ → Ring → ℕ → ℕ → ℕ → List Bytes → Run (List Bytes)
unfolding contains
collect zero bs first count i found = err out_of_fuel
collect (suc fuel) bs first count i found = elim (ltb (length found) count) [
  | false ↦ ok found
  | true ↦
      let i = if i + 1 == length bs then 0 else i + 1 in
      elim (i == first) [
        | true ↦ ok found
        | false ↦ do
          b ← read_at bs i
          collect fuel bs first count i
              (if contains found b.node then found else found ++ b.node ∷ [])
      ]
]

-- The identifier of a bucket: four bytes of a digest, the first one highest.
unfoldable pub bucket_id : Bytes → ℕ → Run ℕ
bucket_id d j = do
  b3 ← read_at d (j + 3)
  b2 ← read_at d (j + 2)
  b1 ← read_at d (j + 1)
  b0 ← read_at d j
  ok (bit_or (bit_or (bit_or b3 (b2 * 2 ^ 8)) (b1 * 2 ^ 16)) (b0 * 2 ^ 24))

-- `for j := 0; j < m; j += 4`: one bucket for each four bytes; `i` counts them.
unfoldable pub add_digest : ℕ → Bytes → Bytes → ℕ → ℕ → ℕ → Ring → Run (ℕ × Ring)
unfolding bucket_id
add_digest zero d node m j i bs = err out_of_fuel
add_digest (suc fuel) d node m j i bs = elim (ltb j m) [
  | false ↦ ok (i, bs)
  | true ↦ do
    id ← bucket_id d j
    add_digest fuel d node m (j + 4) (i + 1) (bs ++ record { id = id; node = node } ∷ [])
]

module _ (lib : Library) where
  -- `for i < numberOfBuckets`; `written` is what the hash has been fed so far.
  unfoldable pub add_buckets : ℕ → Bytes → ℕ → Bytes → ℕ → Ring → Run Ring
  unfolding add_digest
  add_buckets zero node total written i bs = err out_of_fuel
  add_buckets (suc fuel) node total written i bs = elim (ltb i total) [
    | false ↦ ok bs
    | true ↦ do
      let written = written ++ node
      let m = if ltb 64 (total - i) then 64 else total - i
      (i, bs) ← add_digest 17 (lib.sum written) node m 0 i bs
      add_buckets fuel node total written i bs
  ]

  unfoldable pub add : Bytes → ℕ → Bool → Ring → Run Ring
  unfolding add_buckets remove
  add node total refresh bs = do
    bs ← (if refresh then remove node bs else ok bs)
    bs ← add_buckets (total + 1) node total [] 0 bs
    ok (if refresh then lib.sort bs else bs)

  -- `Add` and `AddWithOpts`
  unfoldable pub add_with_opts : Bytes → ℕ → Ring → Run Ring
  unfolding add
  add_with_opts node total bs = add node total true bs

  unfoldable pub add_node : Bytes → Ring → Run Ring
  unfolding add
  add_node node bs = add node default_buckets_per_node true bs

  -- The loop of `NewRing` over its arguments.
  unfoldable pub add_all : List Bytes → Ring → Run Ring
  unfolding add
  add_all [] bs = ok bs
  add_all (node ∷ nodes) bs = add node default_buckets_per_node false bs >>= add_all nodes

  unfoldable pub new_ring : List Bytes → Run Ring
  unfolding add_all
  new_ring nodes = do bs ← add_all nodes []; ok (lib.sort bs)

  -- `none` is the result `("", false)`.
  unfoldable pub find : Ring → Bytes → Run (Option Bytes)
  find bs key = elim (length bs == 0) [
    | true ↦ ok none
    | false ↦ do i ← locate bs (lib.crc key); b ← read_at bs i; ok (some b.node)
  ]

  unfoldable pub find_multiple : Ring → Bytes → ℕ → Run (Option (List Bytes))
  find_multiple bs key count = elim (count == 0) [
    | true ↦ ok none
    | false ↦ elim (length bs == 0) [
      | true ↦ ok none
      | false ↦ do
        i ← locate bs (lib.crc key)
        b ← read_at bs i
        found ← collect (length bs + 1) bs i count i (b.node ∷ [])
        ok (some found)
    ]
  ]
