-- ===== src/Ring/Tests.antt =====
-- A library for tests, whose sort is by insertion, and the theorems on small rings.
use golly.Base.{
  ℕ, ◌+◌, ◌%◌, ◌≤◌, Bool, inl, inr, some, List, [], ◌∷◌, ◌≡◌, refl, arith, Bytes, codes, text_eq,
  length, length-replicate, replicate, All, leb, leb→le, leb→lt, if◌then◌else◌, Bool-cases, ok,
  ◌>>=◌,
}
use golly.Ring.{
  Bucket, Ring, count_by, IsSorted, Library, remove, locate, search, collect, contains, find,
  find_multiple, add_with_opts, add_node, new_ring,
}
use golly.Ring.Remove.{without, remove-without}
use golly.Ring.Find.{owner, find-owner}
use golly.Ring.Consistent.{find-remove}
use golly.Ring.Add.{Adds, add-Adds}
use golly.Ring.Multiple.{Collects, find_multiple-Collects}

put : Bucket → Ring → Ring
put b [] = b ∷ []
put b (d ∷ bs) = if leb b.id d.id then b ∷ d ∷ bs else d ∷ put b bs

insertion_sort : Ring → Ring
unfolding put
insertion_sort [] = []
insertion_sort (b ∷ bs) = put b (insertion_sort bs)

count_by-put :
    (p : Bucket → Bool) (b : Bucket) (bs : Ring) → count_by p (put b bs) ≡ count_by p (b ∷ bs)
unfolding count_by put
count_by-put p b [] = refl
count_by-put p b (d ∷ bs) = ground (arith, count_by-put p b bs)

count_by-insertion_sort :
    (p : Bucket → Bool) (bs : Ring) → count_by p (insertion_sort bs) ≡ count_by p bs
unfolding insertion_sort count_by
count_by-insertion_sort p [] = refl
count_by-insertion_sort p (b ∷ bs) =
    omega (arith, count_by-put p b (insertion_sort bs), count_by-insertion_sort p bs)

All-put :
    (n : ℕ) (b : Bucket) (bs : Ring)
    → n ≤ b.id
    → All (λ (d : Bucket). n ≤ d.id) bs
    → All (λ (d : Bucket). n ≤ d.id) (put b bs)
unfolding put
All-put n b [] h a = (h, tt)
All-put n b (d ∷ bs) h (k, a) = elim (Bool-cases (leb b.id d.id)) [
  | inl e ↦ rw e (h, (k, a))
  | inr e ↦ rw e (k, All-put n b bs h a)
]

All-le :
    (n m : ℕ) (bs : Ring)
    → n ≤ m
    → All (λ (d : Bucket). m ≤ d.id) bs
    → All (λ (d : Bucket). n ≤ d.id) bs
All-le n m [] h a = tt
All-le n m (d ∷ bs) h (k, a) = (omega arith, All-le n m bs h a)

put-IsSorted : (b : Bucket) (bs : Ring) → IsSorted bs → IsSorted (put b bs)
unfolding put
put-IsSorted b [] s = (tt, tt)
put-IsSorted b (d ∷ bs) (a, s) = elim (Bool-cases (leb b.id d.id)) [
  | inl e ↦ let le = leb→le b.id d.id e in rw e ((le, All-le b.id d.id bs le a), (a, s))
  | inr e ↦
      let lt = leb→lt b.id d.id e in rw e (All-put d.id b bs (omega arith) a, put-IsSorted b bs s)
]

insertion_sort-IsSorted : (bs : Ring) → IsSorted (insertion_sort bs)
unfolding insertion_sort
insertion_sort-IsSorted [] = tt
insertion_sort-IsSorted (b ∷ bs) = put-IsSorted b (insertion_sort bs) (insertion_sort-IsSorted bs)

-- A weak checksum and a weaker digest.
weak_crc : Bytes → ℕ
weak_crc [] = 0
weak_crc (c ∷ s) = (c + weak_crc s) % 100

abbrev library : Library
library = record {
  sum = λ s. replicate 64 (length s);
  length-sum = λ s. length-replicate 64 (length s);
  crc = weak_crc;
  sort = insertion_sort;
  sort_keeps = count_by-insertion_sort;
  sort-IsSorted = insertion_sort-IsSorted;
}

abbrev bucket : ℕ → Bytes → Bucket
bucket id node = record { id = id; node = node }

abbrev ring : Ring
ring = bucket 10 (codes "a") ∷ bucket 20 (codes "b") ∷ bucket 50 (codes "a") ∷ []

ring-IsSorted : IsSorted ring
ring-IsSorted = omega arith

abbrev two : Ring
two = bucket 20 (codes "b") ∷ []

program : Unit {0}
unfolding remove locate search collect contains find find_multiple add_with_opts add_node new_ring
    text_eq weak_crc insertion_sort
program = tt

-- "v" has the checksum 18, and "~" the checksum 26.
find_runs :
    (find library ring (codes "v") ≡ ok (some (codes "b")))
    × (find library ring (codes "c") ≡ ok (some (codes "a")))
unfolding program
find_runs = (refl, refl)

find_multiple_runs :
    find_multiple library ring (codes "v") 3 ≡ ok (some (codes "b" ∷ codes "a" ∷ []))
unfolding program
find_multiple_runs = refl

add_runs : (add_with_opts library (codes "a") 17 ring >>= λ r. ok (length r)) ≡ ok 18
unfolding program
add_runs = refl

new_runs : (new_ring library (codes "a" ∷ codes "b" ∷ []) >>= λ r. ok (length r)) ≡ ok 200
unfolding program
new_runs = refl

remove-without_example : remove (codes "a") ring ≡ ok (without (codes "a") ring)
remove-without_example = remove-without (codes "a") ring

find-owner_example : find library ring (codes "v") ≡ ok (owner (weak_crc (codes "v")) ring)
find-owner_example = find-owner library ring (codes "v") ring-IsSorted

find-remove_example :
    (remove (codes "a") ring >>= λ r. find library r (codes "v")) ≡ ok (some (codes "b"))
find-remove_example =
    find-remove library ring (codes "a") (codes "v") (codes "b") ring-IsSorted (find_runs.0)
      (ground arith)

add-Adds_example :
    (r : Ring) × (add_with_opts library (codes "a") 3 ring ≡ ok r)
    × Adds library (codes "a") 3 ring r
add-Adds_example = add-Adds library (codes "a") 3 ring

find_multiple-Collects_example :
    (s : Bytes) × (more : List Bytes) × (find_multiple library ring (codes "v") 2
      ≡ ok (some (s ∷ more)))
    × (owner (weak_crc (codes "v")) ring ≡ some s)
    × Collects ring 2 (s ∷ more)
find_multiple-Collects_example =
    find_multiple-Collects library (bucket 10 (codes "a"))
      (bucket 20 (codes "b") ∷ bucket 50 (codes "a") ∷ []) (codes "v") 2 ring-IsSorted (omega arith)
