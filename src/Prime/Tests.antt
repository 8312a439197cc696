-- ===== src/Prime/Tests.antt =====
-- A table of six primes.
use golly.Base.{ℕ, List, [], ◌∷◌, some, ◌≡◌, refl, Bytes}
use golly.Base.Calls.{ok, err}
use golly.Base.Int.{pos}
use golly.Prime.{
  none_available, get_random_prime, skip_below, count_up_to, pick_between, between, select,
}

abbrev primes : List ℕ
primes = 2 ∷ 3 ∷ 5 ∷ 7 ∷ 11 ∷ 13 ∷ []

abbrev random : Bytes
random = 0 ∷ 0 ∷ 1 ∷ 4 ∷ []

program : Unit {0}
unfolding get_random_prime skip_below count_up_to pick_between between select
program = tt

picks :
    (between primes (pos 3) (pos 11) (some random) ≡ ok 3)
    × (between primes (pos 8) (pos 10) (some random) ≡ err none_available)
    × (select primes (some random) ≡ ok 5)
unfolding program
picks = (refl, refl, refl)
