-- ===== src/Prime/Ranges.antt =====
-- What `Between` picks from a sorted table.
use golly.Base.{ℕ, ◌≤◌, ◌<◌, ◌⊎◌, some, List, ◌≡◌}
use golly.Base.Calls.{Outcome, ok, err}
use golly.Base.Lists.{get_elem?, All}
use golly.Prime.{Failure, none_available}

-- A number of the table in the range.
pub Picks : List ℕ → ℕ → ℕ → Outcome Failure ℕ → Type 0
Picks table start end result =
    (p : ℕ) × (j : ℕ) × (result ≡ ok p) × (get_elem? table j ≡ some p) × start ≤ p × p ≤ end

-- None of the table is in the range.
pub Lacks : List ℕ → ℕ → ℕ → Outcome Failure ℕ → Type 0
Lacks table start end result =
    (result ≡ err none_available) × All (λ y. (y < start) ⊎ (end < y)) table
