-- ===== src/Log/Async/Tests.antt =====
-- An entry that waits while Flush, and then Close, is called.
use golly.Base.{ℕ, true, List, [], ◌∷◌, ◌++◌, ◌≡◌, refl, arith}
use golly.Log.Async.{
  selects, checks, Async, start, Action, logs, flushes, works, enqueues, asks_flush, tests, Runs,
  stays, goes,
}
use golly.Log.Async.Order.{entries, given, entries-given}

abbrev one_waits : Async ℕ
one_waits = record start { queue = 7 ∷ [] }

abbrev flush_asked : Async ℕ
flush_asked = record one_waits { flush = true; flushers = 1; place = checks }

abbrev flush_waits : Async ℕ
flush_waits = record flush_asked { place = selects }

abbrev past : List (Action ℕ)
past = logs 7 ∷ flushes ∷ works ∷ []

past-Runs : Runs 1 start past flush_waits
past-Runs =
    goes start one_waits flush_waits (logs 7) (flushes ∷ works ∷ [])
      (enqueues start 7 refl (omega arith))
      (goes one_waits flush_asked flush_waits flushes (works ∷ []) (asks_flush one_waits refl) (
        goes flush_asked flush_waits flush_waits works [] (tests flush_asked refl)
          (stays flush_waits)))

entries-given_example : entries flush_waits.calls ++ flush_waits.queue ≡ given past
entries-given_example = entries-given 1 past flush_waits past-Runs
