-- ===== src/Log/Async/Answers.antt =====
-- What the goroutine of an `AsyncHandler` does for Flush and for Close.
use golly.Base.{ltb, not, ℕ, Bool, true, false, ◌&&◌, List, [], ◌∷◌}
use golly.Log.Async.{
  Call, logged, selects, checks, answers, ends, over, Async, is_empty, Action, works,
}

module _ {E : Type 0} (bufsize : ℕ) where
  -- The entries of a queue as calls of the handler.
  abbrev pub as_calls : List E → List (Call E)
  as_calls [] = []
  as_calls (e ∷ q) = logged e ∷ as_calls q

  -- The goroutine alone: what it does while a call of Flush waits.
  abbrev pub rounds : List E → List (Action E)
  rounds [] = works ∷ works ∷ []
  rounds (e ∷ q) = works ∷ works ∷ rounds q

  -- Whether the goroutine can go on by itself.
  abbrev may_work : Async E → Bool
  may_work s = elim s.place [
    | selects ↦ not (is_empty s.queue)
    | checks ↦ true
    | answers ↦ ltb 0 s.flushers
    | ends ↦ ltb 0 s.closers && not s.is_stopped
    | over ↦ false
  ]
