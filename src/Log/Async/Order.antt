-- ===== src/Log/Async/Order.antt =====
-- What the wrapped handler of an `AsyncHandler` is called with.
use golly.Base.{
  ℕ, ◌&&◌, inl, inr, Bool-cases, List, [], ◌∷◌, ◌++◌, append_assoc, append-nil, ◌≡◌, refl, sym, ap,
  ◌∙◌,
}
use golly.Log.Async.{
  Call, logged, flushed, closed, Async, start, is_empty, check, Action, logs, flushes, closes,
  works, Step, enqueues, hands_over, takes, asks_flush, asks_stop, crosses, tests, answers_flush,
  answers_stop, Runs, stays, goes,
}

module _ {E : Type 0} where
  -- The entries of the calls.
  abbrev pub entries : List (Call E) → List E
  entries [] = []
  entries (logged e ∷ cs) = e ∷ entries cs
  entries (flushed ∷ cs) = entries cs
  entries (closed ∷ cs) = entries cs

  -- The entries that were given to Log.
  abbrev pub given : List (Action E) → List E
  given [] = []
  given (logs e ∷ past) = e ∷ given past
  given (flushes ∷ past) = given past
  given (closes ∷ past) = given past
  given (works ∷ past) = given past

  entries-append : (cs ds : List (Call E)) → entries (cs ++ ds) ≡ entries cs ++ entries ds
  entries-append [] ds = refl
  entries-append (logged e ∷ cs) ds = ap (λ r. e ∷ r) (entries-append cs ds)
  entries-append (flushed ∷ cs) ds = entries-append cs ds
  entries-append (closed ∷ cs) ds = entries-append cs ds

  -- The entries that were handled, and those that wait.
  abbrev pub taken_in : Async E → List E
  taken_in s = entries s.calls ++ s.queue

  abbrev given_by : Action E → List E
  given_by (logs e) = e ∷ []
  given_by flushes = []
  given_by closes = []
  given_by works = []

  -- A call that is not for an entry.
  bare_call :
      (cs : List (Call E)) (c : Call E) (q : List E)
      → entries (c ∷ []) ≡ []
      → entries (cs ++ c ∷ []) ++ q ≡ entries cs ++ q
  bare_call cs c q h =
      ap (λ es. es ++ q)
        (entries-append cs (c ∷ []) ∙ ap (λ es. entries cs ++ es) h ∙ append-nil (entries cs))

  entry_call :
      (cs : List (Call E)) (e : E) (q : List E)
      → entries (cs ++ logged e ∷ []) ++ q ≡ entries cs ++ e ∷ q
  entry_call cs e q =
      ap (λ es. es ++ q) (entries-append cs (logged e ∷ [])) ∙ append_assoc (entries cs) (e ∷ []) q

  check-taken_in : (s : Async E) → taken_in (check s) ≡ taken_in s
  check-taken_in s = elim (Bool-cases s.flush) [
    | inl f ↦ elim (Bool-cases (is_empty s.queue)) [
      | inl q ↦ rw (f, q) (bare_call s.calls flushed s.queue refl)
      | inr q ↦ rw (f, q) refl
    ]
    | inr f ↦ elim (Bool-cases (s.stop && is_empty s.queue)) [
      | inl q ↦ rw (f, q) refl
      | inr q ↦ rw (f, q) refl
    ]
  ]

  Step-taken_in :
      (bufsize : ℕ) (s t : Async E) (a : Action E)
      → Step bufsize s a t
      → taken_in t ≡ taken_in s ++ given_by a
  Step-taken_in bufsize s t a (enqueues _ e f l) =
      sym (append_assoc (entries s.calls) s.queue (e ∷ []))
  Step-taken_in bufsize s t a (hands_over _ e f q p) =
      entry_call s.calls e s.queue
      ∙ ap (λ q. entries s.calls ++ e ∷ q) q
      ∙ sym (append_assoc (entries s.calls) [] (e ∷ []))
      ∙ ap (λ q. (entries s.calls ++ q) ++ e ∷ []) (sym q)
  Step-taken_in bufsize s t a (takes _ e q p h) =
      entry_call s.calls e q
      ∙ ap (λ q. entries s.calls ++ q) (sym h)
      ∙ sym (append-nil (taken_in s))
  Step-taken_in bufsize s t a (asks_flush _ p) = sym (append-nil (taken_in s))
  Step-taken_in bufsize s t a (asks_stop _ p f) = sym (append-nil (taken_in s))
  Step-taken_in bufsize s t a (crosses _ n c f) =
      bare_call s.calls closed s.queue refl ∙ sym (append-nil (taken_in s))
  Step-taken_in bufsize s t a (tests _ p) = check-taken_in s ∙ sym (append-nil (taken_in s))
  Step-taken_in bufsize s t a (answers_flush _ n p c) = sym (append-nil (taken_in s))
  Step-taken_in bufsize s t a (answers_stop _ n p c f) =
      bare_call s.calls closed s.queue refl ∙ sym (append-nil (taken_in s))

  given_by-given :
      (a : Action E) (past : List (Action E)) → given_by a ++ given past ≡ given (a ∷ past)
  given_by-given (logs e) past = refl
  given_by-given flushes past = refl
  given_by-given closes past = refl
  given_by-given works past = refl

  Runs-taken_in :
      (bufsize : ℕ) (past : List (Action E)) (s u : Async E)
      → Runs bufsize s past u
      → taken_in u ≡ taken_in s ++ given past
  Runs-taken_in bufsize past s u (stays _) = sym (append-nil (taken_in s))
  Runs-taken_in bufsize past s u (goes _ t _ a later step runs) =
      Runs-taken_in bufsize later t u runs
      ∙ ap (λ es. es ++ given later) (Step-taken_in bufsize s t a step)
      ∙ append_assoc (taken_in s) (given_by a) (given later)
      ∙ ap (λ es. taken_in s ++ es) (given_by-given a later)

  -- The entries that the wrapped handler was given, and behind them those in the queue, are the entries that Log was
  -- given, in their order, whatever else is called in between.
  pub entries-given :
      (bufsize : ℕ) (past : List (Action E)) (s : Async E)
      → Runs bufsize start past s
      → entries s.calls ++ s.queue ≡ given past
  entries-given bufsize past s runs = Runs-taken_in bufsize past start s runs
