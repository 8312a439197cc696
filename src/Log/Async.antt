-- ===== src/Log/Async.antt =====
-- log/handler.go: `AsyncHandler`, with its goroutine and its callers as steps.
--
-- Each method has a copy of the struct, with a mutex and a flag `closed` of its own, so the lock keeps nobody
-- out, and `closed` is false in every call; what the calls and the goroutine share are the channels. A send on a
-- channel without a buffer is one step of both sides. The calls of the wrapped handler are kept as
-- a list; a send on a closed channel, which panics, is no step.
pub mod Order
pub mod Answers
mod Tests
use golly.Base.{ℕ, suc, ◌+◌, ◌<◌, Bool, true, false, ◌&&◌, List, [], ◌∷◌, ◌++◌, ◌≡◌, if◌then◌else◌}
use golly.Base.Lists.{length}

-- A call of the wrapped handler.
pub data Call (E : Type 0) : Type 0 where
  logged : E → Call E
  flushed closed : Call E

-- Where the goroutine is: at the `select`, at the tests behind it, at the send on `flushWait`, at the send on `stop`, or at
-- its end.
pub data Place : Type 0 where
  selects checks answers ends over : Place

pub record Async (E : Type 0) : Type 0 where
  pub queue : List E
  pub place : Place
  pub flush : Bool
  pub stop : Bool
  -- `flush`, `flushWait` and `queue` are closed.
  pub is_shut : Bool
  -- `stop` is closed.
  pub is_stopped : Bool
  -- The calls of Flush that wait on `flushWait`, and those of Close that wait on `stop`.
  pub flushers : ℕ
  pub closers : ℕ
  pub calls : List (Call E)

abbrev pub start : {E : Type 0} → Async E
start = record {
  queue = [];
  place = selects;
  flush = false;
  stop = false;
  is_shut = false;
  is_stopped = false;
  flushers = 0;
  closers = 0;
  calls = [];
}

abbrev pub is_empty : {E : Type 0} → List E → Bool
is_empty [] = true
is_empty (e ∷ q) = false

-- The tests behind the `select`.
abbrev pub check : {E : Type 0} → Async E → Async E
check s =
    if s.flush
    then (if is_empty s.queue
        then record s { calls = s.calls ++ flushed ∷ []; flush = false; place = answers }
        else record s { place = selects })
    else if s.stop && is_empty s.queue
    then record s { is_shut = true; place = ends }
    else record s { place = selects }

-- What happens: a call of Log, of Flush or of Close comes through, or the goroutine works.
pub data Action (E : Type 0) : Type 0 where
  logs : E → Action E
  flushes closes works : Action E

pub data Step {E : Type 0} (bufsize : ℕ) : Async E → Action E → Async E → Type 0 where
  -- `a.queue <- e`
  enqueues :
      (s : Async E) (e : E)
      → s.is_shut ≡ false
      → length s.queue < bufsize
      → Step bufsize s (logs e) (record s { queue = s.queue ++ e ∷ [] })
  hands_over :
      (s : Async E) (e : E)
      → s.is_shut ≡ false
      → s.queue ≡ []
      → s.place ≡ selects
      → Step bufsize s (logs e) (record s { calls = s.calls ++ logged e ∷ []; place = checks })
  -- `e = <-a.queue`
  takes :
      (s : Async E) (e : E) (q : List E)
      → s.place ≡ selects
      → s.queue ≡ e ∷ q
      → Step bufsize s works
          (record s { queue = q; calls = s.calls ++ logged e ∷ []; place = checks })
  -- `a.flush <- struct{}{}`
  asks_flush :
      (s : Async E)
      → s.place ≡ selects
      → Step bufsize s flushes
          (record s { flush = true; flushers = s.flushers + 1; place = checks })
  -- `a.stop <- struct{}{}` of Close, to the goroutine
  asks_stop :
      (s : Async E)
      → s.place ≡ selects
      → s.is_stopped ≡ false
      → Step bufsize s closes (record s { stop = true; closers = s.closers + 1; place = checks })
  -- The same, to another call of Close, which takes it for the answer.
  crosses :
      (s : Async E) (n : ℕ)
      → s.closers ≡ suc n
      → s.is_stopped ≡ false
      → Step bufsize s closes (record s { is_stopped = true; calls = s.calls ++ closed ∷ [] })
  tests : (s : Async E) → s.place ≡ checks → Step bufsize s works (check s)
  -- `a.flushWait <- struct{}{}`
  answers_flush :
      (s : Async E) (n : ℕ)
      → s.place ≡ answers
      → s.flushers ≡ suc n
      → Step bufsize s works (record s { flushers = n; place = selects })
  -- `a.stop <- struct{}{}` of the goroutine, and what Close does with it
  answers_stop :
      (s : Async E) (n : ℕ)
      → s.place ≡ ends
      → s.closers ≡ suc n
      → s.is_stopped ≡ false
      → Step bufsize s works (record s {
        closers = n;
        is_stopped = true;
        calls = s.calls ++ closed ∷ [];
        place = over;
      })

pub data Runs {E : Type 0} (bufsize : ℕ) : Async E → List (Action E) → Async E → Type 0 where
  stays : (s : Async E) → Runs bufsize s [] s
  goes :
      (s t u : Async E) (a : Action E) (past : List (Action E))
      → Step bufsize s a t
      → Runs bufsize t past u
      → Runs bufsize s (a ∷ past) u
