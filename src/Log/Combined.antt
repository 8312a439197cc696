-- ===== src/Log/Combined.antt =====
-- log/handler.go: `FailoverHandler` and `MultiHandler`.
pub mod Laws
mod Tests
use golly.Base.{Bool, true, false, Option, none, some, List, [], ◌∷◌, if◌then◌else◌}
use golly.Log.{Entry, Error, Handler}

module _ {D W : Type 0} where
  -- The loop of both `Async` methods.
  unfoldable pub any_async : List (Handler D W) → Bool
  any_async [] = false
  any_async (h ∷ hs) = if h.async then true else any_async hs

  -- The loop of both `Close` methods and of both `Flush` methods, which call `method` of each
  -- handler. `first` is `firstError`.
  unfoldable pub call_all :
      (Handler D W → W → Option Error × W)
      → List (Handler D W)
      → Option Error
      → W
      → Option Error × W
  call_all method [] first w = (first, w)
  call_all method (h ∷ hs) first w =
      let (error, w') = method h w in
      call_all method hs (elim first [ none ↦ error | some e ↦ some e ]) w'

  -- The loop of `failover.Log`; `error` is the error of the handler before.
  unfoldable pub log_first : List (Handler D W) → Entry D → Option Error → W → Option Error × W
  log_first [] e error w = (error, w)
  log_first (h ∷ hs) e error w =
      let (error', w') = h.log e w in
      elim error' [ none ↦ (none, w') | some x ↦ log_first hs e (some x) w' ]

  -- The loop of `list.Log`: `previous` is overwritten only where it is an error already.
  unfoldable pub log_each : List (Handler D W) → Entry D → Option Error → W → Option Error × W
  log_each [] e previous w = (previous, w)
  log_each (h ∷ hs) e previous w =
      let (error, w') = h.log e w in
      log_each hs e (elim previous [ none ↦ none | some x ↦ error ]) w'

  unfoldable pub failover_handler : List (Handler D W) → Handler D W
  unfolding any_async call_all log_first
  failover_handler hs = record {
    async = any_async hs;
    close = call_all (λ h. h.close) hs none;
    flush = call_all (λ h. h.flush) hs none;
    log = λ e. log_first hs e none;
  }

  unfoldable pub multi_handler : List (Handler D W) → Handler D W
  unfolding any_async call_all log_each
  multi_handler hs = record {
    async = any_async hs;
    close = call_all (λ h. h.close) hs none;
    flush = call_all (λ h. h.flush) hs none;
    log = λ e. log_each hs e none;
  }
