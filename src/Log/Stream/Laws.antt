-- ===== src/Log/Stream/Laws.antt =====
-- What a stream handler does before and behind its `Close`, and which entries it writes.
use golly.Base.{
  ℕ, Bool, true, false, Option, none, some, arith, List, [], ◌∷◌, ◌≡◌, refl, ap, if◌then◌else◌,
}
use golly.Base.Lists.{length, replicate}
use golly.Log.{Entry, Error}
use golly.Log.Stream.{
  LogType, Device, Stream, Made, made, refused, close, flush, log, already_closed, logs_errors,
  logs_info, Result,
}

module _ {D W : Type 0} (device : Device D W) where
  -- The calls of a handler that a program makes.
  pub data Call : Type 0 where
    call_close : Call
    call_flush : Call
    call_log : Entry D → Call

  unfoldable pub call : Call → Stream D → W → Result device
  call call_close = close device
  call call_flush = flush device
  call (call_log e) = λ s. log device s e

  unfoldable pub calls : List Call → Stream D → W → List (Option Error) × Stream D × W
  calls [] s w = ([], s, w)
  calls (c ∷ cs) s w =
      let (error, s', w') = call c s w in
      let (errors, s'', w'') = calls cs s' w' in (error ∷ errors, s'', w'')

  call-closed :
      (c : Call) (s : Stream D) (w : W) → s.closed ≡ true → call c s w ≡ (some already_closed, s, w)
  unfolding call close flush log
  call-closed call_close s w q = grind arith
  call-closed call_flush s w q = grind arith
  call-closed (call_log e) s w q = grind arith

  calls-closed :
      (cs : List Call) (s : Stream D) (w : W)
      → s.closed ≡ true
      → calls cs s w ≡ (replicate (length cs) (some already_closed), s, w)
  unfolding calls
  calls-closed [] s w q = refl
  calls-closed (c ∷ cs) s w q =
      rw (call-closed c s w q)
        (ap (λ r. (some already_closed ∷ r.0, r.1, r.2)) (calls-closed cs s w q))

  -- `Close` of an open handler closes the stream, and returns what that returns; every call behind it
  -- is answered by the error that the stream is closed, and reaches neither the stream nor the file.
  pub calls-close :
      (cs : List Call) (s : Stream D) (w : W)
      → s.closed ≡ false
      → calls (call_close ∷ cs) s w ≡ (
        (device.close_stream s.wc w).0 ∷ replicate (length cs) (some already_closed),
        record s { closed = true },
        (device.close_stream s.wc w).1,
      )
  unfolding call calls close
  calls-close cs s w q = rw q (
      ap (λ r. ((device.close_stream s.wc w).0 ∷ r.0, r.1, r.2))
        (calls-closed cs (record s { closed = true }) (device.close_stream s.wc w).1 refl))

  abbrev pub selects : LogType → Entry D → Bool
  selects t e = if e.is_error then logs_errors t else logs_info t

  -- The selected entries are written one after the other.
  unfoldable pub write_all : LogType → ℕ → List (Entry D) → W → W
  write_all t wc [] w = w
  write_all t wc (e ∷ es) w =
      if selects t e then write_all t wc es (device.write e wc w).1 else write_all t wc es w

  pub Selecting : LogType → Stream D → Type 0
  Selecting t s =
      (s.closed ≡ false)
      × (s.filter ≡ none)
      × (s.log_info ≡ logs_info t)
      × (s.log_err ≡ logs_errors t)

  Made-Selecting : LogType → Made D → Type 0
  Made-Selecting t (made s) = Selecting t s
  Made-Selecting t (refused x) = Unit
