-- ===== src/Log/Stream/Tests.antt =====
-- A handler for errors, over a device that writes down what it is asked to do.
use golly.Base.{ℕ, Bool, true, false, none, some, List, [], ◌∷◌, ◌++◌, Bytes, codes, ◌≡◌, refl}
use golly.Log.{Entry}
use golly.Log.Stream.{Device, Options, Stream, error_log, fresh, close, flush, sync, already_closed}
use golly.Log.Stream.Laws.{call, calls, call_close, call_flush, call_log, calls-close, write_all}

abbrev Record : Type 0
Record = List Bytes

abbrev paper : Device ℕ Record
paper = record {
  open_file = λ name w. ((none, 7), w ++ name ∷ []);
  close_stream = λ wc w. (none, w ++ codes "close" ∷ []);
  sync_file = λ file w. (none, w ++ codes "sync" ∷ []);
  flush_buffer = λ wc w. (none, w ++ codes "flush" ∷ []);
  write = λ e wc w. (none, w ++ e.message ∷ []);
}

abbrev errors_only : Options ℕ
errors_only = record {
  buffer_size = 16;
  filename = codes "f";
  filter = some (λ _. false);
  formats = true;
  log_type = error_log;
  stream = none;
}

abbrev entry : Bool → Bytes → Entry ℕ
entry is_error message = record {
  context = [];
  payload = 0;
  is_error = is_error;
  file = [];
  line = 0;
  message = message;
  stacktrace = [];
  timestamp = 5;
}

abbrev opened : Stream ℕ
opened = fresh errors_only (some 7) 7

abbrev entries : List (Entry ℕ)
entries = entry true (codes "x") ∷ entry false (codes "y") ∷ entry true (codes "z") ∷ []

flushes : calls paper (call_flush ∷ call_close ∷ call_flush ∷ []) opened [] ≡ (
  none ∷ none ∷ some already_closed ∷ [],
  record opened { closed = true },
  codes "flush" ∷ codes "sync" ∷ codes "close" ∷ [],
)
unfolding call calls close flush sync
flushes = refl

calls-close_example :
    calls paper (call_close ∷ call_log (entry true (codes "x")) ∷ call_close ∷ []) opened [] ≡ (
      none ∷ some already_closed ∷ some already_closed ∷ [],
      record opened { closed = true },
      codes "close" ∷ [],
    )
calls-close_example =
    calls-close paper (call_log (entry true (codes "x")) ∷ call_close ∷ []) opened [] refl

writes : write_all paper error_log 7 entries [] ≡ codes "x" ∷ codes "z" ∷ []
unfolding write_all
writes = refl
