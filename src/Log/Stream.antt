-- ===== src/Log/Stream.antt =====
-- log/stream.go: a handler that formats entries to a file or another stream.
--
-- The file system, the formatter and the streams are a parameter, the record `Device`. The two
-- goroutines that `StreamHandler` starts run beside the handler and are not modelled; `rotate` does
-- nothing. `filter`, the field of the handler, is given no value by `StreamHandler`.
pub mod Laws
mod Tests
use golly.Base.{
  ℕ, ◌+◌, ◌/◌, ◌%◌, Bool, true, false, not, ◌&&◌, Option, none, some, Bytes, codes, if◌then◌else◌,
  ltb, ◌==◌, List, [],
}
use golly.Base.Lists.{length}
use golly.Log.{Entry, Error, Handler}

pub data LogType : Type 0 where
  info_log error_log mixed_log : LogType

-- What the handler calls: an opened file or stream is a number.
pub record Device (D W : Type 0) : Type 0 where
  pub open_file : Bytes → W → (Option Error × ℕ) × W
  pub close_stream : ℕ → W → Option Error × W
  pub sync_file : ℕ → W → Option Error × W
  pub flush_buffer : ℕ → W → Option Error × W
  pub write : Entry D → ℕ → W → Option Error × W

-- `Options`, with what `StreamHandler` reads of it. `formats` tells whether the formatter is set;
-- it is part of the device.
pub record Options (D : Type 0) : Type 0 where
  pub buffer_size : ℕ
  pub filename : Bytes
  pub filter : Option (Entry D → Bool)
  pub formats : Bool
  pub log_type : LogType
  pub stream : Option ℕ

-- `stream`: `buffered` tells whether `buf` is set.
pub record Stream (D : Type 0) : Type 0 where
  pub buffered : Bool
  pub closed : Bool
  pub file : Option ℕ
  pub filter : Option (Entry D → Bool)
  pub log_info : Bool
  pub log_err : Bool
  pub wc : ℕ

abbrev pub already_closed : Error
already_closed = codes "log: stream already closed"

abbrev pub missing_formatter : Error
missing_formatter = codes "log: stream options need to have the Formatter field set"

abbrev pub missing_stream : Error
missing_stream =
    codes "log: stream options need to have either the Filename or the Stream fields set"

-- `o.LogType&ErrorLog != 0` and `o.LogType&InfoLog != 0`
abbrev pub logs_errors : LogType → Bool
logs_errors info_log = false
logs_errors error_log = true
logs_errors mixed_log = true

abbrev pub logs_info : LogType → Bool
logs_info info_log = true
logs_info error_log = false
logs_info mixed_log = true

pub data Choice : Type 0 where
  failed : Error → Choice
  chosen : Option ℕ → ℕ → Choice

pub data Made (D : Type 0) : Type 0 where
  made : Stream D → Made D
  refused : Error → Made D

module _ {D : Type 0} where
  abbrev pub fresh : Options D → Option ℕ → ℕ → Stream D
  fresh o file wc = record {
    buffered = ltb 0 o.buffer_size;
    closed = false;
    file = file;
    filter = none;
    log_info = logs_info o.log_type;
    log_err = logs_errors o.log_type;
    wc = wc;
  }

  -- The part of `StreamHandler` behind the choice of the stream.
  unfoldable pub set_up : Options D → Choice → Made D
  set_up o (failed x) = refused x
  set_up o (chosen file wc) =
      if not o.formats then refused missing_formatter else made (fresh o file wc)

module _ {D W : Type 0} (device : Device D W) where
  -- The first part: the file of that name, or the stream.
  unfoldable pub choose_stream : Options D → W → Choice × W
  choose_stream o w = elim (length o.filename == 0) [
    | false ↦
        let ((error, file), w') = device.open_file o.filename w in
        (elim error [ some x ↦ failed x | none ↦ chosen (some file) file ], w')
    | true ↦ (elim o.stream [ some stream ↦ chosen none stream | none ↦ failed missing_stream ], w)
  ]

  unfoldable pub stream_handler : Options D → W → Made D × W
  unfolding set_up choose_stream
  stream_handler o w = let (choice, w') = choose_stream o w in (set_up o choice, w')

  abbrev pub Result : Type 0
  Result = Option Error × Stream D × W

  unfoldable pub close : Stream D → W → Result
  close s w = elim s.closed [
    | true ↦ (some already_closed, s, w)
    | false ↦
        let (error, w') = device.close_stream s.wc w in (error, record s { closed = true }, w')
  ]

  -- `s.file.Sync()`, where there is a file.
  unfoldable pub sync : Stream D → W → Result
  sync s w = elim s.file [
    | none ↦ (none, s, w)
    | some file ↦ let (error, w') = device.sync_file file w in (error, s, w')
  ]

  unfoldable pub flush : Stream D → W → Result
  unfolding sync
  flush s w = elim s.closed [
    | true ↦ (some already_closed, s, w)
    | false ↦ elim s.buffered [
      | false ↦ sync s w
      | true ↦
          let (error, w') = device.flush_buffer s.wc w in
          elim error [ some x ↦ (some x, s, w') | none ↦ sync s w' ]
    ]
  ]

  -- The tests of `Log` on an open handler: does the entry pass?
  unfoldable pub passes : Stream D → Entry D → Bool
  passes s e =
      let filtered : Bool = elim s.filter [ none ↦ true | some f ↦ f e ] in
      if e.is_error
      then (if not s.log_err then false else filtered)
      else if not s.log_info
      then false
      else filtered

  unfoldable pub log : Stream D → Entry D → W → Result
  unfolding passes
  log s e w = elim s.closed [
    | true ↦ (some already_closed, s, w)
    | false ↦ elim (passes s e) [
      | false ↦ (none, s, w)
      | true ↦ let (error, w') = device.write e s.wc w in (error, s, w')
    ]
  ]
