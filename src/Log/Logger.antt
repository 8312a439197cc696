-- ===== src/Log/Logger.antt =====
-- log/logger.go: the loggers and the pools of entries and buffers.
--
-- Loggers are shared, so they are kept in a store: a logger is its index in a list, and `New` adds
-- one at the end. Index 0 is `root`. The entries taken from `entryPool` are in the list `entries`,
-- the buffers of `slicePool` are counted. `runtime` and `time` are the record `System`.
pub mod Paths
pub mod Store
pub mod Children
pub mod Delivery
mod Tests
use golly.Base.Calls.{Outcome, ok, err, panic, ◌>>=◌, read_at, write_at, out_of_fuel, Run}
use golly.Base.{
  ℕ, zero, suc, ◌+◌, Bool, true, false, not, ◌&&◌, ◌||◌, Option, none, some, Bytes, codes,
  if◌then◌else◌, List, [], ◌∷◌, ◌++◌,
}
use golly.Base.Lists.{length, get_elem?, set}
use golly.Log.{Entry, Error, Handler}

pub record Logger (D W : Type 0) : Type 0 where
  pub context : Bytes
  pub handler : Option (Handler D W)
  pub parent : Option ℕ
  pub stacktrace : Bool
  pub stop : Bool

pub record Pools (D : Type 0) : Type 0 where
  pub entries : List (Entry D)
  pub slices : ℕ

-- `runtime.Caller`, `runtime.Stack` and `time.Now`.
pub record System (W : Type 0) : Type 0 where
  pub caller : ℕ → W → Bytes × ℕ
  pub stack : W → Bytes
  pub now : W → ℕ

-- The variables of `logEntry`: the entry that `e` points to, `debugSet` and `async`.
pub record Walk (D W : Type 0) : Type 0 where
  pub entry : Entry D
  pub debug_set : Bool
  pub async : Bool
  pub slices : ℕ
  pub outside : W

-- `Get` of `slicePool`: a buffer of the pool, or a new one.
abbrev pub take_slice : ℕ → ℕ
take_slice zero = zero
take_slice (suc n) = n

-- The entry that `log` takes: a new one, or one of the pool with the fields reset that are not
-- always set.
abbrev pub clean_entry : {D : Type 0} → D → List (Entry D) → Entry D × List (Entry D)
clean_entry nil [] = (
  record {
    context = [];
    payload = nil;
    is_error = false;
    file = [];
    line = 0;
    message = [];
    stacktrace = [];
    timestamp = 0;
  },
  [],
)
clean_entry nil (e ∷ es) = (record e { file = []; line = 0; stacktrace = [] }, es)

module _ {D W : Type 0} where
  -- `New`. The context that it puts together from `ctx` is not used.
  unfoldable pub new : List (Logger D W) → ℕ → Bytes → Run (List (Logger D W) × ℕ)
  new ls l ctx = read_at ls l >>= λ logger. ok (
    ls
        ++ (record {
          context = logger.context;
          handler = none;
          parent = some l;
          stacktrace = false;
          stop = false;
        })
          ∷ [],
    length ls,
  )

  unfoldable pub set_handler :
      List (Logger D W) → ℕ → Option (Handler D W) → Run (List (Logger D W))
  set_handler ls l h = read_at ls l >>= λ logger. write_at ls l (record logger { handler = h })

  unfoldable pub stop_propagation : List (Logger D W) → ℕ → Run (List (Logger D W))
  stop_propagation ls l = read_at ls l >>= λ logger. write_at ls l (record logger { stop = true })

  unfoldable pub close : List (Logger D W) → ℕ → W → Run W
  close ls l w =
      read_at ls l >>= λ logger. ok (elim logger.handler [ none ↦ w | some h ↦ (h.close w).1 ])

  unfoldable pub flush : List (Logger D W) → ℕ → W → Run W
  flush ls l w =
      read_at ls l >>= λ logger. ok (elim logger.handler [ none ↦ w | some h ↦ (h.flush w).1 ])

  -- The part of the loop of `logEntry` that fills in the place of the call.
  unfoldable pub note_place : System W → Bool → ℕ → Walk D W → Walk D W
  note_place system debug depth s =
      if debug && not s.debug_set
      then (let place = system.caller depth s.outside in
          record s {
            entry = record (s.entry) {
              file = place.0;
              line = place.1;
              stacktrace = system.stack s.outside;
            };
            debug_set = true;
            slices = take_slice s.slices;
          })
      else s

  -- The part that hands the entry to the handler of a logger.
  unfoldable pub hand_over : Logger D W → Walk D W → Walk D W
  hand_over logger s = elim logger.handler [
    | none ↦ s
    | some h ↦ record s {
      async = if h.async then true else s.async;
      outside = (h.log s.entry s.outside).1;
    }
  ]

  -- The loop of `logEntry`, from the logger `l` up.
  unfoldable pub climb : ℕ → List (Logger D W) → ℕ → System W → Bool → ℕ → Walk D W → Run (Walk D W)
  unfolding note_place hand_over
  climb zero ls l system debug depth s = err out_of_fuel
  climb (suc fuel) ls l system debug depth s = read_at ls l >>= λ logger.
      let s' : Walk D W = hand_over logger (note_place system debug depth s) in
      elim logger.parent [
        | none ↦ ok s'
        | some p ↦ elim logger.stop [ true ↦ ok s' | false ↦ climb fuel ls p system debug depth s' ]
      ]

  -- What follows the loop: the entry and the buffer go back to the pools, unless a handler was
  -- asynchronous.
  unfoldable pub release : List (Entry D) → Walk D W → Pools D × W
  release entries s = (
    if not s.async
        then record {
          entries = s.entry ∷ entries;
          slices = if s.debug_set then suc s.slices else s.slices;
        }
        else record { entries = entries; slices = s.slices },
    s.outside,
  )

  -- `logEntry`; the fuel is the number of loggers.
  unfoldable pub log_entry :
      List (Logger D W) → ℕ → System W → Entry D → Bool → ℕ → Pools D → W → Run (Pools D × W)
  unfolding climb release
  log_entry ls l system e debug depth pools w =
      climb (length ls) ls l system debug depth
        (record { entry = e; debug_set = false; async = false; slices = pools.slices; outside = w })
      >>= λ s. ok (release pools.entries s)

  unfoldable pub log :
      List (Logger D W)
      → ℕ
      → System W
      → D
      → Bytes
      → D
      → Bool
      → Bool
      → Pools D
      → W
      → Run (Pools D × W)
  unfolding log_entry
  log ls l system nil message payload is_error debug pools w = read_at ls l >>= λ logger.
      let (e, rest) = clean_entry nil pools.entries in
      log_entry ls l system
        (record e {
          context = logger.context;
          payload = payload;
          is_error = is_error;
          message = message;
          timestamp = system.now w;
        })
        debug 3 (record pools { entries = rest }) w

  -- `DebugData`, `ErrorData` and `InfoData`. `Debug`, `Error` and `Info`, with or without a format,
  -- are these with the text that `fmt` makes and with `nil`.
  unfoldable pub debug_data :
      List (Logger D W) → ℕ → System W → D → Bytes → D → Pools D → W → Run (Pools D × W)
  unfolding log
  debug_data ls l system nil message payload = log ls l system nil message payload false true

  unfoldable pub error_data :
      List (Logger D W) → ℕ → System W → D → Bytes → D → Pools D → W → Run (Pools D × W)
  unfolding log
  error_data ls l system nil message payload = log ls l system nil message payload true false

  unfoldable pub info_data :
      List (Logger D W) → ℕ → System W → D → Bytes → D → Pools D → W → Run (Pools D × W)
  unfolding log
  info_data ls l system nil message payload = log ls l system nil message payload false false
