-- ===== src/Log/Logger/Tests.antt =====
-- Loggers with handlers that write messages down, one of them asynchronous.
use golly.Base.{
  ℕ, Bool, true, false, none, some, List, [], ◌∷◌, ◌++◌, Bytes, codes, ◌≡◌, refl, arith,
}
use golly.Base.Calls.{ok}
use golly.Log.{Entry, Handler}
use golly.Log.Combined.{any_async}
use golly.Log.Combined.Laws.{visit}
use golly.Log.Logger.{
  Logger, Pools, System, climb, note_place, hand_over, release, log_entry, log, new, set_handler,
  stop_propagation,
}
use golly.Log.Logger.Children.{SameLog, new-SameLog}
use golly.Log.Logger.Delivery.{handlers_of, sent, returned, log-visit}
use golly.Log.Logger.Paths.{Up, RootedFrom, IsRooted}
use golly.Log.Logger.Store.{Change, makes, handles, stops, change, changes, root, changes-log}

abbrev Messages : Type 0
Messages = List Bytes

abbrev writer : Bool → Bytes → Handler ℕ Messages
writer is_async name = record {
  async = is_async;
  close = λ w. (none, w);
  flush = λ w. (none, w);
  log = λ e w. (none, w ++ (name ++ e.message ++ e.file) ∷ []);
}

abbrev clock : System Messages
clock = record { caller = λ depth w. (codes "@f", 12); stack = λ w. codes "trace"; now = λ w. 5 }

abbrev used : Entry ℕ
used = record {
  context = codes "old";
  payload = 1;
  is_error = true;
  file = codes "old";
  line = 9;
  message = codes "old";
  stacktrace = codes "old";
  timestamp = 1;
}

abbrev pools : Pools ℕ
pools = record { entries = used ∷ []; slices = 0 }

abbrev top : Logger ℕ Messages
top = record {
  context = codes "app";
  handler = some (writer false (codes "a:"));
  parent = none;
  stacktrace = false;
  stop = false;
}

abbrev inner : Logger ℕ Messages
inner = record {
  context = codes "app";
  handler = some (writer true (codes "b:"));
  parent = some 0;
  stacktrace = false;
  stop = false;
}

abbrev both : List (Logger ℕ Messages)
both = top ∷ inner ∷ []

program : Unit {0}
unfolding climb note_place hand_over release log_entry log new set_handler stop_propagation change
    changes visit any_async
program = tt

logs :
    (log both 1 clock 0 (codes "m") 3 false true pools []
      ≡ ok (record { entries = []; slices = 0 }, codes "b:m@f" ∷ codes "a:m@f" ∷ []))
    × (log both 0 clock 0 (codes "m") 3 false false pools []
        ≡ ok (
          record {
            entries = sent clock false 3 (codes "app") (codes "m") 3 false [] ∷ [];
            slices = 0;
          },
          codes "a:m" ∷ [],
        ))
unfolding program
logs = (refl, refl)

both-IsRooted : IsRooted both
unfolding IsRooted RootedFrom
both-IsRooted = (tt, (omega arith, tt))

log-visit_example :
    (above : List (Logger ℕ Messages)) × Up both 1 above
    × (let e : Entry ℕ = sent clock true 3 (codes "app") (codes "m") 3 false [] in
        log both 1 clock 0 (codes "m") 3 false true pools []
        ≡ ok (
          returned (handlers_of above) true e pools,
          (visit (λ h. h.log e) (handlers_of above) []).1,
        ))
log-visit_example =
    log-visit both 1 inner clock 0 (codes "m") 3 false true pools [] both-IsRooted refl

new-SameLog_example :
    (ls' : List (Logger ℕ Messages)) × (new both 1 (codes "db") ≡ ok (ls', 2))
    × SameLog ls' 2 both 1
    × SameLog ls' 0 both 0
new-SameLog_example = new-SameLog both 1 (codes "db") 0 both-IsRooted (omega arith) (omega arith)

abbrev run : List (Change ℕ Messages)
run =
    handles 0 (some (writer false (codes "a:")))
    ∷ makes 0 (codes "db")
    ∷ stops 1
    ∷ makes 1 (codes "tx")
    ∷ []

changes-log_example :
    (ls : List (Logger ℕ Messages)) × (changes run (root ∷ []) ≡ ok ls)
    × (r : Pools ℕ × Messages) × (log ls 2 clock 0 (codes "m") 3 false false pools [] ≡ ok r)
changes-log_example =
    changes-log run 2 clock 0 (codes "m") 3 false false pools []
      (omega arith, (omega arith, (omega arith, (omega arith, tt)))) (omega arith)
