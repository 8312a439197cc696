-- ===== src/Log/Combined/Tests.antt =====
-- Handlers that write into a list of messages, one of which always fails.
use golly.Base.{ℕ, false, none, some, List, [], ◌∷◌, ◌++◌, Bytes, codes, ◌≡◌, refl}
use golly.Log.{Entry, Handler}
use golly.Log.Combined.{failover_handler, multi_handler}
use golly.Log.Combined.Laws.{visit, multi-visit}

abbrev Messages : Type 0
Messages = List Bytes

abbrev writer : Bytes → Handler ℕ Messages
writer name = record {
  async = false;
  close = λ w. (some name, w);
  flush = λ w. (none, w);
  log = λ e w. (none, w ++ (name ++ e.message) ∷ []);
}

abbrev broken : Handler ℕ Messages
broken = record {
  async = false;
  close = λ w. (none, w);
  flush = λ w. (some (codes "broken"), w);
  log = λ e w. (some (codes "broken"), w ++ codes "tried" ∷ []);
}

abbrev hello : Entry ℕ
hello = record {
  context = [];
  payload = 0;
  is_error = false;
  file = [];
  line = 0;
  message = codes "hello";
  stacktrace = [];
  timestamp = 5;
}

abbrev three : List (Handler ℕ Messages)
three = broken ∷ writer (codes "a:") ∷ writer (codes "b:") ∷ []

three_runs :
    ((failover_handler three).log hello [] ≡ (none, codes "tried" ∷ codes "a:hello" ∷ []))
    × ((multi_handler three).log hello []
        ≡ (none, codes "tried" ∷ codes "a:hello" ∷ codes "b:hello" ∷ []))
    × ((multi_handler three).close [] ≡ (some (codes "a:"), []))
unfolding failover_handler multi_handler
three_runs = (refl, refl, refl)

multi-visit_example :
    (multi_handler three).log hello [] ≡ (none, (visit (λ h. h.log hello) three []).1)
multi-visit_example = multi-visit three hello []
