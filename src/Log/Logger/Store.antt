-- ===== src/Log/Logger/Store.antt =====
-- Runs of `New`, `SetHandler` and `StopPropagation`, which start from the store that holds `root`.
use golly.Base.{
  ℕ, ◌+◌, ◌<◌, Bool, true, false, Option, none, some, Bytes, List, [], ◌∷◌, ◌++◌, ◌≡◌, refl, ◌∙◌,
  ap, arith,
}
use mathlib.Core.Path.{subst, sym}
use golly.Base.Calls.{ok, ◌>>=◌, read_at-some, write_at-set, Run}
use golly.Base.Lists.{length, get_elem?-some, length-append, length-set, set}
use golly.Log.{Handler}
use golly.Log.Logger.{Logger, Pools, System, log, new, set_handler, stop_propagation}
use golly.Log.Logger.Delivery.{log-visit}
use golly.Log.Logger.Paths.{IsRooted, RootedFrom, append-RootedFrom, set-RootedFrom}

-- A change of the store.
pub data Change (D W : Type 0) : Type 0 where
  makes : ℕ → Bytes → Change D W
  handles : ℕ → Option (Handler D W) → Change D W
  stops : ℕ → Change D W

module _ {D W : Type 0} where
  unfoldable pub change : Change D W → List (Logger D W) → Run (List (Logger D W))
  unfolding new set_handler stop_propagation
  change (makes l ctx) ls = new ls l ctx >>= λ r. ok r.0
  change (handles l h) ls = set_handler ls l h
  change (stops l) ls = stop_propagation ls l

  abbrev pub logger_of : Change D W → ℕ
  logger_of (makes l ctx) = l
  logger_of (handles l h) = l
  logger_of (stops l) = l

  abbrev pub grown : Change D W → ℕ → ℕ
  grown (makes l ctx) n = n + 1
  grown (handles l h) n = n
  grown (stops l) n = n

  -- The changes of a run name loggers that are there by then.
  abbrev pub Named : ℕ → List (Change D W) → Type 0
  Named n [] = Unit
  Named n (c ∷ cs) = logger_of c < n × Named (grown c n) cs

  abbrev pub size_after : ℕ → List (Change D W) → ℕ
  size_after n [] = n
  size_after n (c ∷ cs) = size_after (grown c n) cs

  unfoldable pub changes : List (Change D W) → List (Logger D W) → Run (List (Logger D W))
  changes [] ls = ok ls
  changes (c ∷ cs) ls = change c ls >>= λ ls'. changes cs ls'

  pub Fine : List (Logger D W) → Change D W → Type 0
  Fine ls c =
      (ls' : List (Logger D W)) × (change c ls ≡ ok ls')
      × IsRooted ls'
      × length ls' ≡ grown c (length ls)

  change-Fine :
      (ls : List (Logger D W)) (c : Change D W) → IsRooted ls → logger_of c < length ls → Fine ls c
  unfolding change Fine new set_handler stop_propagation IsRooted
  change-Fine ls (makes l ctx) r h =
      let (logger, q) = get_elem?-some ls l h in
      let x : Logger D W = record {
        context = logger.context;
        handler = none;
        parent = some l;
        stacktrace = false;
        stop = false;
      } in
      (
        ls ++ x ∷ [],
        rw (read_at-some ls l logger q) refl,
        append-RootedFrom 0 ls x r (omega arith),
        length-append ls (x ∷ []),
      )
  change-Fine ls (handles l hd) r h =
      let (logger, q) = get_elem?-some ls l h in
      let x : Logger D W = record logger { handler = hd } in
      (
        set ls l x,
        rw (read_at-some ls l logger q) (write_at-set ls l x h),
        set-RootedFrom 0 ls l logger x r q refl,
        length-set ls l x,
      )
  change-Fine ls (stops l) r h =
      let (logger, q) = get_elem?-some ls l h in
      let x : Logger D W = record logger { stop = true } in
      (
        set ls l x,
        rw (read_at-some ls l logger q) (write_at-set ls l x h),
        set-RootedFrom 0 ls l logger x r q refl,
        length-set ls l x,
      )

  pub Rooted : List (Change D W) → List (Logger D W) → Type 0
  Rooted cs ls =
      (ls' : List (Logger D W)) × (changes cs ls ≡ ok ls')
      × IsRooted ls'
      × length ls' ≡ size_after (length ls) cs

  changes-Rooted :
      (cs : List (Change D W)) (ls : List (Logger D W))
      → IsRooted ls
      → Named (length ls) cs
      → Rooted cs ls
  unfolding changes Fine Rooted
  changes-Rooted [] ls r n = (ls, refl, r, refl)
  changes-Rooted (c ∷ cs) ls r (h, n) =
      let (ls', e, r', g) = change-Fine ls c r h in
      let (ls'', e', r'', g') = changes-Rooted cs ls' r' (subst (λ m. Named m cs) (sym g) n) in
      (ls'', rw e e', r'', g' ∙ ap (λ m. size_after m cs) g)

  abbrev pub root : Logger D W
  root = record { context = []; handler = none; parent = none; stacktrace = false; stop = false }

  -- A run of `New`, `SetHandler` and `StopPropagation` that starts from `root` and names loggers that
  -- are there ends without a panic, and behind it every call of every logger ends without a panic: no
  -- logger is its own ancestor.
  pub changes-log :
      (cs : List (Change D W)) (l : ℕ) (system : System W) (nil : D) (message : Bytes) (payload : D)
      (is_error debug : Bool) (pools : Pools D) (w : W)
      → Named 1 cs
      → l < size_after 1 cs
      → (ls : List (Logger D W)) × (changes cs (root ∷ []) ≡ ok ls)
        × (r : Pools D × W) × (log ls l system nil message payload is_error debug pools w ≡ ok r)
  unfolding Rooted IsRooted RootedFrom
  changes-log cs l system nil message payload is_error debug pools w n h =
      let (ls, e, r, g) = changes-Rooted cs (root ∷ []) (tt, tt) n in
      let (logger, q) = get_elem?-some ls l (subst (λ m. l < m) (sym g) h) in
      let (above, u, k) =
        log-visit ls l logger system nil message payload is_error debug pools w r q in
      (ls, e, _, k)
