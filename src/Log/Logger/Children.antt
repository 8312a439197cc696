-- ===== src/Log/Logger/Children.antt =====
-- The store of loggers: what `New`, `SetHandler` and `StopPropagation` leave as it is.
use golly.Base.{
  ℕ, ◌+◌, ◌<◌, ◌≤◌, Bool, false, none, some, Bytes, List, [], ◌∷◌, ◌++◌, ◌≡◌, refl, arith,
}
use golly.Base.Calls.{ok, read_at-some}
use golly.Base.Lists.{
  length, get_elem?, get_elem?-some, get_elem?-append, get_elem?-append_left, length-append,
}
use golly.Log.Logger.{Logger, Pools, System, log, new}
use golly.Log.Logger.Paths.{Up, up_top, up_next, IsRooted, Up-exists}
use golly.Log.Logger.Delivery.{handlers_of, log-Up}

module _ {D W : Type 0} where
  Up-append :
      (ls : List (Logger D W)) (x : Logger D W) {l : ℕ} {above : List (Logger D W)}
      → Up ls l above
      → Up (ls ++ x ∷ []) l above
  Up-append ls x (up_top l logger q t) =
      up_top l logger (get_elem?-append_left ls (x ∷ []) l logger q) t
  Up-append ls x (up_next l p logger above q e t u) =
      up_next l p logger above (get_elem?-append_left ls (x ∷ []) l logger q) e t (Up-append ls x u)

  -- The two loggers of the two stores do the same with every call.
  pub SameLog : List (Logger D W) → ℕ → List (Logger D W) → ℕ → Type 0
  SameLog ls l ls' l' =
      (system : System W) (nil : D) (message : Bytes) (payload : D) (is_error debug : Bool)
      (pools : Pools D) (w : W)
      → log ls l system nil message payload is_error debug pools w
        ≡ log ls' l' system nil message payload is_error debug pools w

  Up-SameLog :
      (ls ls' : List (Logger D W)) (l l' : ℕ) (logger logger' : Logger D W)
      (above above' : List (Logger D W))
      → get_elem? ls l ≡ some logger
      → get_elem? ls' l' ≡ some logger'
      → logger.context ≡ logger'.context
      → handlers_of above ≡ handlers_of above'
      → Up ls l above
      → Up ls' l' above'
      → length above ≤ length ls
      → length above' ≤ length ls'
      → SameLog ls l ls' l'
  unfolding SameLog
  Up-SameLog ls ls' l l' logger logger' above above' q q' c h u u' k k' system nil message payload
        is_error debug pools w =
      rw
        (
          log-Up ls l logger above system nil message payload is_error debug pools w q u k,
          log-Up ls' l' logger' above' system nil message payload is_error debug pools w q' u' k',
          c,
          h,
        )
        refl

  abbrev child : Logger D W → ℕ → Logger D W
  child logger l = record {
    context = logger.context;
    handler = none;
    parent = some l;
    stacktrace = false;
    stop = false;
  }

  -- `New` adds a logger that logs what its parent logs: every call of it has the same effect as
  -- the same call of the parent, whatever context was asked for. The loggers that were there before
  -- log as before.
  pub new-SameLog :
      (ls : List (Logger D W)) (l : ℕ) (ctx : Bytes) (i : ℕ)
      → IsRooted ls
      → l < length ls
      → i < length ls
      → (ls' : List (Logger D W)) × (new ls l ctx ≡ ok (ls', length ls))
        × SameLog ls' (length ls) ls l
        × SameLog ls' i ls i
  unfolding new SameLog
  new-SameLog ls l ctx i r h k =
      let (above, u, c) = Up-exists ls l r h in
      let (logger, q) = get_elem?-some ls l h in
      let x : Logger D W = child logger l in
      let ls' : List (Logger D W) = ls ++ x ∷ [] in
      let n : length ls' ≡ length ls + 1 = length-append ls (x ∷ []) in
      let q' : get_elem? ls' (length ls) ≡ some x = get_elem?-append ls (x ∷ []) (length ls) refl in
      (
        ls',
        rw (read_at-some ls l logger q) refl,
        Up-SameLog ls' ls (length ls) l x logger (x ∷ above) above q' q refl refl
            (up_next (length ls) l x above q' refl refl (Up-append ls x u)) u (omega arith) c,
        let (above', u', c') = Up-exists ls i r k in
            let (logger', e) = get_elem?-some ls i k in
            Up-SameLog ls' ls i i logger' logger' above' above'
              (get_elem?-append_left ls (x ∷ []) i logger' e) e refl refl (Up-append ls x u') u'
              (omega arith) c',
      )
