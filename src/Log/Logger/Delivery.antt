-- ===== src/Log/Logger/Delivery.antt =====
-- What one call of a logger does: which handlers get which entry, and what goes back to the pools.
use golly.Base.{
  ℕ, suc, ◌≤◌, Bool, true, false, not, ◌&&◌, none, some, inl, inr, Option-cases, Bool-cases, Bytes,
  List, [], ◌∷◌, ◌≡◌, refl, ◌∙◌, ap, arith, if◌then◌else◌,
}
use golly.Base.Calls.{ok, read_at-some}
use golly.Base.Lists.{length, get_elem?, get_elem?-lt, drop}
use golly.Log.{Entry, Handler}
use golly.Log.Combined.{any_async}
use golly.Log.Combined.Laws.{visit}
use golly.Log.Logger.{
  Logger, Pools, System, Walk, note_place, hand_over, take_slice, release, log_entry, log,
  clean_entry,
}
use golly.Log.Logger.Paths.{Up, up_top, up_next, pass, climb-Up, IsRooted, Up-exists}

either-first :
    (a b c : Bool)
    → (if b then true else if a then true else c) ≡ (if (if a then true else b) then true else c)
either-first true true c = refl
either-first true false c = refl
either-first false true c = refl
either-first false false c = refl

module _ {D W : Type 0} where
  abbrev pub handlers_of : List (Logger D W) → List (Handler D W)
  handlers_of [] = []
  handlers_of (logger ∷ above) = elim logger.handler [
    | none ↦ handlers_of above
    | some h ↦ h ∷ handlers_of above
  ]

  -- The walk behind the handlers.
  abbrev delivered : List (Handler D W) → Walk D W → Walk D W
  delivered hs s = record s {
    async = if any_async hs then true else s.async;
    outside = (visit (λ h. h.log s.entry) hs s.outside).1;
  }

  pass-settled :
      (system : System W) (debug : Bool) (depth : ℕ) (above : List (Logger D W)) (s : Walk D W)
      → (debug && not s.debug_set) ≡ false
      → pass system debug depth above s ≡ delivered (handlers_of above) s
  unfolding pass note_place hand_over visit any_async
  pass-settled system debug depth [] s q = refl
  pass-settled system debug depth (logger ∷ above) s q = elim (Option-cases logger.handler) [
    | inl e ↦ rw (q, e) (pass-settled system debug depth above s q)
    | inr (h, e) ↦
        rw (q, e)
          (pass-settled system debug depth above
              (record s {
                async = if h.async then true else s.async;
                outside = (h.log s.entry s.outside).1;
              })
              q
            ∙ ap
                (λ b. record s {
                  async = b;
                  outside =
                      (visit (λ h. h.log s.entry) (handlers_of above)
                        (h.log s.entry s.outside).1).1;
                })
                (either-first h.async (any_async (handlers_of above)) s.async))
  ]

  noted-settled :
      (system : System W) (debug : Bool) (depth : ℕ) (s : Walk D W)
      → (debug && not (note_place system debug depth s).debug_set) ≡ false
  unfolding note_place
  noted-settled system debug depth s = grind arith

  note_twice :
      (system : System W) (debug : Bool) (depth : ℕ) (s : Walk D W)
      → note_place system debug depth s
        ≡ note_place system debug depth (note_place system debug depth s)
  unfolding note_place
  note_twice system debug depth s =
      let q : (debug && not (note_place system debug depth s).debug_set) ≡ false =
        noted-settled system debug depth s in
      rw q refl

  noted-pass :
      (system : System W) (debug : Bool) (depth : ℕ) (ls : List (Logger D W)) (s : Walk D W) {l : ℕ}
      {above : List (Logger D W)}
      → Up ls l above
      → pass system debug depth above s
        ≡ delivered (handlers_of above) (note_place system debug depth s)
  unfolding pass
  noted-pass system debug depth ls s (up_top l logger q t) =
      ap (λ r. hand_over logger r) (note_twice system debug depth s)
      ∙ pass-settled system debug depth (logger ∷ []) (note_place system debug depth s)
          (noted-settled system debug depth s)
  noted-pass system debug depth ls s (up_next l p logger above q e t u) =
      ap (λ r. pass system debug depth above (hand_over logger r)) (note_twice system debug depth s)
      ∙ pass-settled system debug depth (logger ∷ above) (note_place system debug depth s)
          (noted-settled system debug depth s)

  -- The entry of a call of `log`: nothing of a pooled entry is left in it.
  abbrev pub sent : System W → Bool → ℕ → Bytes → Bytes → D → Bool → W → Entry D
  sent system debug depth context message payload is_error w = record {
    context = context;
    payload = payload;
    is_error = is_error;
    file = if debug then (system.caller depth w).0 else [];
    line = if debug then (system.caller depth w).1 else 0;
    message = message;
    stacktrace = if debug then system.stack w else [];
    timestamp = system.now w;
  }

  -- The pools behind a call that hands `e` to the handlers `hs`.
  abbrev pub returned : List (Handler D W) → Bool → Entry D → Pools D → Pools D
  returned hs debug e pools =
      let held : ℕ = if debug then take_slice pools.slices else pools.slices in
      if any_async hs
      then record { entries = drop 1 pools.entries; slices = held }
      else record { entries = e ∷ drop 1 pools.entries; slices = if debug then suc held else held }

  abbrev start : System W → Bytes → Bytes → D → Bool → Entry D → ℕ → W → Walk D W
  start system context message payload is_error e slices w = record {
    entry = record e {
      context = context;
      payload = payload;
      is_error = is_error;
      message = message;
      timestamp = system.now w;
    };
    debug_set = false;
    async = false;
    slices = slices;
    outside = w;
  }

  release-delivered :
      (system : System W) (context message : Bytes) (nil payload : D) (is_error debug : Bool)
      (es : List (Entry D)) (n : ℕ) (w : W) (hs : List (Handler D W))
      → release (clean_entry nil es).1 (
          delivered hs (
            note_place system debug 3
              (start system context message payload is_error (clean_entry nil es).0 n w)))
        ≡ (let e = sent system debug 3 context message payload is_error w in
            (
              returned hs debug e (record { entries = es; slices = n }),
              (visit (λ h. h.log e) hs w).1,
            ))
  unfolding release note_place
  release-delivered system context message nil payload is_error true [] n w hs =
      elim (Bool-cases (any_async hs)) [ inl y ↦ rw y refl | inr y ↦ rw y refl ]
  release-delivered system context message nil payload is_error true (x ∷ xs) n w hs =
      elim (Bool-cases (any_async hs)) [ inl y ↦ rw y refl | inr y ↦ rw y refl ]
  release-delivered system context message nil payload is_error false [] n w hs =
      elim (Bool-cases (any_async hs)) [ inl y ↦ rw y refl | inr y ↦ rw y refl ]
  release-delivered system context message nil payload is_error false (x ∷ xs) n w hs =
      elim (Bool-cases (any_async hs)) [ inl y ↦ rw y refl | inr y ↦ rw y refl ]

  pub log-Up :
      (ls : List (Logger D W)) (l : ℕ) (logger : Logger D W) (above : List (Logger D W))
      (system : System W) (nil : D) (message : Bytes) (payload : D) (is_error debug : Bool)
      (pools : Pools D) (w : W)
      → get_elem? ls l ≡ some logger
      → Up ls l above
      → length above ≤ length ls
      → (let e = sent system debug 3 logger.context message payload is_error w in
          log ls l system nil message payload is_error debug pools w
          ≡ ok (
            returned (handlers_of above) debug e pools,
            (visit (λ h. h.log e) (handlers_of above) w).1,
          ))
  unfolding log log_entry release
  log-Up ls l logger above system nil message payload is_error debug pools w q u h =
      let s : Walk D W =
        start system logger.context message payload is_error (clean_entry nil pools.entries).0
          pools.slices w in
      rw
        (
          read_at-some ls l logger q,
          climb-Up ls system debug 3 (length ls) s u h,
          noted-pass system debug 3 ls s u,
        )
        (ap ok (
          release-delivered system logger.context message nil payload is_error debug pools.entries
            pools.slices w (handlers_of above)))

  -- In a store where every logger is behind its parent, a call of a logger ends. It hands one entry
  -- to the handlers on the way up, as far as the first logger that has no parent or stops, each in
  -- turn. The entry has the context of the logger, what the call was given, and the place of the call where
  -- debug is on, and nothing that a pooled entry had before. It is put back in the
  -- pool if and only if none of the handlers is asynchronous.
  pub log-visit :
      (ls : List (Logger D W)) (l : ℕ) (logger : Logger D W) (system : System W) (nil : D)
      (message : Bytes) (payload : D) (is_error debug : Bool) (pools : Pools D) (w : W)
      → IsRooted ls
      → get_elem? ls l ≡ some logger
      → (above : List (Logger D W)) × Up ls l above
        × (let e = sent system debug 3 logger.context message payload is_error w in
            log ls l system nil message payload is_error debug pools w
            ≡ ok (
              returned (handlers_of above) debug e pools,
              (visit (λ h. h.log e) (handlers_of above) w).1,
            ))
  log-visit ls l logger system nil message payload is_error debug pools w r q =
      let (above, u, h) = Up-exists ls l r (get_elem?-lt ls l logger q) in
      (above, u, log-Up ls l logger above system nil message payload is_error debug pools w q u h)
