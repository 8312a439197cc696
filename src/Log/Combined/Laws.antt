-- ===== src/Log/Combined/Laws.antt =====
-- Which handlers are called, and what the two combined handlers return.
use golly.Base.{Option, none, some, inl, inr, Option-cases, List, [], ◌∷◌, ◌++◌, ◌≡◌, refl, ap}
use golly.Log.{Entry, Error, Handler}
use golly.Log.Combined.{call_all, log_first, log_each, failover_handler, multi_handler}

abbrev pub first_some : List (Option Error) → Option Error
first_some [] = none
first_some (none ∷ errors) = first_some errors
first_some (some e ∷ errors) = some e

module _ {D W : Type 0} where
  -- All the handlers called in turn: what each of them returned, and the state behind the last.
  unfoldable pub visit :
      (Handler D W → W → Option Error × W) → List (Handler D W) → W → List (Option Error) × W
  visit method [] w = ([], w)
  visit method (h ∷ hs) w =
      let (error, w') = method h w in
      let (errors, w'') = visit method hs w' in (error ∷ errors, w'')

  call_all-some :
      (method : Handler D W → W → Option Error × W) (hs : List (Handler D W)) (x : Error) (w : W)
      → call_all method hs (some x) w ≡ (some x, (visit method hs w).1)
  unfolding call_all visit
  call_all-some method [] x w = refl
  call_all-some method (h ∷ hs) x w = call_all-some method hs x (method h w).1

  call_all-none :
      (method : Handler D W → W → Option Error × W) (hs : List (Handler D W)) (w : W)
      → call_all method hs none w ≡ (first_some (visit method hs w).0, (visit method hs w).1)
  unfolding call_all visit
  call_all-none method [] w = refl
  call_all-none method (h ∷ hs) w = elim (Option-cases (method h w).0) [
    | inl e ↦ rw (e, first_some) (call_all-none method hs (method h w).1)
    | inr (x, e) ↦ rw (e, first_some) (call_all-some method hs x (method h w).1)
  ]

  -- `Close` and `Flush` of a failover handler and of a multi handler call every handler in turn,
  -- whatever fails, and return the first error that one of them returned, if any did.
  pub close-visit :
      (hs : List (Handler D W)) (w : W)
      → ((failover_handler hs).close w
          ≡ (first_some (visit (λ h. h.close) hs w).0, (visit (λ h. h.close) hs w).1))
        × ((failover_handler hs).flush w
            ≡ (first_some (visit (λ h. h.flush) hs w).0, (visit (λ h. h.flush) hs w).1))
        × ((multi_handler hs).close w ≡ (failover_handler hs).close w)
        × ((multi_handler hs).flush w ≡ (failover_handler hs).flush w)
  unfolding failover_handler multi_handler
  close-visit hs w =
      (call_all-none (λ h. h.close) hs w, call_all-none (λ h. h.flush) hs w, refl, refl)

  -- The handlers of a list fail one after the other, and the state goes from one to the next.
  pub data Fail (e : Entry D) : List (Handler D W) → W → W → Type 0 where
    nobody : (w : W) → Fail e [] w w
    fails :
        (h : Handler D W) (hs : List (Handler D W)) (w w' w'' : W) (x : Error)
        → h.log e w ≡ (some x, w')
        → Fail e hs w' w''
        → Fail e (h ∷ hs) w w''

  log_first-first :
      (e : Entry D) (h : Handler D W) (post : List (Handler D W)) (w'' : W)
      {pre : List (Handler D W)} {w w' : W}
      → Fail e pre w w'
      → h.log e w' ≡ (none, w'')
      → (error : Option Error) → log_first (pre ++ h ∷ post) e error w ≡ (none, w'')
  unfolding log_first
  log_first-first e h post w'' (nobody w) k error =
      rw k (ap (λ (r : Option Error × W). (none, r.1)) k)
  log_first-first e h post w'' (fails g hs w w1 w2 x q f) k error =
      rw (q, ap (λ (r : Option Error × W). r.1) q) (log_first-first e h post w'' f k (some x))

  -- `Log` of a failover handler stops at the first handler that takes the entry: those behind it are
  -- not called, and no error is returned.
  pub failover-first :
      (e : Entry D) (pre : List (Handler D W)) (h : Handler D W) (post : List (Handler D W))
      (w w' w'' : W)
      → Fail e pre w w'
      → h.log e w' ≡ (none, w'')
      → (failover_handler (pre ++ h ∷ post)).log e w ≡ (none, w'')
  unfolding failover_handler
  failover-first e pre h post w w' w'' f k = log_first-first e h post w'' f k none

  log_each-visit :
      (hs : List (Handler D W)) (e : Entry D) (w : W)
      → log_each hs e none w ≡ (none, (visit (λ h. h.log e) hs w).1)
  unfolding log_each visit
  log_each-visit [] e w = refl
  log_each-visit (h ∷ hs) e w = log_each-visit hs e (h.log e w).1

  -- `Log` of a multi handler hands the entry to every handler in turn, and returns no error whatever
  -- they return.
  pub multi-visit :
      (hs : List (Handler D W)) (e : Entry D) (w : W)
      → (multi_handler hs).log e w ≡ (none, (visit (λ h. h.log e) hs w).1)
  unfolding multi_handler
  multi-visit hs e w = log_each-visit hs e w
