-- ===== src/Panel/Status/Invariant.antt =====
-- The phases of the live state in panel/templates/assets/js/store.js.
use frp_manager.Base.{
  ℕ, zero, suc, ◌≤◌, ◌==◌, true, false, none, some, List, [], ◌∷◌, leb, ◌≡◌, ◌⊎◌, inl, inr, refl,
  arith, Bool-cases,
}
use frp_manager.Panel.Status.{
  Socket, Store, connect_status, on_open, on_close, retry_delay, retry_later, max_failed_openings,
  Reached, called, opens, closes, fires,
}

-- connecting, open, waiting for the next try, or no more tries
data Phase : Store → Type 0 where
  connecting :
      {s : Store} (ws : Socket)
      → s.socket ≡ some ws
      → ws.opened ≡ false
      → s.timers ≡ []
      → s.failed ≤ 2
      → s.retries ≤ suc s.failed
      → (s.polling ≡ true) ⊎ (s.made ≡ 1)
      → Phase s
  live :
      {s : Store} (ws : Socket)
      → s.socket ≡ some ws
      → ws.opened ≡ true
      → s.timers ≡ []
      → s.failed ≡ 0
      → s.retries ≡ 0
      → Phase s
  waiting :
      {s : Store} (d : ℕ)
      → s.socket ≡ none
      → s.timers ≡ d ∷ []
      → 1000 ≤ d
      → d ≤ 4000
      → s.failed ≤ 2
      → s.retries ≤ suc s.failed
      → s.polling ≡ true
      → Phase s
  given_up :
      {s : Store} → s.socket ≡ none → s.timers ≡ [] → s.failed ≡ 3 → s.polling ≡ true → Phase s

retry_delay_bounds : (r : ℕ) → r ≤ 2 → (1000 ≤ retry_delay (suc r)) × (retry_delay (suc r) ≤ 4000)
unfolding retry_delay
retry_delay_bounds zero h = (omega arith, omega arith)
retry_delay_bounds (suc zero) h = (omega arith, omega arith)
retry_delay_bounds (suc (suc zero)) h = (omega arith, omega arith)
retry_delay_bounds (suc (suc (suc r))) h = absurd (omega arith)

retry_later-Phase :
    (s : Store)
    → s.socket ≡ none
    → s.timers ≡ []
    → s.failed ≤ 2
    → s.retries ≤ s.failed
    → s.polling ≡ true
    → Phase (retry_later s)
unfolding retry_later
retry_later-Phase s socket timers failed retries polling =
    let (low, high) = retry_delay_bounds s.retries (omega arith) in
    waiting (retry_delay (suc s.retries)) socket (rw timers refl) low high failed (omega arith)
      polling

module _ {s : Store} where
  -- a socket stands alone, with no timer
  no_timers : (ws : Socket) → s.socket ≡ some ws → Phase s → s.timers ≡ []
  no_timers ws e (connecting w k o t f r p) = t
  no_timers ws e (live w k o t f r) = t
  no_timers ws e (waiting d k t l h f r p) = absurd (cc (e, k))
  no_timers ws e (given_up k t f p) = absurd (cc (e, k))

  on_close-Phase : (ws : Socket) → s.socket ≡ some ws → Phase s → Phase (on_close ws.number s)
  unfolding on_close
  on_close-Phase ws e (waiting d k t l h f r p) = absurd (cc (e, k))
  on_close-Phase ws e (given_up k t f p) = absurd (cc (e, k))
  on_close-Phase ws e (live w k o t f r) =
      let self : (ws.number == ws.number) ≡ true = ground arith in
      let opened : ws.opened ≡ true = cc (e, k, o) in
      rw (e, on_close)
        (rw (self, opened)
          (retry_later-Phase (record s { socket = none; polling = true }) refl t (omega (arith, f))
            (omega (arith, f, r)) refl))
  on_close-Phase ws e (connecting w k o t f r p) =
      let self : (ws.number == ws.number) ≡ true = ground arith in
      let opened : ws.opened ≡ false = cc (e, k, o) in
      elim (Bool-cases (leb max_failed_openings (suc s.failed))) [
        | inl last ↦
            rw (e, on_close)
              (rw (self, opened, last) (given_up refl t (ground (arith, last, f)) refl))
        | inr more ↦
            rw (e, on_close)
              (rw (self, opened, more)
                (retry_later-Phase
                  (record s { socket = none; polling = true; failed = suc s.failed }) refl t
                  (ground (arith, more)) r refl))
      ]

  on_open-Phase : (ws : Socket) → s.socket ≡ some ws → Phase s → Phase (on_open ws s)
  unfolding on_open
  on_open-Phase ws e phase =
      live (record ws { opened = true }) refl refl (no_timers ws e phase) refl refl

  fire-Phase :
      (delay : ℕ) (timers : List ℕ)
      → s.timers ≡ delay ∷ timers
      → Phase s
      → Phase (connect_status (record s { timers = timers }))
  unfolding connect_status
  fire-Phase delay timers e (connecting w k o t f r p) = absurd (cc (e, t))
  fire-Phase delay timers e (live w k o t f r) = absurd (cc (e, t))
  fire-Phase delay timers e (given_up k t f p) = absurd (cc (e, t))
  fire-Phase delay timers e (waiting d k t l h f r p) =
      let last : timers ≡ [] = cc (e, t) in
      connecting (record { number = s.made; opened = false }) refl refl last f r (inl p)

-- the four phases cover all that can happen
Reached-Phase : {s : Store} → Reached s → Phase s
unfolding connect_status
Reached-Phase called =
    connecting (record { number = 0; opened = false }) refl refl refl (omega arith) (omega arith)
      (inr refl)
Reached-Phase (opens {s} ws run e h) = on_open-Phase {s = s} ws e (Reached-Phase {s = s} run)
Reached-Phase (closes {s} ws run e) = on_close-Phase {s = s} ws e (Reached-Phase {s = s} run)
Reached-Phase (fires {s} delay timers run e) =
    fire-Phase {s = s} delay timers e (Reached-Phase {s = s} run)

-- Whatever sequence of openings, closings and timers has happened, at most one call of
-- connectStatus is to come, none while there is a socket, and its delay is from 1 to 4 seconds: the
-- limit of 30 seconds is never met.
pub Reached_delays :
    {s : Store}
    → Reached s
    → ((s.timers ≡ [])
        ⊎ ((d : ℕ) × (s.timers ≡ d ∷ []) × (s.socket ≡ none) × (1000 ≤ d) × (d ≤ 4000)))
Reached_delays {s} run = elim (Reached-Phase run) [
  | connecting w k o t f r p ↦ inl t
  | live w k o t f r ↦ inl t
  | waiting d k t l h f r p ↦ inr (d, t, k, l, h)
  | given_up k t f p ↦ inl t
]

-- The state of the instances is always kept up to date: the socket is open, or the periodic check
-- runs, or there is a socket that is not open yet, and it is the only one that has been made.
pub Reached_updated :
    {s : Store}
    → Reached s
    → ((ws : Socket) × (s.socket ≡ some ws) × (ws.opened ≡ true))
      ⊎ ((s.polling ≡ true)
          ⊎ ((ws : Socket) × (s.socket ≡ some ws) × (ws.opened ≡ false) × (s.made ≡ 1)))
Reached_updated {s} run = elim (Reached-Phase run) [
  | connecting w k o t f r p ↦ elim p [
    | inl polls ↦ inr (inl polls)
    | inr first ↦ inr (inr (w, k, o, first))
  ]
  | live w k o t f r ↦ inl (w, k, o)
  | waiting d k t l h f r p ↦ inr (inl p)
  | given_up k t f p ↦ inr (inl p)
]

-- With no socket there is a timer for the next one, or three openings in a row have failed and there
-- is none.
pub Reached_retries :
    {s : Store}
    → Reached s
    → s.socket ≡ none
    → ((d : ℕ) × (s.timers ≡ d ∷ [])) ⊎ ((s.failed ≡ max_failed_openings) × (s.timers ≡ []))
Reached_retries {s} run e = elim (Reached-Phase run) [
  | connecting w k o t f r p ↦ absurd (cc (e, k))
  | live w k o t f r ↦ absurd (cc (e, k))
  | waiting d k t l h f r p ↦ inl (d, t)
  | given_up k t f p ↦ inr (f, t)
]
