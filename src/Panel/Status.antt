-- ===== src/Panel/Status.antt =====
-- The live state of the instances in panel/templates/assets/js/store.js: the WebSocket that
-- connectStatus opens, its back-off, and the periodic check that stands in for it.
pub mod Invariant
use frp_manager.Base.{
  ℕ, zero, suc, ◌+◌, ◌-◌, ◌*◌, ◌^◌, ◌≡◌, ◌==◌, Bool, true, false, not, ◌&&◌, Option, none, some,
  List, [], ◌∷◌, if◌then◌else◌, leb, min,
}

-- `MAX_FAILED_OPENINGS`
abbrev pub max_failed_openings : ℕ
max_failed_openings = 3

-- The socket that connectStatus has opened last, with its variable `opened`.
pub record Socket : Type 0 where
  pub number : ℕ
  pub opened : Bool

-- The variables of the module; `polling` tells whether `pollTimer` is set. `timers` holds the delays
-- of the calls of connectStatus that are to come, and `made` counts the sockets.
pub record Store : Type 0 where
  pub socket : Option Socket
  pub retries : ℕ
  pub failed : ℕ
  pub polling : Bool
  pub timers : List ℕ
  pub made : ℕ

abbrev pub at_start : Store
at_start = record { socket = none; retries = 0; failed = 0; polling = false; timers = []; made = 0 }

-- `connectStatus` where the browser has WebSocket
unfoldable pub connect_status : Store → Store
connect_status s = record s {
  socket = some (record { number = s.made; opened = false });
  made = suc s.made;
}

-- `connectStatus` where it has none
unfoldable pub connect_without : Store → Store
connect_without s = record s { polling = true }

-- `onopen` of the current socket
unfoldable pub on_open : Socket → Store → Store
on_open ws s = record s {
  socket = some (record ws { opened = true });
  retries = 0;
  failed = 0;
  polling = false;
}

-- the delay in milliseconds, for a number of retries that is not 0
unfoldable pub retry_delay : ℕ → ℕ
retry_delay retries = min 30000 (1000 * 2 ^ (retries - 1))

-- `statusRetries += 1`, and the timer
unfoldable pub retry_later : Store → Store
retry_later s = record s {
  retries = suc s.retries;
  timers = retry_delay (suc s.retries) ∷ s.timers;
}

-- `onclose` of the socket with that number
unfoldable pub on_close : ℕ → Store → Store
on_close number s = elim s.socket [
  | none ↦ s
  | some ws ↦
      let polled = record s { socket = none; polling = true } in
      let failed = record polled { failed = suc s.failed } in
      if not (ws.number == number)
      then s
      else if ws.opened
      then retry_later polled
      else if leb max_failed_openings (suc s.failed)
      then failed
      else retry_later failed
]

-- What can happen, from the first call of connectStatus on: the current socket opens if it has not
-- yet, it closes, or the next timer ends.
pub data Reached : Store → Type 0 where
  called : Reached (connect_status at_start)
  opens :
      {s : Store} (ws : Socket)
      → Reached s
      → s.socket ≡ some ws
      → ws.opened ≡ false
      → Reached (on_open ws s)
  closes :
      {s : Store} (ws : Socket) → Reached s → s.socket ≡ some ws → Reached (on_close ws.number s)
  fires :
      {s : Store} (delay : ℕ) (timers : List ℕ)
      → Reached s
      → s.timers ≡ delay ∷ timers
      → Reached (connect_status (record s { timers = timers }))
