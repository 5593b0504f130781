-- ===== src/PanelTests.antt =====
-- Runs of panel/templates/assets/js/store.js, as applications of the theorems.
use frp_manager.Base.{ℕ, ◌≤◌, true, false, none, some, [], ◌∷◌, ◌≡◌, ◌⊎◌, refl}
use frp_manager.Panel.Status.{
  Socket, Store, at_start, connect_status, on_close, retry_later, max_failed_openings, Reached,
  called, closes,
}
use frp_manager.Panel.Status.Invariant.{Reached_delays, Reached_updated, Reached_retries}

-- the first socket has closed without opening
abbrev closed_once : Store
closed_once = on_close 0 (connect_status at_start)

closed_once-Reached : Reached closed_once
unfolding connect_status
closed_once-Reached = closes (record { number = 0; opened = false }) called refl

no_socket : closed_once.socket ≡ none
unfolding connect_status on_close retry_later
no_socket = refl

Reached_delays_example :
    (closed_once.timers ≡ [])
    ⊎ ((d : ℕ) × (closed_once.timers ≡ d ∷ [])
        × (closed_once.socket ≡ none)
        × (1000 ≤ d)
        × (d ≤ 4000))
Reached_delays_example = Reached_delays closed_once-Reached

Reached_updated_example :
    ((ws : Socket) × (closed_once.socket ≡ some ws) × (ws.opened ≡ true))
    ⊎ ((closed_once.polling ≡ true)
        ⊎ ((ws : Socket) × (closed_once.socket ≡ some ws)
            × (ws.opened ≡ false)
            × (closed_once.made ≡ 1)))
Reached_updated_example = Reached_updated closed_once-Reached

Reached_retries_example :
    ((d : ℕ) × (closed_once.timers ≡ d ∷ []))
    ⊎ ((closed_once.failed ≡ max_failed_openings) × (closed_once.timers ≡ []))
Reached_retries_example = Reached_retries closed_once-Reached no_socket
