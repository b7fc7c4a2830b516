-- ===== src/Examples/Waits.antt =====
-- Theorems on the pause controller, after a pause that the goroutine has taken, a resume and a look.
use bdr.Common.{◌≡◌, refl, false}
use bdr.Pause.{returned, pause, take_state, wait_if_paused}
use bdr.Pause.Safety.{
  System, here, next, pauses, looks, start, paused_now, taken_now, waited, waits_as_told,
}

-- Paused, blocked, resumed, and looked at.
abbrev blocked_now : System
blocked_now = waited (wait_if_paused false false (paused_now start).controller) (paused_now start)

-- A pause that a look hides from a goroutine that works.
abbrev looked_at : System
looked_at = taken_now (paused_now start)

passes_pause : (wait_if_paused false false looked_at.controller).0 ≡ returned false
unfolding wait_if_paused take_state pause
passes_pause = (waits_as_told (next (next here (pauses refl)) (looks refl)) false).0 refl
