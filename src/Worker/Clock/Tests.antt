-- ===== src/Worker/Clock/Tests.antt =====
-- Runs of the pause and the resumption of internal/worker/resolve.go.
use ticketowl.Worker.Clock.{run_updates, clock_step, resume}
use ticketowl.Worker.Clock.Laws.{Shifted, Accepted, run_updates-Shifted}
use ticketowl.Sla.Types.{State, Time, on_track}
use ticketowl.Base.{List, true, some, Bool, ◌≡◌, none, refl, ◌∷◌, false, []}
use ticketowl.Base.Int.{◌+ℤ◌, ◌-ℤ◌, pos, scale, quot, wrap64, saturate64}
use ticketowl.Db.{fits_int4}

abbrev state : State
state = record {
  id = 1;
  ticket_meta_id = 7;
  response_due_at = some (pos 100_000_000_000);
  resolution_due_at = none;
  response_met_at = none;
  first_breach_alerted_at = none;
  label = on_track;
  paused = false;
  paused_at = none;
  accumulated_pause_secs = pos 3;
  updated_at = pos 0;
}

-- a pause of 15.5 seconds
abbrev history : List (Bool × Time)
history = (true, pos 10_000_000_000) ∷ (false, pos 25_500_000_000) ∷ []

test-run_updates :
    ((run_updates history state).accumulated_pause_secs ≡ pos 18)
    × ((run_updates history state).response_due_at ≡ some (pos 115_000_000_000))
    × ((run_updates history state).paused ≡ false)
unfolding clock_step resume ◌+ℤ◌ ◌-ℤ◌ scale quot wrap64 saturate64
test-run_updates = (refl, refl, refl)

history-Accepted : Accepted history state
unfolding Accepted clock_step resume ◌+ℤ◌ ◌-ℤ◌ scale quot wrap64 saturate64 fits_int4
history-Accepted = (refl, (refl, tt))

state_fits : fits_int4 state.accumulated_pause_secs ≡ true
unfolding fits_int4
state_fits = refl

run_updates-Shifted_example : Shifted state (run_updates history state)
run_updates-Shifted_example = run_updates-Shifted history state state_fits history-Accepted
