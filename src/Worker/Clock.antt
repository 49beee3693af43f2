-- ===== src/Worker/Clock.antt =====
-- internal/worker/resolve.go: how `handleTicketUpdate` pauses and resumes the clock of a ticket.
pub mod Laws
mod Tests
use ticketowl.Sla.Compute.{second}
use ticketowl.Base.Int.{ℤ, ◌+ℤ◌, ◌-ℤ◌, quot, scale, saturate64, wrap64}
use ticketowl.Base.{
  String, Option, Bool, str_eq, some, ◌||◌, none, true, false, if◌then◌else◌, ◌&&◌, not, get_or,
  List, ◌∷◌, [],
}
use ticketowl.Sla.Types.{Time, State}

unfoldable pub is_pause_state : String → Bool
is_pause_state state = str_eq state "pending reminder" || str_eq state "pending close"

-- `int(now.Sub(*state.PausedAt).Seconds())`
unfoldable pub paused_seconds : Time → Time → ℤ
paused_seconds paused_at now = quot (saturate64 (now -ℤ paused_at)) second

-- `time.Duration(pausedSecs) * time.Second`
unfoldable pub pause_duration : ℤ → ℤ
pause_duration secs = wrap64 (scale second secs)

abbrev pub shift_due : ℤ → Option Time → Option Time
shift_due d none = none
shift_due d (some t) = some (t +ℤ d)

abbrev pub pause : Time → State → State
pause now s = record s { paused = true; paused_at = some now; updated_at = now }

-- the pause that ends at `now` moves the due dates and is added to the pauses before
abbrev extend : Option Time → Time → State → State
unfolding paused_seconds pause_duration
extend none now s = s
extend (some t) now s = record s {
  accumulated_pause_secs = wrap64 (s.accumulated_pause_secs +ℤ paused_seconds t now);
  response_due_at = shift_due (pause_duration (paused_seconds t now)) s.response_due_at;
  resolution_due_at = shift_due (pause_duration (paused_seconds t now)) s.resolution_due_at;
}

unfoldable pub resume : Time → State → State
unfolding paused_seconds pause_duration
resume now s =
    let s' = extend s.paused_at now s in
    record s' { paused = false; paused_at = none; updated_at = now }

-- The state that an update of the ticket to a Zammad state writes, or none if it writes nothing.
unfoldable pub clock_step : Bool → Time → State → Option State
unfolding resume
clock_step is_pause now s =
    if is_pause && not s.paused
    then some (pause now s)
    else if not is_pause && s.paused
    then some (resume now s)
    else none

-- the state after an update
abbrev pub step_state : Bool → Time → State → State
step_state is_pause now s = get_or (clock_step is_pause now s) s

-- A history of updates: whether the Zammad state is a pausing one, and when.
abbrev pub run_updates : List (Bool × Time) → State → State
run_updates [] s = s
run_updates (e ∷ es) s = run_updates es (step_state e.0 e.1 s)
