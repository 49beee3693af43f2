-- ===== src/Sla/Compute.antt =====
-- internal/sla/service.go: `ComputeState`, `remainingSeconds` and `CheckBreach`. The float64 seconds
-- of the source are exact multiples of a nanosecond here.
pub mod Order
pub mod Pause
mod Tests
use ticketowl.Base.{ℕ, ◌*◌, Bool, true, false, not, ◌&&◌, ◌||◌, none, some, is_some, if◌then◌else◌}
use ticketowl.Base.Int.{ℤ, pos, ◌+ℤ◌, ◌-ℤ◌, ◌*ℤ◌, scale, quot, leb_ℤ, ltb_ℤ, wrap64, saturate64}
use ticketowl.Sla.Types.{
  Time, StateLabel, on_track, warning, breached, met, State, ComputeInput, ComputeResult,
}

abbrev pub second : ℕ
second = 1_000_000_000

abbrev pub minute : ℕ
minute = 60 * second

-- `time.Duration(minutes) * time.Minute`
unfoldable pub minutes_duration : ℤ → ℤ
minutes_duration m = wrap64 (scale minute m)

abbrev pub at_least_zero : ℤ → ℤ
at_least_zero a = if ltb_ℤ a (pos 0) then pos 0 else a

-- `max(0, int(x))` of an amount of seconds
unfoldable pub whole_seconds : ℤ → ℤ
whole_seconds a = at_least_zero (quot a second)

unfoldable pub remaining_seconds : Time → Time → ℤ → Time → ℤ
remaining_seconds due created pause_secs now =
    let total = saturate64 (due -ℤ created) in
    let effective_elapsed =
      at_least_zero (saturate64 (now -ℤ created) -ℤ scale second pause_secs) in
    let remaining = total -ℤ effective_elapsed in
    if ltb_ℤ remaining (pos 0) then pos 0 else quot remaining second

-- (now - created) - pause, not below zero
unfoldable pub effective_elapsed : ComputeInput → ℤ
effective_elapsed i =
    at_least_zero (saturate64 (i.now -ℤ i.ticket_created_at) -ℤ scale second i.accumulated_pause)

-- `responseTotalSecs - effectiveElapsed`, and the same for the resolution
unfoldable pub remaining : ComputeInput → ℤ → ℤ
remaining i minutes = scale minute minutes -ℤ effective_elapsed i

-- a response was recorded within its time, the pauses taken off
unfoldable pub response_on_time : ComputeInput → Bool
response_on_time i = elim i.response_met_at [
  | none ↦ false
  | some t ↦
      leb_ℤ (saturate64 (t -ℤ i.ticket_created_at) -ℤ scale second i.accumulated_pause)
        (scale minute i.response_minutes)
]

-- `remaining < threshold * total`, the threshold in thousandths
unfoldable pub below_threshold : ComputeInput → ℤ → Bool
below_threshold i minutes =
    ltb_ℤ (scale 1000 (remaining i minutes)) (i.warning_threshold *ℤ scale minute minutes)

-- the label when the clock is running
unfoldable pub running_label : ComputeInput → StateLabel
running_label i =
    let response_met = is_some i.response_met_at in
    let resolution_passed = leb_ℤ (remaining i i.resolution_minutes) (pos 0) in
    let resolution_met = response_met && not resolution_passed && response_on_time i in
    let response_breach = not response_met && leb_ℤ (remaining i i.response_minutes) (pos 0) in
    if response_met && resolution_met
    then met
    else if response_breach || resolution_passed
    then breached
    else if not response_met && below_threshold i i.response_minutes
    then warning
    else if below_threshold i i.resolution_minutes
    then warning
    else on_track

unfoldable pub compute_state : ComputeInput → ComputeResult
compute_state i =
    let response_due = i.ticket_created_at +ℤ minutes_duration i.response_minutes in
    let resolution_due = i.ticket_created_at +ℤ minutes_duration i.resolution_minutes in
    if i.paused
    then record {
      label = on_track;
      response_due_at = response_due;
      resolution_due_at = resolution_due;
      response_seconds_remaining =
          remaining_seconds response_due i.ticket_created_at i.accumulated_pause i.now;
      resolution_seconds_remaining =
          remaining_seconds resolution_due i.ticket_created_at i.accumulated_pause i.now;
      paused = true;
    }
    else record {
      label = running_label i;
      response_due_at = response_due;
      resolution_due_at = resolution_due;
      response_seconds_remaining = whole_seconds (remaining i i.response_minutes);
      resolution_seconds_remaining = whole_seconds (remaining i i.resolution_minutes);
      paused = false;
    }

-- `CheckBreach`: a breach for which no alert was sent
unfoldable pub check_breach : State → Bool
check_breach s = elim s.label [ breached ↦ not (is_some s.first_breach_alerted_at) | _ ↦ false ]
