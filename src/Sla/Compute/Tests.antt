-- ===== src/Sla/Compute/Tests.antt =====
-- Runs of `ComputeState`, after internal/sla/service_test.go, and its theorems at inputs.
use ticketowl.Sla.Compute.Order.{at_time, breached_stays, badness_mono, badness}
use ticketowl.Sla.Compute.Pause.{
  after_pause, pause_neutral, remaining_seconds_agree, paused_clock_advances, late_response_excused,
}
use ticketowl.Base.{ℕ, ◌≡◌, ◌≤◌, true, some, ◌*◌, none, arith, false, refl}
use ticketowl.Sla.Types.{ComputeInput}
use ticketowl.Sla.Compute.{
  compute_state, Time, running_label, remaining_seconds, remaining, breached, minutes_duration,
  effective_elapsed, whole_seconds, below_threshold, second, met, on_track, warning,
}
use ticketowl.Base.Int.{◌-ℤ◌, scale, pos, ◌+ℤ◌, saturate64, ◌*ℤ◌}

-- the minutes after the creation, as a point of time
abbrev at_minute : ℕ → Time
at_minute n = pos (n * 60_000_000_000)

-- one hour to respond, eight to resolve, a warning at a fifth
abbrev input : ComputeInput
input = record {
  response_minutes = pos 60;
  resolution_minutes = pos 480;
  warning_threshold = pos 200;
  ticket_created_at = pos 0;
  response_met_at = none;
  accumulated_pause = pos 0;
  paused = false;
  now = at_minute 10;
}

on_track_early : (compute_state input).label ≡ on_track
unfolding compute_state running_label remaining effective_elapsed below_threshold saturate64 scale
    ◌-ℤ◌ ◌*ℤ◌
on_track_early = refl

warning_late : (compute_state (at_time (at_minute 50) input)).label ≡ warning
unfolding compute_state running_label remaining effective_elapsed below_threshold saturate64 scale
    ◌-ℤ◌ ◌*ℤ◌
warning_late = refl

breached_after : (compute_state (at_time (at_minute 75) input)).label ≡ breached
unfolding compute_state running_label remaining effective_elapsed below_threshold saturate64 scale
    ◌-ℤ◌ ◌*ℤ◌
breached_after = refl

breached_stays_example : (compute_state (at_time (at_minute 90) input)).label ≡ breached
breached_stays_example =
    breached_stays (at_time (at_minute 75) input) (at_minute 90) refl (omega arith) breached_after

badness_mono_example :
    badness (compute_state input).label
    ≤ badness (compute_state (at_time (at_minute 50) input)).label
badness_mono_example = badness_mono input (at_minute 50) refl refl (omega arith)

pause_neutral_example : compute_state (after_pause (pos 1800) input) ≡ compute_state input
unfolding ◌-ℤ◌ ◌+ℤ◌ scale
pause_neutral_example = pause_neutral (pos 1800) input refl refl (omega arith) (omega arith)

remaining_seconds_agree_example :
    remaining_seconds (pos 0 +ℤ minutes_duration (pos 60)) (pos 0) (pos 0) (at_minute 10)
    ≡ whole_seconds (remaining input (pos 60))
unfolding scale
remaining_seconds_agree_example = remaining_seconds_agree input (pos 60) (omega arith)

abbrev paused_input : ComputeInput
paused_input = record input { paused = true }

paused_clock_advances_example :
    (compute_state
        (at_time (at_minute 10 +ℤ scale second (pos 30)) paused_input)).response_seconds_remaining
      +ℤ pos 30
    ≡ (compute_state paused_input).response_seconds_remaining
unfolding scale ◌-ℤ◌ ◌+ℤ◌ remaining effective_elapsed saturate64
paused_clock_advances_example =
    paused_clock_advances paused_input 30 refl (omega arith) (omega arith) (omega arith)
      (omega arith) (omega arith)

-- answered after 70 minutes, and later paused for 20
abbrev late_input : ComputeInput
late_input = record input {
  response_met_at = some (at_minute 70);
  accumulated_pause = pos 1200;
  now = at_minute 100;
}

late_response_excused_example : (compute_state late_input).label ≡ met
unfolding scale ◌-ℤ◌ ◌+ℤ◌ remaining effective_elapsed saturate64
late_response_excused_example =
    late_response_excused late_input (at_minute 70) refl refl (omega arith) (omega arith)
      (omega arith)
