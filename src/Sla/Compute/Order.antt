-- ===== src/Sla/Compute/Order.antt =====
-- `ComputeState` as time goes by: the label of a running clock only gets worse.
use ticketowl.Base.{ℕ, ◌≤◌, ◌≡◌, true, false, none, arith}
use ticketowl.Base.Int.{
  ℤ, pos, ◌≤ℤ◌, leb_ℤ, int_laws, -ℤ_mono, ltb_ℤ_down, leb_ℤ_down, saturate64_mono, scale, ◌*ℤ◌,
  saturate64, ◌-ℤ◌,
}
use ticketowl.Sla.Types.{Time, StateLabel, on_track, warning, breached, met, ComputeInput}
use ticketowl.Sla.Compute.{
  at_least_zero, effective_elapsed, remaining, below_threshold, running_label, compute_state,
  second, minute,
}

abbrev pub at_time : Time → ComputeInput → ComputeInput
at_time t i = record i { now = t }

at_least_zero_mono : (a b : ℤ) → a ≤ℤ b → at_least_zero a ≤ℤ at_least_zero b
at_least_zero_mono a b h = ground arith

effective_elapsed_mono :
    (i : ComputeInput) (t : Time)
    → i.now ≤ℤ t
    → effective_elapsed i ≤ℤ effective_elapsed (at_time t i)
unfolding effective_elapsed
effective_elapsed_mono i t h =
    let c = i.ticket_created_at in
    let p = scale second i.accumulated_pause in
    let before = saturate64 (i.now -ℤ c) in
    let after = saturate64 (t -ℤ c) in
    at_least_zero_mono (before -ℤ p) (after -ℤ p)
      (-ℤ_mono before after p (saturate64_mono (i.now -ℤ c) (t -ℤ c) (-ℤ_mono i.now t c h)))

remaining_mono :
    (i : ComputeInput) (t : Time) (m : ℤ) → i.now ≤ℤ t → remaining (at_time t i) m ≤ℤ remaining i m
unfolding remaining
remaining_mono i t m h = omega (int_laws, effective_elapsed_mono i t h)

below_threshold_mono :
    (i : ComputeInput) (t : Time) (m : ℤ)
    → i.now ≤ℤ t
    → below_threshold i m ≡ true
    → below_threshold (at_time t i) m ≡ true
unfolding below_threshold
below_threshold_mono i t m h b =
    ltb_ℤ_down (scale 1000 (remaining (at_time t i) m)) (scale 1000 (remaining i m))
      (i.warning_threshold *ℤ scale minute m) (omega (int_laws, remaining_mono i t m h)) b

passed_mono :
    (i : ComputeInput) (t : Time) (m : ℤ)
    → i.now ≤ℤ t
    → leb_ℤ (remaining i m) (pos 0) ≡ true
    → leb_ℤ (remaining (at_time t i) m) (pos 0) ≡ true
passed_mono i t m h p =
    leb_ℤ_down (remaining (at_time t i) m) (remaining i m) (pos 0) (remaining_mono i t m h) p

-- A breached ticket stays breached: with a running clock, no later evaluation of the same input
-- gives another label.
pub breached_stays :
    (i : ComputeInput) (t : Time)
    → i.paused ≡ false
    → i.now ≤ℤ t
    → (compute_state i).label ≡ breached
    → (compute_state (at_time t i)).label ≡ breached
unfolding compute_state running_label
breached_stays i t run h b =
    ground (arith, passed_mono i t i.response_minutes h, passed_mono i t i.resolution_minutes h)

-- How bad a label is for the team that holds the ticket.
abbrev pub badness : StateLabel → ℕ
badness met = 0
badness on_track = 1
badness warning = 2
badness breached = 3

-- Before a response is recorded, the label of a running clock never improves as time goes by.
pub badness_mono :
    (i : ComputeInput) (t : Time)
    → i.paused ≡ false
    → i.response_met_at ≡ none
    → i.now ≤ℤ t
    → badness (compute_state i).label ≤ badness (compute_state (at_time t i)).label
unfolding compute_state running_label
badness_mono i t run unmet h = ground (
  arith,
  passed_mono i t i.response_minutes h,
  passed_mono i t i.resolution_minutes h,
  below_threshold_mono i t i.response_minutes h,
  below_threshold_mono i t i.resolution_minutes h,
)
