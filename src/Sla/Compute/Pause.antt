-- ===== src/Sla/Compute/Pause.antt =====
-- `ComputeState` and the pauses: what an accumulated pause does to a running clock, and what the
-- paused branch reports.
use ticketowl.Base.{◌≡◌, true, false, some, none, arith, ap, if◌then◌else◌, ℕ}
use ticketowl.Base.Int.{
  ℤ, ◌+ℤ◌, InInt64, scale, ◌-ℤ◌, quot, saturate64_id, eq_of_parts, int_laws, wrap64_id, ltb_ℤ, pos,
  negsuc, ◌≤ℤ◌, leb_ℤ, saturate64, leb_ℤ_of,
}
use ticketowl.Sla.Compute.{
  effective_elapsed, compute_state, remaining_seconds, running_label, minutes_duration, remaining,
  below_threshold, whole_seconds, second, minute, at_least_zero, response_on_time, Time, met,
}
use ticketowl.Sla.Types.{ComputeInput}
use ticketowl.Sla.Compute.Order.{at_time}

-- The input once a pause of `p` seconds has gone by and has been recorded.
abbrev pub after_pause : ℤ → ComputeInput → ComputeInput
after_pause p i = record i {
  now = i.now +ℤ scale second p;
  accumulated_pause = i.accumulated_pause +ℤ p;
}

effective_elapsed-after_pause :
    (p : ℤ) (i : ComputeInput)
    → InInt64 (i.now -ℤ i.ticket_created_at)
    → InInt64 (i.now +ℤ scale second p -ℤ i.ticket_created_at)
    → effective_elapsed (after_pause p i) ≡ effective_elapsed i
unfolding effective_elapsed
effective_elapsed-after_pause p i h k =
    let c = i.ticket_created_at in
    let elapsed = i.now -ℤ c in
    let later = i.now +ℤ scale second p -ℤ c in
    rw (saturate64_id elapsed h, saturate64_id later k)
      (ap at_least_zero (
        eq_of_parts (later -ℤ scale second (i.accumulated_pause +ℤ p))
          (elapsed -ℤ scale second i.accumulated_pause) (omega int_laws)))

-- While no response is recorded, a pause that is taken off the clock changes nothing: the label and
-- both remaining times are those from before the pause. The times since the creation fit an int64.
pub pause_neutral :
    (p : ℤ) (i : ComputeInput)
    → i.paused ≡ false
    → i.response_met_at ≡ none
    → InInt64 (i.now -ℤ i.ticket_created_at)
    → InInt64 (i.now +ℤ scale second p -ℤ i.ticket_created_at)
    → compute_state (after_pause p i) ≡ compute_state i
unfolding compute_state running_label remaining below_threshold
pause_neutral p i run unmet h k = ground (arith, effective_elapsed-after_pause p i h k)

clamp_seconds : (a : ℤ) → (if ltb_ℤ a (pos 0) then pos 0 else quot a second) ≡ whole_seconds a
unfolding whole_seconds quot
clamp_seconds (pos n) = ground arith
clamp_seconds (negsuc n) = ground arith

-- The paused branch computes the remaining time from the due date, the running one from the minutes:
-- they agree for durations and times since the creation that fit an int64.
pub remaining_seconds_agree :
    (i : ComputeInput) (m : ℤ)
    → InInt64 (scale minute m)
    → remaining_seconds
        (i.ticket_created_at +ℤ minutes_duration m)
        i.ticket_created_at
        i.accumulated_pause
        i.now
      ≡ whole_seconds (remaining i m)
unfolding remaining_seconds minutes_duration remaining effective_elapsed
remaining_seconds_agree i m h =
    let e = i.ticket_created_at +ℤ scale minute m in
    let same : e -ℤ i.ticket_created_at ≡ scale minute m =
      eq_of_parts (e -ℤ i.ticket_created_at) (scale minute m) (omega int_laws) in
    rw (wrap64_id (scale minute m) h, same, saturate64_id (scale minute m) h)
      (clamp_seconds (remaining i m))

whole_seconds-sub :
    (a : ℤ) (k : ℕ)
    → scale second (pos k) ≤ℤ a
    → whole_seconds (a -ℤ scale second (pos k)) +ℤ pos k ≡ whole_seconds a
unfolding whole_seconds quot ◌+ℤ◌ ◌-ℤ◌ scale
whole_seconds-sub (pos n) k h = ground arith
whole_seconds-sub (negsuc n) k h = ground arith

at_least_zero_id : (a : ℤ) → pos 0 ≤ℤ a → at_least_zero a ≡ a
at_least_zero_id a h = ground arith

effective_elapsed_running :
    (i : ComputeInput)
    → scale second i.accumulated_pause ≤ℤ i.now -ℤ i.ticket_created_at
    → InInt64 (i.now -ℤ i.ticket_created_at)
    → effective_elapsed i ≡ i.now -ℤ i.ticket_created_at -ℤ scale second i.accumulated_pause
unfolding effective_elapsed
effective_elapsed_running i e h = rw (saturate64_id (i.now -ℤ i.ticket_created_at) h) (
    at_least_zero_id (i.now -ℤ i.ticket_created_at -ℤ scale second i.accumulated_pause)
      (omega int_laws))

remaining-later :
    (i : ComputeInput) (m : ℤ) (k : ℕ)
    → scale second i.accumulated_pause ≤ℤ i.now -ℤ i.ticket_created_at
    → InInt64 (i.now -ℤ i.ticket_created_at)
    → InInt64 (i.now +ℤ scale second (pos k) -ℤ i.ticket_created_at)
    → remaining (at_time (i.now +ℤ scale second (pos k)) i) m
      ≡ remaining i m -ℤ scale second (pos k)
unfolding remaining
remaining-later i m k e h l =
    let s = scale second (pos k) in
    let t = i.now +ℤ s in
    let c = i.ticket_created_at in
    let p = scale second i.accumulated_pause in
    rw
      (
        effective_elapsed_running i e h,
        effective_elapsed_running (at_time t i) (omega (int_laws, e)) l,
      )
      (eq_of_parts (scale minute m -ℤ (t -ℤ c -ℤ p)) (scale minute m -ℤ (i.now -ℤ c -ℤ p) -ℤ s)
        (omega int_laws))

-- The paused branch does not stop the clock: with the pause not yet added to the accumulated one,
-- the response time that it reports `k` seconds later is `k` seconds shorter.
pub paused_clock_advances :
    (i : ComputeInput) (k : ℕ)
    → i.paused ≡ true
    → InInt64 (scale minute i.response_minutes)
    → scale second i.accumulated_pause ≤ℤ i.now -ℤ i.ticket_created_at
    → InInt64 (i.now -ℤ i.ticket_created_at)
    → InInt64 (i.now +ℤ scale second (pos k) -ℤ i.ticket_created_at)
    → scale second (pos k) ≤ℤ remaining i i.response_minutes
    → (compute_state (at_time (i.now +ℤ scale second (pos k)) i)).response_seconds_remaining
        +ℤ pos k
      ≡ (compute_state i).response_seconds_remaining
unfolding compute_state
paused_clock_advances i k p m e h l r =
    let t = i.now +ℤ scale second (pos k) in
    rw
      (
        p,
        remaining_seconds_agree i i.response_minutes m,
        remaining_seconds_agree (at_time t i) i.response_minutes m,
        remaining-later i i.response_minutes k e h l,
      )
      (whole_seconds-sub (remaining i i.response_minutes) k r)

-- A response that came late is counted as on time once pauses that make up for the lateness have
-- been recorded, whenever they took place: the label is `met` while the resolution is not due.
pub late_response_excused :
    (i : ComputeInput) (t : Time)
    → i.paused ≡ false
    → i.response_met_at ≡ some t
    → InInt64 (t -ℤ i.ticket_created_at)
    → t -ℤ i.ticket_created_at
      ≤ℤ scale minute i.response_minutes +ℤ scale second i.accumulated_pause
    → pos 1 ≤ℤ remaining i i.resolution_minutes
    → (compute_state i).label ≡ met
unfolding compute_state running_label response_on_time
late_response_excused i t run some_t h late left =
    let since = t -ℤ i.ticket_created_at in
    let on_time : leb_ℤ (saturate64 since -ℤ scale second i.accumulated_pause)
          (scale minute i.response_minutes)
        ≡ true =
      rw (saturate64_id since h) (
        leb_ℤ_of (since -ℤ scale second i.accumulated_pause) (scale minute i.response_minutes)
          (omega int_laws)) in
    ground (arith, on_time)
