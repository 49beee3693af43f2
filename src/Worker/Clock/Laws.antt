-- ===== src/Worker/Clock/Laws.antt =====
-- internal/worker/resolve.go: what pauses and resumptions keep of a ticket's SLA state.
use ticketowl.Worker.Clock.{
  shift_due, paused_seconds, pause_duration, step_state, run_updates, clock_step, resume, pause,
}
use ticketowl.Sla.Types.{State, Time}
use ticketowl.Base.Int.{
  ℤ, scale, InInt64, quot, ◌-ℤ◌, pos, ◌+ℤ◌, saturate64, eq_of_parts, wrap64, int_laws, negsuc,
  wrap64_id,
}
use ticketowl.Db.{fits_int4}
use ticketowl.Base.{
  Option, ◌≡◌, true, some, ◌∙◌, arith, ap, none, refl, Bool, List, false, ◌∷◌, [], Option-cases,
  ◌⊎◌, inl, is_some, inr, Bool-cases,
}
use ticketowl.Sla.Compute.{second}

-- `s'` is `s` with some whole seconds of pause added: both due dates are later by exactly the seconds
-- by which the accumulated pause has grown.
pub record Shifted (s s' : State) : Type 0 where
  pub seconds : ℤ
  pub accumulated : s'.accumulated_pause_secs ≡ s.accumulated_pause_secs +ℤ seconds
  pub response : s'.response_due_at ≡ shift_due (scale second seconds) s.response_due_at
  pub resolution : s'.resolution_due_at ≡ shift_due (scale second seconds) s.resolution_due_at
  pub ticket : s'.ticket_meta_id ≡ s.ticket_meta_id
  pub label : s'.label ≡ s.label

-- A number of whole seconds that an int64 of nanoseconds holds.
abbrev InSeconds : ℤ → Type 0
InSeconds a = InInt64 (scale second a)

whole_seconds-fit : (d : ℤ) → InSeconds (quot (saturate64 d) second)
unfolding scale quot saturate64
whole_seconds-fit (pos n) = ground arith
whole_seconds-fit (negsuc n) = ground arith

paused_seconds-InSeconds : (t now : ℤ) → InSeconds (paused_seconds t now)
unfolding paused_seconds
paused_seconds-InSeconds t now = whole_seconds-fit (now -ℤ t)

wrap64_sum : (a b : ℤ) → fits_int4 a ≡ true → InSeconds b → wrap64 (a +ℤ b) ≡ a +ℤ b
unfolding fits_int4 ◌+ℤ◌ scale
wrap64_sum a b h k = wrap64_id (a +ℤ b) (ground (arith, h, k))

shift_zero : (o : Option ℤ) → o ≡ shift_due (scale second (pos 0)) o
shift_zero none = refl
shift_zero (some t) = ap some (eq_of_parts t (t +ℤ scale second (pos 0)) (omega int_laws))

pub Shifted-refl : (s : State) → Shifted s s
Shifted-refl s = record {
  seconds = pos 0;
  accumulated =
      eq_of_parts s.accumulated_pause_secs (s.accumulated_pause_secs +ℤ pos 0) (omega int_laws);
  response = shift_zero s.response_due_at;
  resolution = shift_zero s.resolution_due_at;
  ticket = refl;
  label = refl;
}

shift_shift :
    (a b : ℤ) (o : Option ℤ)
    → shift_due (scale second b) (shift_due (scale second a) o)
      ≡ shift_due (scale second (a +ℤ b)) o
shift_shift a b none = refl
shift_shift a b (some t) = ap some (
    eq_of_parts (t +ℤ scale second a +ℤ scale second b) (t +ℤ scale second (a +ℤ b))
      (omega int_laws))

pub Shifted-trans : {r s t : State} → Shifted r s → Shifted s t → Shifted r t
Shifted-trans {r} {s} {t} h k = record {
  seconds = h.seconds +ℤ k.seconds;
  accumulated =
      k.accumulated
      ∙ ap (λ a. a +ℤ k.seconds) h.accumulated
      ∙ eq_of_parts (r.accumulated_pause_secs +ℤ h.seconds +ℤ k.seconds)
          (r.accumulated_pause_secs +ℤ (h.seconds +ℤ k.seconds)) (omega int_laws);
  response =
      k.response
      ∙ ap (shift_due (scale second k.seconds)) h.response
      ∙ shift_shift h.seconds k.seconds r.response_due_at;
  resolution =
      k.resolution
      ∙ ap (shift_due (scale second k.seconds)) h.resolution
      ∙ shift_shift h.seconds k.seconds r.resolution_due_at;
  ticket = k.ticket ∙ h.ticket;
  label = k.label ∙ h.label;
}

resume-Shifted :
    (t now : Time) (s : State)
    → s.paused_at ≡ some t
    → fits_int4 s.accumulated_pause_secs ≡ true
    → Shifted s (resume now s)
unfolding resume pause_duration
resume-Shifted t now s at h =
    let secs = paused_seconds t now in
    rw at (
      rw (wrap64_sum s.accumulated_pause_secs secs h (paused_seconds-InSeconds t now)) (
        rw (wrap64_id (scale second secs) (paused_seconds-InSeconds t now)) (record {
          seconds = secs;
          accumulated = refl;
          response = refl;
          resolution = refl;
          ticket = refl;
          label = refl;
        })))

unpaused-Shifted : (now : Time) (s : State) → s.paused_at ≡ none → Shifted s (resume now s)
unfolding resume Shifted-refl
unpaused-Shifted now s at = rw at (record {
  seconds = pos 0;
  accumulated = (Shifted-refl s).accumulated;
  response = (Shifted-refl s).response;
  resolution = (Shifted-refl s).resolution;
  ticket = refl;
  label = refl;
})

pause-Shifted : (now : Time) (s : State) → Shifted s (pause now s)
unfolding Shifted-refl
pause-Shifted now s = record {
  seconds = pos 0;
  accumulated = (Shifted-refl s).accumulated;
  response = (Shifted-refl s).response;
  resolution = (Shifted-refl s).resolution;
  ticket = refl;
  label = refl;
}

resumed-Shifted :
    (now : Time) (s : State) → fits_int4 s.accumulated_pause_secs ≡ true → Shifted s (resume now s)
resumed-Shifted now s h = elim (Option-cases s.paused_at) [
  | inl at ↦ unpaused-Shifted now s at
  | inr (t, at) ↦ resume-Shifted t now s at h
]

-- What an update does: nothing if the clock already stands or runs as the ticket's state wants, else
-- a pause or a resumption.
pub step_cases :
    (b : Bool) (now : Time) (s : State)
    → ((s.paused ≡ b) × (clock_step b now s ≡ none))
      ⊎ ((b ≡ true) × (s.paused ≡ false) × (clock_step b now s ≡ some (pause now s)))
      ⊎ ((b ≡ false) × (s.paused ≡ true) × (clock_step b now s ≡ some (resume now s)))
unfolding clock_step
step_cases true now s = elim (Bool-cases s.paused) [
  | inl p ↦ inl (p, ground (arith, p))
  | inr p ↦ inr (inl (refl, p, ground (arith, p)))
]
step_cases false now s = elim (Bool-cases s.paused) [
  | inl p ↦ inr (inr (refl, p, ground (arith, p)))
  | inr p ↦ inl (p, ground (arith, p))
]

step_state-Shifted :
    (b : Bool) (now : Time) (s : State)
    → fits_int4 s.accumulated_pause_secs ≡ true
    → Shifted s (step_state b now s)
step_state-Shifted b now s h = elim (step_cases b now s) [
  | inl (p, e) ↦ rw e (Shifted-refl s)
  | inr (inl (p, q, e)) ↦ rw e (pause-Shifted now s)
  | inr (inr (p, q, e)) ↦ rw e (resumed-Shifted now s h)
]

-- Every write of the history is one that the column of the accumulated pause takes.
unfoldable pub Accepted : List (Bool × Time) → State → Type 0
Accepted [] s = Unit
Accepted (e ∷ es) s =
    (fits_int4 (step_state e.0 e.1 s).accumulated_pause_secs ≡ true)
    × Accepted es (step_state e.0 e.1 s)

-- Over any history of updates whose accumulated pauses fit the column, both due dates move by exactly
-- the seconds by which the accumulated pause grows, and the ticket and the label stay.
pub run_updates-Shifted :
    (es : List (Bool × Time)) (s : State)
    → fits_int4 s.accumulated_pause_secs ≡ true
    → Accepted es s
    → Shifted s (run_updates es s)
unfolding Accepted
run_updates-Shifted [] s h a = Shifted-refl s
run_updates-Shifted (e ∷ es) s h a =
    Shifted-trans (step_state-Shifted e.0 e.1 s h)
      (run_updates-Shifted es (step_state e.0 e.1 s) a.0 a.1)

-- After an update the clock is paused exactly if the ticket's state is a pausing one, the time of the
-- pause is recorded exactly if it is paused, provided it was so before, and a further update to a
-- state of the same kind writes nothing.
step_settles :
    (b : Bool) (now later : Time) (s : State)
    → is_some s.paused_at ≡ s.paused
    → ((step_state b now s).paused ≡ b)
      × (is_some (step_state b now s).paused_at ≡ (step_state b now s).paused)
      × (clock_step b later (step_state b now s) ≡ none)
unfolding clock_step resume
step_settles true now later s at = elim (Bool-cases s.paused) [
  | inl p ↦ ground (arith, p, at)
  | inr p ↦ ground (arith, p, at)
]
step_settles false now later s at = elim (Bool-cases s.paused) [
  | inl p ↦ ground (arith, p, at)
  | inr p ↦ ground (arith, p, at)
]

pub resume_ticket : (now : Time) (s : State) → (resume now s).ticket_meta_id ≡ s.ticket_meta_id
unfolding resume
resume_ticket now s = elim (Option-cases s.paused_at) [
  | inl at ↦ rw at refl
  | inr (t, at) ↦ rw at refl
]

pub resume_id : (now : Time) (s : State) → (resume now s).id ≡ s.id
unfolding resume
resume_id now s = elim (Option-cases s.paused_at) [ inl at ↦ rw at refl | inr (t, at) ↦ rw at refl ]
