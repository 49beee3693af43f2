-- ===== src/Worker/Poller.antt =====
-- internal/worker/slapoller.go: one cycle of the SLA poller. A call whose error is only logged leaves
-- the state in which it ended. `cancelled` is `ctx.Err() != nil`.
use ticketowl.Worker.Types.{ActiveSlaState, SlaPollerStore}
use ticketowl.Sla.Types.{Time, StateLabel, State, warning, breached, on_track}
use ticketowl.NightOwl.Types.{CreateAlertRequest, Alert}
use ticketowl.Base.Int.{ℤ, quot, ◌*ℤ◌, ltb_ℤ, ◌-ℤ◌, pos}
use ticketowl.Base.{
  Bool, Option, Action, true, false, String, some, if◌then◌else◌, List, ok, ◌&&◌, ◌>>=◌, is_some,
  ◌∷◌, err, not, none, [], pure, ◌||◌, ◌>>◌, Result,
}
use ticketowl.Sla.Compute.{minutes_duration}
use ticketowl.Notification.{alert_sla_breach}

-- `now.After(due.Add(-warningDuration))`
unfoldable pub past_warning : Time → Time → ℤ → ℤ → Bool
past_warning now due minutes threshold =
    let warning_duration = quot (minutes_duration minutes *ℤ threshold) 1000 in
    ltb_ℤ (due -ℤ warning_duration) now

-- the check of one due date; a policy without that time does not warn
unfoldable pub warns : Time → Option Time → ℤ → ℤ → Bool
unfolding past_warning
warns now none minutes threshold = false
warns now (some due) minutes threshold =
    ltb_ℤ (pos 0) minutes && past_warning now due minutes threshold

unfoldable pub should_warn : Time → ActiveSlaState → Bool
unfolding warns
should_warn now a =
    not (is_some a.state.response_met_at)
      && warns now a.state.response_due_at a.response_minutes a.warning_threshold
    || warns now a.state.resolution_due_at a.resolution_minutes a.warning_threshold

abbrev pub is_on_track : StateLabel → Bool
is_on_track on_track = true
is_on_track _ = false

abbrev pub warned : Time → State → State
warned now s = record s { label = warning; updated_at = now }

abbrev pub alerted : Time → State → State
alerted now s = record s { label = breached; first_breach_alerted_at = some now; updated_at = now }

-- `t.Before(now)` of a due date, false on nil
abbrev pub due_before : Time → Option Time → Bool
due_before now none = false
due_before now (some due) = ltb_ℤ due now

unfoldable pub breach_type : Time → State → String
breach_type now s =
    if due_before now s.response_due_at && not (is_some s.response_met_at)
    then "response"
    else "resolution"

module _ {S : Type 0} (store : SlaPollerStore S)
    (create_alert : CreateAlertRequest → Action S Alert) (cancelled : S → Bool) where
  -- the state that a call leaves, its error only logged
  abbrev pub run {ℓ} : {A : Type ℓ} → (S → A × S) → S → S
  run m s = (m s).1

  unfoldable pub alert_breach : State → Time → Action S (Unit {0})
  unfolding breach_type alert_sla_breach
  alert_breach state now = do
    info ← store.get_ticket_meta_by_id state.ticket_meta_id
    elim info.sla_policy_id [
      | none ↦ pure tt
      | some policy_id ↦ do
        policy ← store.get_policy_by_id policy_id
        alert_sla_breach create_alert (record {
          ticket_zammad_id = info.zammad_id;
          ticket_number = info.zammad_number;
          sla_type = breach_type now state;
          priority = policy.priority;
        })
        store.upsert_state (alerted now state)
    ]

  unfoldable pub process_breached_state : State → Time → S → S
  unfolding alert_breach
  process_breached_state state now s =
      if is_some state.first_breach_alerted_at
      then run (store.upsert_state (record state { updated_at = now })) s
      else run (alert_breach state now) s

  unfoldable pub breach_loop : Time → List State → S → S × Bool
  breach_loop now [] s = (s, true)
  breach_loop now (state ∷ rest) s =
      let next = breach_loop now rest (process_breached_state state now s) in
      if cancelled s then (s, false) else next

  unfoldable pub warn : Time → ActiveSlaState → S → S
  unfolding should_warn past_warning
  warn now a s =
      if is_on_track a.state.label && should_warn now a
      then run (store.upsert_state (warned now a.state)) s
      else s

  unfoldable pub warning_loop : Time → List ActiveSlaState → S → S
  warning_loop now [] s = s
  warning_loop now (a ∷ rest) s =
      let next = warning_loop now rest (warn now a s) in if cancelled s then s else next

  -- an error of the list query is logged
  unfoldable pub warn_listed : Time → Result (List ActiveSlaState) × S → S
  warn_listed now (ok active, s) = warning_loop now active s
  warn_listed now (err e, s) = s

  unfoldable pub check_warnings : Time → S → S
  check_warnings now s = warn_listed now (store.list_active_states s)

  abbrev pub after_breaches : Time → S × Bool → S
  after_breaches now (s, true) = check_warnings now s
  after_breaches now (s, false) = s

  unfoldable pub process_listed : Time → Result (List State) × S → S
  process_listed now (ok states, s) = after_breaches now (breach_loop now states s)
  process_listed now (err e, s) = s

  unfoldable pub poll : Time → S → S
  poll now s = process_listed now (store.list_breached_tickets now s)

  -- `Run`: a cycle for each tick that is taken before the end of the context is
  unfoldable pub run_cycles : List Time → S → S
  run_cycles [] s = s
  run_cycles (now ∷ ticks) s = run_cycles ticks (poll now s)
