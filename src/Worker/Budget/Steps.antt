-- ===== src/Worker/Budget/Steps.antt =====
-- internal/worker/slapoller.go: what one row of a cycle spends.
use ticketowl.Base.{
  arith, ℕ, ◌≡◌, Bool, false, find?, none, true, err, Bool-cases, length, no_rows, inl, ◌⊎◌, ◌≤◌,
  inr, Option-cases, suc, some, length-append, if◌then◌else◌, ◌∷◌, refl, ◌++◌, [], str_eq, filter,
  ◌+◌, ◌==◌, sym, ap, ◌∙◌, filter-append,
}
use ticketowl.Db.{Db}
use ticketowl.Worker.Poller
use ticketowl.Worker.Store
use ticketowl.Worker.World.{World, db_store, create_alert}
use ticketowl.Worker.World.Quiet.{
  later, connected_ran, get_ticket_meta_by_id_ran, get_policy_by_id_ran, upsert_state_ran,
}
use ticketowl.Worker.Budget.{IsReady, Spends, Ticket, alerts_of, names}
use ticketowl.Notification.{BreachInfo}
use ticketowl.Worker.Budget.Rows.{Fits, written}
use ticketowl.Worker.Handler.Queries.{any_of_find}
use ticketowl.Sla.Store.{has_meta_id, has_policy_id}
use ticketowl.Sla.Types.{Time, State, Uuid, Policy}
use ticketowl.Ticket.Types.{Meta}
use ticketowl.Base.Table.{find?_sound}
use ticketowl.NightOwl.Types.{CreateAlertRequest}
use ticketowl.Notification.{breach_alert}

pub Spends-refl : {k : Ticket} (w : World) → IsReady k w → Spends k w w
Spends-refl w r = record { ready = r; spent = omega arith }

pub Spends-trans : {k : Ticket} {u v w : World} → Spends k u v → Spends k v w → Spends k u w
Spends-trans a b = record { ready = b.ready; spent = omega (arith, a.spent, b.spent) }

-- an alert for a breach names the number of its ticket
names-breach_alert :
    (k : Ticket) (info : BreachInfo)
    → names k (breach_alert info) ≡ true
    → str_eq info.ticket_number k.meta.zammad_number ≡ true
unfolding breach_alert
names-breach_alert k info h = elim (Bool-cases (str_eq info.ticket_number k.meta.zammad_number)) [
  | inl same ↦ same
  | inr other ↦ let no : names k (breach_alert info) ≡ false = rw other refl in cc (h, no)
]

one_kept : {A : Type 0} (p : A → Bool) (x : A) → p x ≡ true → filter p (x ∷ []) ≡ x ∷ []
one_kept p x h = rw h refl

none_kept : {A : Type 0} (p : A → Bool) (x : A) → p x ≡ false → filter p (x ∷ []) ≡ []
none_kept p x h = rw h refl

-- What the attempt to alert a row leaves: nothing in the tables and at NightOwl, or the row alerted and
-- one alert more at most, which is one about the ticket `k` only if the row is.
pub record Missed (w w' : World) : Type 0 where
  pub up : (n : ℕ) → w'.db.down n ≡ false
  pub replies : (n : ℕ) → w'.delivered n ≡ true → w'.answered n ≡ true
  pub alerts : w'.alerts ≡ w.alerts
  pub rows : w'.db.sla_states ≡ w.db.sla_states
  pub metas : w'.db.ticket_meta ≡ w.db.ticket_meta

pub record Alerted (k : Ticket) (now : Time) (s : State) (w w' : World) : Type 0 where
  pub up : (n : ℕ) → w'.db.down n ≡ false
  pub replies : (n : ℕ) → w'.delivered n ≡ true → w'.answered n ≡ true
  pub alerts : alerts_of k w' ≤ alerts_of k w + (if s.ticket_meta_id == k.meta.id then 1 else 0)
  pub metas : w'.db.ticket_meta ≡ w.db.ticket_meta
  pub rows : w'.db.sla_states ≡ written (Poller.alerted now s) w.db.sla_states

ticket_missing :
    {k : Ticket} (w : World) (s : State)
    → IsReady k w
    → find? (has_meta_id s.ticket_meta_id) w.db.ticket_meta ≡ none
    → Store.get_ticket_meta_by_id s.ticket_meta_id w.db ≡ (err no_rows, later w.db)
unfolding Store.get_ticket_meta_by_id
ticket_missing w s r h = rw (connected_ran _ w.db r.up) (rw h)

policy_missing :
    (db : Db) (id : Uuid)
    → ((n : ℕ) → db.down n ≡ false)
    → find? (has_policy_id id) db.sla_policies ≡ none
    → Store.get_policy_by_id id db ≡ (err no_rows, later db)
unfolding Store.get_policy_by_id
policy_missing db id up h = rw (connected_ran _ db up) (rw h)

not_delivered :
    {k : Ticket} (w : World)
    → IsReady k w
    → w.answered w.alert_calls ≡ false
    → w.delivered w.alert_calls ≡ false
not_delivered w r a = elim (Bool-cases (w.delivered w.alert_calls)) [
  | inl d ↦ cc (r.replies w.alert_calls d, a)
  | inr d ↦ d
]

module _ (cancelled : World → Bool) (now : Time) (s : State) (w : World) (k : Ticket)
    (r : IsReady k w) (fresh : s.first_breach_alerted_at ≡ none) (fits : Fits s) where
  abbrev pub done : World
  done = Poller.process_breached_state db_store create_alert cancelled s now w

  process_unticketed :
      find? (has_meta_id s.ticket_meta_id) w.db.ticket_meta ≡ none
      → done ≡ record w { db = later w.db }
  unfolding Poller.process_breached_state Poller.alert_breach db_store create_alert
  process_unticketed h = ground (arith, ticket_missing w s r h)

  module _ (m : Meta) (found : find? (has_meta_id s.ticket_meta_id) w.db.ticket_meta ≡ some m) where
    process_unassigned : m.sla_policy_id ≡ none → done ≡ record w { db = later w.db }
    unfolding Poller.process_breached_state Poller.alert_breach db_store create_alert
    process_unassigned h =
        ground (arith, get_ticket_meta_by_id_ran w.db r.up s.ticket_meta_id found, h)

    module _ (id : Uuid) (assigned : m.sla_policy_id ≡ some id) where
      process_unruled :
          find? (has_policy_id id) w.db.sla_policies ≡ none
          → done ≡ record w { db = later (later w.db) }
      unfolding Poller.process_breached_state Poller.alert_breach db_store create_alert
      process_unruled h = ground (
        arith,
        get_ticket_meta_by_id_ran w.db r.up s.ticket_meta_id found,
        policy_missing (later w.db) id r.up h,
      )

      module _ (p : Policy) (ruled : find? (has_policy_id id) w.db.sla_policies ≡ some p) where
        process_unanswered :
            w.answered w.alert_calls ≡ false
            → done ≡ record w { db = later (later w.db); alert_calls = suc w.alert_calls }
        unfolding Poller.process_breached_state Poller.alert_breach db_store create_alert
        process_unanswered h = ground (
          arith,
          get_ticket_meta_by_id_ran w.db r.up s.ticket_meta_id found,
          get_policy_by_id_ran (later w.db) r.up id ruled,
          not_delivered w r h,
        )

        abbrev sent : CreateAlertRequest
        sent = breach_alert (record {
          ticket_zammad_id = m.zammad_id;
          ticket_number = m.zammad_number;
          sla_type = Poller.breach_type now s;
          priority = p.priority;
        })

        abbrev after : World
        after = record w {
          alert_calls = suc w.alert_calls;
          alerts = if w.delivered w.alert_calls then w.alerts ++ sent ∷ [] else w.alerts;
          db = record (later (later (later w.db))) {
            sla_states = written (Poller.alerted now s) w.db.sla_states;
          };
        }

        process_answered : w.answered w.alert_calls ≡ true → done ≡ after
        unfolding Poller.process_breached_state Poller.alert_breach db_store create_alert
        process_answered h =
            let known =
              any_of_find (has_meta_id s.ticket_meta_id) (has_meta_id s.ticket_meta_id)
                w.db.ticket_meta found
                (find?_sound (has_meta_id s.ticket_meta_id) w.db.ticket_meta found) in
            ground (
              arith,
              get_ticket_meta_by_id_ran w.db r.up s.ticket_meta_id found,
              get_policy_by_id_ran (later w.db) r.up id ruled,
              upsert_state_ran (later (later w.db)) r.up (Poller.alerted now s) fits known,
            )

        sent_own : names k sent ≡ true → (s.ticket_meta_id == k.meta.id) ≡ true
        sent_own named =
            r.own_number s.ticket_meta_id m
              (ap (λ metas. find? (has_meta_id s.ticket_meta_id) metas) (sym r.metas) ∙ found)
              (names-breach_alert k
                (record {
                  ticket_zammad_id = m.zammad_id;
                  ticket_number = m.zammad_number;
                  sla_type = Poller.breach_type now s;
                  priority = p.priority;
                })
                named)

        alerts_after :
            alerts_of k after ≤ alerts_of k w + (if s.ticket_meta_id == k.meta.id then 1 else 0)
        alerts_after = elim (Bool-cases (w.delivered w.alert_calls)) [
          | inr d ↦ rw d (omega arith)
          | inl d ↦
              let grown = ap length (filter-append (names k) w.alerts (sent ∷ [])) in
              let count =
                length-append (filter (names k) w.alerts) (filter (names k) (sent ∷ [])) in
              elim (Bool-cases (names k sent)) [
                | inl own ↦
                    rw (d, sent_own own)
                      (omega (arith, grown, count, ap length (one_kept (names k) sent own)))
                | inr other ↦
                    rw d (omega (arith, grown, count, ap length (none_kept (names k) sent other)))
              ]
        ]

        after-Alerted : Alerted k now s w after
        after-Alerted = record {
          up = r.up;
          replies = r.replies;
          alerts = alerts_after;
          metas = refl;
          rows = refl;
        }

  missed :
      (w' : World)
      → ((n : ℕ) → w'.db.down n ≡ false)
      → ((n : ℕ) → w'.delivered n ≡ true → w'.answered n ≡ true)
      → w'.alerts ≡ w.alerts
      → w'.db.sla_states ≡ w.db.sla_states
      → w'.db.ticket_meta ≡ w.db.ticket_meta
      → done ≡ w'
      → Missed w done
  missed w' up replies alerts rows metas e =
      rw e (record { up = up; replies = replies; alerts = alerts; rows = rows; metas = metas })

  pub process_cases : Missed w done ⊎ Alerted k now s w done
  process_cases = elim (Option-cases (find? (has_meta_id s.ticket_meta_id) w.db.ticket_meta)) [
    | inl h ↦ inl (missed _ r.up r.replies refl refl refl (process_unticketed h))
    | inr (m, found) ↦ elim (Option-cases m.sla_policy_id) [
      | inl h ↦ inl (missed _ r.up r.replies refl refl refl (process_unassigned m found h))
      | inr (id, assigned) ↦ elim (Option-cases (find? (has_policy_id id) w.db.sla_policies)) [
        | inl h ↦
            inl (missed _ r.up r.replies refl refl refl (process_unruled m found id assigned h))
        | inr (p, ruled) ↦ elim (Bool-cases (w.answered w.alert_calls)) [
          | inl h ↦ inr (
              rw (process_answered m found id assigned p ruled h)
                (after-Alerted m found id assigned p ruled))
          | inr h ↦ inl (
              missed _ r.up r.replies refl refl refl
                (process_unanswered m found id assigned p ruled h))
        ]
      ]
    ]
  ]
