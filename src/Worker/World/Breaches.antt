-- ===== src/Worker/World/Breaches.antt =====
-- The breached rows of a cycle: what becomes of the table and which alerts are sent.
use mathlib.Core.List.{append_assoc, append-nil}
use ticketowl.Worker.World.Quiet.{IsQuiet}
use ticketowl.Worker.Poller
use ticketowl.Worker.Store
use ticketowl.Base.{
  List, Bool, ◌++◌, ◌≡◌, ◌∷◌, none, [], any, true, arith, if◌then◌else◌, false, All, filter, refl,
  ap, sym, ◌∙◌, Bool-cases, inl, inr,
}
use ticketowl.Worker.World.{Time, db_store, create_alert, CreateAlertRequest, World}
use ticketowl.Ticket.Types.{Meta}
use ticketowl.Sla.Types.{State, Policy}
use ticketowl.Sla.Store.{of_ticket, keep_id}
use ticketowl.Base.Table.{upsert, update, upsert-append}
use ticketowl.Worker.World.Settle.{
  alert_of, IsTracked, settled, alert_for, settled-IsQuiet, process_settles, alert_of_tracked,
}

-- The alerts that the breached rows of a table ask for, in order.
pub asked : Time → List Meta → List Policy → List State → List CreateAlertRequest
asked now metas policies [] = []
asked now metas policies (s ∷ rest) =
    let others = asked now metas policies rest in
    if Store.is_breached now s then alert_of now metas policies s ++ others else others

-- No ticket has two rows.
abbrev pub DistinctTickets : List State → Type 0
DistinctTickets [] = Unit
DistinctTickets (s ∷ rest) = (any (of_ticket s.ticket_meta_id) rest ≡ false) × DistinctTickets rest

-- No row of the second list is for a ticket of the first.
abbrev pub Apart : List State → List State → Type 0
Apart ys xs = All (λ x. any (of_ticket x.ticket_meta_id) ys ≡ false) xs

any-append :
    (p : State → Bool) (ys : List State) (y : State)
    → any p ys ≡ false
    → p y ≡ false
    → any p (ys ++ y ∷ []) ≡ false
any-append p [] y h k = rw k
any-append p (z ∷ ys) y h k = ground (arith, any-append p ys y)

Apart-append :
    (ys xs : List State) (y : State)
    → Apart ys xs
    → any (of_ticket y.ticket_meta_id) xs ≡ false
    → Apart (ys ++ y ∷ []) xs
Apart-append ys [] y h k = tt
Apart-append ys (x ∷ xs) y h k = (
  any-append (of_ticket x.ticket_meta_id) ys y h.0 (ground arith),
  Apart-append ys xs y h.1 (ground arith),
)

pub is_breached-fresh :
    (now : Time) (s : State) → Store.is_breached now s ≡ true → s.first_breach_alerted_at ≡ none
unfolding Store.is_breached
is_breached-fresh now s h = ground arith

-- What the loop over the breached rows of `xs` leaves, where the table is `ys` and then `xs`.
pub record IsDone (now : Time) (ys xs : List State) (w : World) (r : World × Bool) : Type 0 where
  pub finished : r.1 ≡ true
  pub states : r.0.db.sla_states ≡ ys ++ update (Store.is_breached now) (Poller.alerted now) xs
  pub alerts : r.0.alerts ≡ w.alerts ++ asked now w.db.ticket_meta w.db.sla_policies xs
  pub tickets : r.0.db.ticket_meta ≡ w.db.ticket_meta
  pub policies : r.0.db.sla_policies ≡ w.db.sla_policies
  pub quiet : IsQuiet r.0

settled_rows :
    (now : Time) (ys : List State) (x : State) (xs rows : List State)
    → rows ≡ ys ++ x ∷ xs
    → any (of_ticket x.ticket_meta_id) ys ≡ false
    → upsert
        (of_ticket x.ticket_meta_id)
        (keep_id (Poller.alerted now x))
        (Poller.alerted now x)
        rows
      ≡ (ys ++ Poller.alerted now x ∷ []) ++ xs
settled_rows now ys x xs rows e h =
    let y = Poller.alerted now x in
    ap (upsert (of_ticket x.ticket_meta_id) (keep_id y) y) e
    ∙ upsert-append (of_ticket x.ticket_meta_id) (keep_id y) y ys x xs h (ground arith)
    ∙ sym (append_assoc ys (y ∷ []) xs)

pub breach_loop-IsDone :
    (cancelled : World → Bool) (now : Time) (ys xs : List State) (w : World)
    → ((v : World) → cancelled v ≡ false)
    → IsQuiet w
    → Apart ys xs
    → DistinctTickets xs
    → All (λ s. Store.is_breached now s ≡ true → IsTracked w.db.ticket_meta w.db.sla_policies s) xs
    → w.db.sla_states ≡ ys ++ xs
    → IsDone now ys xs w (
        Poller.breach_loop db_store create_alert cancelled now
          (filter (Store.is_breached now) xs)
          w)
unfolding Poller.breach_loop asked update
breach_loop-IsDone cancelled now ys [] w go q ap di tr e = record {
  finished = refl;
  states = e;
  alerts = sym (append-nil w.alerts);
  tickets = refl;
  policies = refl;
  quiet = q;
}
breach_loop-IsDone cancelled now ys (x ∷ xs) w go q ap di tr e =
    elim (Bool-cases (Store.is_breached now x)) [
      | inl h ↦
          let t = tr.0 h in
          let y = Poller.alerted now x in
          let w' = settled now x (alert_for now x t) w in
          let r =
            breach_loop-IsDone cancelled now (ys ++ y ∷ []) xs w' go
              (settled-IsQuiet now x (alert_for now x t) w q) (Apart-append ys xs y ap.1 di.0) di.1
              tr.1 (settled_rows now ys x xs w.db.sla_states e ap.0) in
          rw (h, go w, process_settles cancelled now x w q (is_breached-fresh now x h) t)
            (record {
              finished = r.finished;
              states =
                  r.states
                  ∙ rw h (
                      append_assoc ys (y ∷ [])
                        (update (Store.is_breached now) (Poller.alerted now) xs));
              alerts =
                  r.alerts
                  ∙ rw (h, alert_of_tracked now w.db.ticket_meta w.db.sla_policies x t)
                      (append_assoc w.alerts (alert_for now x t ∷ [])
                        (asked now w.db.ticket_meta w.db.sla_policies xs));
              tickets = r.tickets;
              policies = r.policies;
              quiet = r.quiet;
            })
      | inr h ↦
          let r =
            breach_loop-IsDone cancelled now (ys ++ x ∷ []) xs w go q
              (Apart-append ys xs x ap.1 di.0) di.1 tr.1 (e ∙ sym (append_assoc ys (x ∷ []) xs)) in
          rw h (record {
            finished = r.finished;
            states =
                r.states
                ∙ rw h (
                    append_assoc ys (x ∷ [])
                      (update (Store.is_breached now) (Poller.alerted now) xs));
            alerts = r.alerts ∙ rw h;
            tickets = r.tickets;
            policies = r.policies;
            quiet = r.quiet;
          })
    ]
