-- ===== src/Worker/Budget/Loop.antt =====
-- internal/worker/slapoller.go: what the loop over the breached rows spends.
use ticketowl.Base.{
  List, Bool, arith, ap, ◌≡◌, any, All, length, none, false, ◌∷◌, filter, Bool-cases, inl, inr, [],
  if◌then◌else◌, ◌∙◌, is_some, ◌==◌, Option,
}
use ticketowl.Base.Unique.{Unique}
use ticketowl.Db.Keys.{same_state}
use ticketowl.Worker.Poller
use ticketowl.Worker.Store
use ticketowl.Worker.World.{World, db_store, create_alert}
use ticketowl.Worker.Budget.{IsReady, Spends, Ticket, names}
use ticketowl.Base.Table.{find?_sound}
use ticketowl.Sla.Store.{of_ticket}
use ticketowl.Worker.Budget.Rows.{
  share, share_same, Agrees, Fits, unalerted, written, Unique-written, Fits-written, Agrees-other,
  unalerted-written,
}
use ticketowl.Worker.Budget.Steps.{Missed, Spends-refl, Alerted, process_cases, Spends-trans}
use ticketowl.Sla.Types.{Time, State, Uuid}
use ticketowl.Worker.World.Breaches.{is_breached-fresh}
use ticketowl.Db.Keys.Owners.{==-comm}

-- A row that is written as alerted, or one whose alert did not come through, spends at most its own.
Missed-Spends : {k : Ticket} (w w' : World) → IsReady k w → Missed w w' → Spends k w w'
Missed-Spends {k} w w' r m = record {
  ready = record {
    up = m.up;
    replies = m.replies;
    unique = rw m.rows r.unique;
    fit = rw m.rows r.fit;
    metas = m.metas ∙ r.metas;
    own_number = r.own_number;
  };
  spent = omega (
    arith,
    ap (λ alerts. length (filter (names k) alerts)) m.alerts,
    ap (unalerted k.meta.id) m.rows,
  );
}

share_fresh :
    (k : Uuid) (s : State)
    → s.first_breach_alerted_at ≡ none
    → share k s ≡ (if s.ticket_meta_id == k then 1 else 0)
share_fresh k s fresh =
    ap (λ (t : Option Time). if s.ticket_meta_id == k then (if is_some t then 0 else 1) else 0)
      fresh

share-alerted : (k : Uuid) (now : Time) (s : State) → share k (Poller.alerted now s) ≡ 0
share-alerted k now s = ground arith

Alerted-Spends :
    {k : Ticket} (now : Time) (s : State) (w w' : World)
    → IsReady k w
    → s.first_breach_alerted_at ≡ none
    → Fits s
    → Agrees w.db.sla_states s
    → Alerted k now s w w'
    → Spends k w w'
Alerted-Spends {k} now s w w' r fresh fits (x, found, says) a = record {
  ready = record {
    up = a.up;
    replies = a.replies;
    unique = rw a.rows (Unique-written (Poller.alerted now s) w.db.sla_states r.unique);
    fit = rw a.rows (Fits-written (Poller.alerted now s) w.db.sla_states fits r.fit);
    metas = a.metas ∙ r.metas;
    own_number = r.own_number;
  };
  spent = omega (
    arith,
    a.alerts,
    ap (unalerted k.meta.id) a.rows,
    unalerted-written k.meta.id (Poller.alerted now s) x w.db.sla_states found,
    share_same k.meta.id s x (find?_sound (of_ticket s.ticket_meta_id) w.db.sla_states found) says,
    share_fresh k.meta.id s fresh,
    share-alerted k.meta.id now s,
  );
}

-- The rows that a cycle has still to look at.
abbrev pub Pending : List State → State → Type 0
Pending rows s = (s.first_breach_alerted_at ≡ none) × Fits s × Agrees rows s

Pending-written :
    (now : Time) (s : State) (rows xs : List State)
    → any (same_state s) xs ≡ false
    → All (Pending rows) xs
    → All (Pending (written (Poller.alerted now s) rows)) xs
Pending-written now s rows [] h all = tt
Pending-written now s rows (y ∷ xs) h ((fresh, fits, agrees), all) =
    elim (Bool-cases (same_state s y)) [
      | inl k ↦ ground (arith, k, h)
      | inr k ↦ (
        (
          fresh,
          fits,
          Agrees-other (Poller.alerted now s) y rows (==-comm s.ticket_meta_id y.ticket_meta_id ∙ k)
              agrees,
        ),
        Pending-written now s rows xs (rw k at h) all,
      )
    ]

pub breach_loop-Spends :
    {k : Ticket} (cancelled : World → Bool) (now : Time) (xs : List State) (w : World)
    → IsReady k w
    → Unique same_state xs
    → All (Pending w.db.sla_states) xs
    → Spends k w (Poller.breach_loop db_store create_alert cancelled now xs w).0
unfolding Poller.breach_loop
breach_loop-Spends cancelled now [] w r unique pending = Spends-refl w r
breach_loop-Spends {k} cancelled now (x ∷ xs) w r (alone, unique) ((fresh, fits, agrees), pending) =
    let w' = Poller.process_breached_state db_store create_alert cancelled x now w in
    elim (Bool-cases (cancelled w)) [
      | inl stops ↦ rw stops (Spends-refl w r)
      | inr goes ↦ rw goes (elim (process_cases cancelled now x w k r fresh fits) [
        | inl m ↦
            let first = Missed-Spends w w' r m in
            Spends-trans first
              (breach_loop-Spends cancelled now xs w' first.ready unique (rw m.rows pending))
        | inr a ↦
            let first = Alerted-Spends now x w w' r fresh fits agrees a in
            Spends-trans first (
              breach_loop-Spends cancelled now xs w' first.ready unique
                (rw a.rows (Pending-written now x w.db.sla_states xs alone pending)))
      ])
    ]

pub is_breached-Pending :
    (now : Time) (rows xs : List State)
    → All Fits xs
    → All (Agrees rows) xs
    → All (Pending rows) (filter (Store.is_breached now) xs)
is_breached-Pending now rows [] fit agrees = tt
is_breached-Pending now rows (x ∷ xs) (f, fit) (a, agrees) =
    let rest = is_breached-Pending now rows xs fit agrees in
    elim (Bool-cases (Store.is_breached now x)) [
      | inl h ↦ rw h ((is_breached-fresh now x h, f, a), rest)
      | inr h ↦ rw h rest
    ]
