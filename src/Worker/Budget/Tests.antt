-- ===== src/Worker/Budget/Tests.antt =====
-- A few cycles on a small world whose alerts start to arrive only with the second call.
use ticketowl.Base.{
  not, ◌==◌, refl, ◌∷◌, [], ◌≤◌, find?, ◌+◌, ◌≡◌, some, true, Bool-cases, inl, arith, inr,
}
use ticketowl.Worker.World.{World, run_poller}
use ticketowl.Worker.World.Sample.{world, never}
use ticketowl.Worker.World.Sample as Sample
use ticketowl.Ticket.Types.{Meta}
use ticketowl.Sla.Types.{Uuid}
use ticketowl.Sla.Store.{has_meta_id}
use ticketowl.Sla.Store.{of_ticket}
use ticketowl.Worker.Budget.{IsReady, Ticket, alerts_of}
use ticketowl.Worker.Budget.Laws.{one_alert_each, allowance}
use ticketowl.Db.{fits_int4}
use ticketowl.Base.Int.{pos}

abbrev patchy : World
patchy = record world { delivered = λ n. not (n == 0); answered = λ n. not (n == 0) }

abbrev ticket : Ticket
ticket = record { metas = patchy.db.ticket_meta; meta = Sample.ticket }

only_ticket :
    (id : Uuid) {m : Meta}
    → find? (has_meta_id id) patchy.db.ticket_meta ≡ some m
    → (id == ticket.meta.id) ≡ true
only_ticket id found = elim (Bool-cases (has_meta_id id Sample.ticket)) [
  | inl same ↦ ground (arith, same)
  | inr other ↦ ground (arith, rw other at found)
]

patchy-IsReady : IsReady ticket patchy
unfolding fits_int4
patchy-IsReady = record {
  up = λ n. refl;
  replies = λ n h. h;
  unique = (refl, tt);
  fit = (refl, tt);
  metas = refl;
  own_number = λ id m found named. only_ticket id found;
}

one_alert_each_example :
    (alerts_of ticket (run_poller never (pos 4000 ∷ pos 4060 ∷ pos 4120 ∷ pos 4180 ∷ []) patchy)
      ≤ 0 + allowance (find? (of_ticket ticket.meta.id) patchy.db.sla_states))
    × (allowance (find? (of_ticket ticket.meta.id) patchy.db.sla_states) ≤ 1)
one_alert_each_example =
    one_alert_each ticket never (pos 4000 ∷ pos 4060 ∷ pos 4120 ∷ pos 4180 ∷ []) patchy
      patchy-IsReady
