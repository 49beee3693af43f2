-- ===== src/Worker/Handler/Close/Tests.antt =====
-- Runs of `handleIncidentResolved`.
use ticketowl.Worker.Handler.Close.{handle_incident_resolved}
use ticketowl.Worker.Handler.Close.Laws.{resolved_closes_each, closes, counted}
use ticketowl.Db.Sample.{empty_db, sample_meta, sample_config}
use ticketowl.Zammad.Api.{ZammadClient}
use ticketowl.Sla.Types.{Uuid, Time}
use ticketowl.Db.{Db}
use ticketowl.Worker.Types.{NightOwlEvent}
use ticketowl.Base.{
  String, List, ◌∷◌, Option, ℕ, ◌+◌, [], some, if◌then◌else◌, filter, raise, str_eq, ◌==◌, failed,
  none, ◌≡◌, err, ok, ◌++◌, refl, pure,
}
use ticketowl.Base.Sort.{sort_by}
use ticketowl.Base.Int.{pos}
use ticketowl.Link.Types.{IncidentLink}

-- A Zammad whose state is the list of the tickets that were asked to be updated; each call fails.
abbrev recording : ZammadClient (List ℕ)
recording = record {
  create_ticket = λ req. raise failed;
  update_ticket = λ id req asked. (err failed, asked ++ id ∷ []);
  search_users_by_email = λ email. pure none;
}

abbrev link : Uuid → Time → IncidentLink
link meta_id t = record {
  id = meta_id + 50;
  ticket_meta_id = meta_id;
  incident_id = 42;
  incident_slug = "pod-crash";
  linked_by = 0;
  created_at = t;
}

abbrev linked : Db
linked = record empty_db {
  ticket_meta = sample_meta ∷ record sample_meta { id = 8; zammad_id = 42 } ∷ [];
  incident_links = link 8 (pos 20) ∷ link 7 (pos 10) ∷ [];
  zammad_config = sample_config ∷ [];
}

abbrev resolved : NightOwlEvent
resolved = record {
  event = "incident.resolved";
  incident_id = "42";
  slug = "pod-crash";
  summary = "restarting";
  severity = "high";
  status = "resolved";
  service = "kubernetes-api";
  created_at = pos 0;
  resolved_at = some (pos 9);
}

abbrev parse : String → Option Uuid
parse s = if str_eq s "42" then some 42 else none

resolved_closes_each_example :
    let links =
      sort_by
        (λ (l : IncidentLink). l.created_at)
        (filter (λ (l : IncidentLink). l.incident_id == 42) linked.incident_links) in
    (n : ℕ) × (handle_incident_resolved (λ url token. recording) parse resolved (linked, [])
      ≡ (ok tt, (counted linked n, closes recording linked.ticket_meta links [])))
resolved_closes_each_example =
    resolved_closes_each (λ url token. recording) parse sample_config [] resolved 42 linked []
      (λ k. refl) refl refl
