-- ===== src/Ticket/PostMortem/Tests.antt =====
-- The examples of internal/ticket/postmortem.go; the remote state counts the post-mortems made.
use ticketowl.Base.{
  ℕ, String, Option, none, ok, err, exists, failed, refl, ◌≡◌, ◌∷◌, [], suc, Action,
}
use ticketowl.Base.Sort.{sort_by}
use ticketowl.Sla.Types.{Uuid}
use ticketowl.Db.{Db, query}
use ticketowl.Db.Sample.{empty_db, sample_meta}
use ticketowl.Link.Store.{
  get_ticket_meta_id, get_postmortem_link, create_postmortem_link, list_incident_links,
}
use ticketowl.Ticket.PostMortem.{
  PostMortemCreator, IncidentFetcher, create_post_mortem, collect, PostMortemResult,
}
use ticketowl.Ticket.PostMortem.Laws.{db_postmortems, remote_creator, remote_fetcher}
use ticketowl.Ticket.PostMortem.Once.{second_refused}

abbrev bookowl : PostMortemCreator ℕ
bookowl = record {
  create_post_mortem =
      λ req n. (ok (record { id = "pm"; url = "https://bookowl.example/pm" }), suc n);
}

abbrev nightowl : IncidentFetcher ℕ
nightowl = record { get_incident = λ id n. (err failed, n) }

abbrev no_uuid : String → Option Uuid
no_uuid text = none

abbrev as_text : Uuid → String
as_text id = "id"

abbrev tracked : Db × ℕ
tracked = (record empty_db { ticket_meta = sample_meta ∷ [] }, 0)

abbrev db_ops : Uuid → ℕ → String → String → Uuid → Action (Db × ℕ) PostMortemResult
db_ops =
    create_post_mortem (db_postmortems ℕ) (remote_creator bookowl) (remote_fetcher nightowl) as_text
      no_uuid

created_at_bookowl : (db_ops 50 41 "10041" "Disk full" 3 tracked).1.1 ≡ 1
unfolding create_post_mortem collect query get_ticket_meta_id get_postmortem_link
    list_incident_links create_postmortem_link sort_by
created_at_bookowl = refl

second_refused_example :
    let s' = (db_ops 50 41 "10041" "Disk full" 3 tracked).1 in
    db_ops 51 41 "10041" "Disk full again" 4 s' ≡ (
      err (exists "https://bookowl.example/pm"),
      (record (s'.0) { queries = suc (suc s'.0.queries) }, s'.1),
    )
unfolding create_post_mortem collect query get_ticket_meta_id get_postmortem_link
    list_incident_links create_postmortem_link sort_by
second_refused_example =
    second_refused bookowl nightowl as_text no_uuid 50 51 "10041" "Disk full" "10041"
      "Disk full again" 3 4 41 tracked refl refl refl
