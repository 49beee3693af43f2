-- ===== src/Link/Store/Tests.antt =====
-- The examples of internal/link/store.go.
use ticketowl.Link.Store.{create_incident_link, delete_incident_link}
use ticketowl.Link.Store.Laws.{create-delete}
use ticketowl.Db.{Db, query}
use ticketowl.Db.Sample.{empty_db, sample_meta}
use ticketowl.Base.{ok, refl, ◌≡◌, ◌∷◌, [], err, failed}

abbrev tracked : Db
tracked = record empty_db { ticket_meta = sample_meta ∷ [] }

abbrev linked : Db
unfolding query create_incident_link
linked = (create_incident_link 7 12 3 "INC-12" tracked).1

create_incident_link_twice : (create_incident_link 7 12 4 "INC-12" linked).0 ≡ err failed
unfolding query create_incident_link
create_incident_link_twice = refl

create-delete_example :
    ((delete_incident_link 7 12 linked).0 ≡ ok tt)
    × ((delete_incident_link 7 12 linked).1.incident_links ≡ tracked.incident_links)
unfolding query create_incident_link
create-delete_example = create-delete 7 12 3 "INC-12" tracked refl refl
