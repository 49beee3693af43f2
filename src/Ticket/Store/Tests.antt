-- ===== src/Ticket/Store/Tests.antt =====
-- Runs of internal/ticket/store.go.
use ticketowl.Ticket.Store as Store
use ticketowl.Ticket.Store.{accepted, keep_policy}
use ticketowl.Ticket.Store.Laws.{upsert_finds}
use ticketowl.Sla.Store.{has_zammad_id}
use ticketowl.Db.Sample.{empty_db, sample_meta}
use ticketowl.Db.{Db, query}
use ticketowl.Base.{none, ◌∷◌, ◌≡◌, [], true, err, ok, refl, failed, find?, some, ℕ, ◌≢◌}
use ticketowl.Ticket.Types.{Meta, policy_id_of}

abbrev db : Db
db = record empty_db { ticket_meta = sample_meta ∷ [] }

new_number_accepted : accepted 41 "10042" none db ≡ true
unfolding accepted
new_number_accepted = refl

-- a number that another ticket has is refused
test-upsert : (Store.upsert 42 "10041" none db).0 ≡ err failed
unfolding Store.upsert accepted query
test-upsert = refl

upsert_finds_example :
    let (result, db') = Store.upsert 41 "10042" none db in
    (m : Meta) × (result ≡ ok m)
    × (find? (has_zammad_id 41) db'.ticket_meta ≡ some m)
    × (m.zammad_number ≡ "10042")
    × (m.sla_policy_id ≡ keep_policy none (policy_id_of (find? (has_zammad_id 41) db.ticket_meta)))
    × ((other : ℕ)
        → other ≢ 41
        → find? (has_zammad_id other) db'.ticket_meta ≡ find? (has_zammad_id other) db.ticket_meta)
upsert_finds_example = upsert_finds 41 "10042" none db refl new_number_accepted
