-- ===== src/Db/Keys/Tests.antt =====
-- Statements of the stores on a database with one ticket.
use ticketowl.Base.{List, ◌∷◌, [], none, refl, ◌≡◌, some}
use ticketowl.Db.Keys.{
  Statement, perform_all, upsert_ticket, link_incident, link_article, save_state, poll_state,
  link_postmortem, unlink_incident, drop_policy, clock_moves,
}
use ticketowl.Db.Keys.History.{ticket_row, tickets_stay}
use ticketowl.Db.Keys.Laws.{}
use ticketowl.Db.Sample.{empty_db, sample_meta, sample_state}
use ticketowl.Db.{Db}
use ticketowl.Base.Int.{pos}
use ticketowl.Ticket.Types.{Meta}

abbrev with_ticket : Db
with_ticket = record empty_db { ticket_meta = sample_meta ∷ [] }

-- The third statement repeats a key, the fourth names no ticket.
abbrev statements : List Statement
statements =
    upsert_ticket 42 "10042" none
    ∷ link_incident 7 3 1 "db-down"
    ∷ link_incident 7 3 2 "again"
    ∷ link_article 8 3 1 "slug" "title"
    ∷ save_state sample_state
    ∷ poll_state (record sample_state { id = 2 })
    ∷ link_postmortem 7 5 1 "url"
    ∷ unlink_incident 7 3
    ∷ drop_policy 4
    ∷ clock_moves (pos 9)
    ∷ []

tickets_stay_example :
    (m : Meta) × (ticket_row 41 (perform_all statements with_ticket) ≡ some m)
    × (m.id ≡ 7)
    × (m.created_at ≡ pos 0)
tickets_stay_example = tickets_stay 41 statements with_ticket refl
