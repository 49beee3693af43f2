-- ===== src/Comment/Store.antt =====
-- internal/comment/store.go: the internal notes.
use ticketowl.Sla.Store.{has_zammad_id, has_meta_id}
use ticketowl.Sla.Types.{Uuid}
use ticketowl.Comment.Types.{InternalNote}
use ticketowl.Base.{
  ℕ, Bool, Action, ◌==◌, List, ok, if◌then◌else◌, any, filter, ◌&&◌, find?, not, ◌++◌, ◌∷◌, [], err,
  failed,
}
use ticketowl.Db.{Db, query, row}
use ticketowl.Base.Sort.{sort_by}
use ticketowl.Ticket.Types.{meta_id_of}

abbrev of_ticket : Uuid → InternalNote → Bool
of_ticket meta_id n = n.ticket_meta_id == meta_id

unfoldable pub list_by_ticket_meta_id : Uuid → Action Db (List InternalNote)
list_by_ticket_meta_id meta_id =
    query
      λ db. (ok (sort_by (λ n. n.created_at) (filter (of_ticket meta_id) db.internal_notes)), db)

abbrev has_id : Uuid → InternalNote → Bool
has_id id n = n.id == id

-- the statement leaves both times to now()
unfoldable pub create_note : InternalNote → Action Db (Unit {0})
create_note note = query λ db.
    let row = record note { created_at = db.clock; updated_at = db.clock } in
    if any (has_meta_id note.ticket_meta_id) db.ticket_meta
      && not (any (has_id note.id) db.internal_notes)
    then (ok tt, record db { internal_notes = db.internal_notes ++ row ∷ [] })
    else (err failed, db)

unfoldable pub note_meta_id : ℕ → Action Db Uuid
note_meta_id zammad_id =
    query λ db. row (meta_id_of (find? (has_zammad_id zammad_id) db.ticket_meta)) db
