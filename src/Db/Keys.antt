-- ===== src/Db/Keys.antt =====
-- The tables that hang on a ticket's metadata: their unique keys, their foreign keys
-- (migrations/tenant/0006 to 0009), and the statements of the stores that write them.
pub mod Owners
mod Numbers
pub mod Laws
pub mod History
mod Tests
use ticketowl.Base.{List, Bool, ℕ, ◌==◌, String, ◌∷◌, any, All, Option, ◌≡◌, true, []}
use ticketowl.Base.Unique.{Unique}
use ticketowl.Ticket.Store as TicketStore
use ticketowl.Sla.Store as SlaStore
use ticketowl.Link.Store as LinkStore
use ticketowl.Comment.Store as CommentStore
use ticketowl.Worker.Store as PollerStore
use ticketowl.Ticket.Types.{Meta}
use ticketowl.Sla.Types.{State, Uuid, Time}
use ticketowl.Link.Types.{IncidentLink, ArticleLink, PostMortemLink}
use ticketowl.Comment.Types.{InternalNote}
use ticketowl.Db.{Db}

abbrev pub same_ticket : Meta → Meta → Bool
same_ticket x y = SlaStore.has_zammad_id x.zammad_id y

abbrev pub same_number : Meta → Meta → Bool
same_number x y = TicketStore.has_number x.zammad_number y

abbrev pub same_state : State → State → Bool
same_state x y = SlaStore.of_ticket x.ticket_meta_id y

abbrev pub same_incident : IncidentLink → IncidentLink → Bool
same_incident x y = LinkStore.links_incident x.ticket_meta_id x.incident_id y

abbrev pub same_article : ArticleLink → ArticleLink → Bool
same_article x y = LinkStore.links_article x.ticket_meta_id x.article_id y

abbrev pub same_postmortem : PostMortemLink → PostMortemLink → Bool
same_postmortem x y = LinkStore.postmortem_of x.ticket_meta_id y

abbrev pub same_note : InternalNote → InternalNote → Bool
same_note x y = y.id == x.id

abbrev pub Known : List Meta → Uuid → Type 0
Known metas id = any (SlaStore.has_meta_id id) metas ≡ true

-- No two rows have the same key, and each refers to a ticket.
abbrev pub Owned : {A : Type 0} → (A → A → Bool) → (A → Uuid) → List Meta → List A → Type 0
Owned same owner metas xs = Unique same xs × All (λ x. Known metas (owner x)) xs

-- UNIQUE (zammad_id) and UNIQUE (zammad_number)
abbrev pub Tickets : List Meta → Type 0
Tickets metas = Unique same_ticket metas × Unique same_number metas

abbrev pub Keys : Db → Type 0
Keys db =
    Tickets db.ticket_meta
    × Owned same_state (λ s. s.ticket_meta_id) db.ticket_meta db.sla_states
    × Owned same_incident (λ l. l.ticket_meta_id) db.ticket_meta db.incident_links
    × Owned same_article (λ l. l.ticket_meta_id) db.ticket_meta db.article_links
    × Owned same_postmortem (λ l. l.ticket_meta_id) db.ticket_meta db.postmortem_links
    × Owned same_note (λ n. n.ticket_meta_id) db.ticket_meta db.internal_notes

-- A statement of a store with its arguments, or the time that goes on.
pub data Statement : Type 0 where
  upsert_ticket : ℕ → String → Option Uuid → Statement
  drop_policy : Uuid → Statement
  save_state poll_state : State → Statement
  link_incident : Uuid → Uuid → Uuid → String → Statement
  unlink_incident : Uuid → Uuid → Statement
  link_article : Uuid → Uuid → Uuid → String → String → Statement
  unlink_article : Uuid → Uuid → Statement
  link_postmortem : Uuid → Uuid → Uuid → String → Statement
  add_note : InternalNote → Statement
  clock_moves : Time → Statement

-- The database after a statement, also one that fails.
unfoldable pub perform : Statement → Db → Db
perform (upsert_ticket zammad_id number policy) db =
    (TicketStore.upsert zammad_id number policy db).1
perform (drop_policy id) db = (SlaStore.delete_policy id db).1
perform (save_state state) db = (SlaStore.upsert_state state db).1
perform (poll_state state) db = (PollerStore.upsert_state state db).1
perform (link_incident meta_id incident_id linked_by slug) db =
    (LinkStore.create_incident_link meta_id incident_id linked_by slug db).1
perform (unlink_incident meta_id incident_id) db =
    (LinkStore.delete_incident_link meta_id incident_id db).1
perform (link_article meta_id article_id linked_by slug title) db =
    (LinkStore.create_article_link meta_id article_id linked_by slug title db).1
perform (unlink_article meta_id article_id) db =
    (LinkStore.delete_article_link meta_id article_id db).1
perform (link_postmortem meta_id postmortem_id created_by url) db =
    (LinkStore.create_postmortem_link meta_id postmortem_id created_by url db).1
perform (add_note note) db = (CommentStore.create_note note db).1
perform (clock_moves now) db = record db { clock = now }

unfoldable pub perform_all : List Statement → Db → Db
perform_all [] db = db
perform_all (w ∷ ws) db = perform_all ws (perform w db)
