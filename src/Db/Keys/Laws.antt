-- ===== src/Db/Keys/Laws.antt =====
-- The statements of the stores keep the unique and the foreign keys.
use ticketowl.Base.{ℕ, List, String, Option, ◌∷◌, any, [], ap, sym, refl, arith, ◌∙◌}
use ticketowl.Ticket.Store as TicketStore
use ticketowl.Sla.Store as SlaStore
use ticketowl.Link.Store as LinkStore
use ticketowl.Comment.Store as CommentStore
use ticketowl.Worker.Store as PollerStore
use ticketowl.Base.Table.{upsert}
use ticketowl.Db.Keys.{
  perform, perform_all, Statement, same_state, Keys, Known, upsert_ticket, Owned, drop_policy,
  same_incident, same_article, save_state, same_postmortem, same_note, poll_state, same_ticket,
  link_incident, unlink_incident, same_number, link_article, unlink_article, link_postmortem,
  add_note, clock_moves,
}
use ticketowl.Worker.Handler.Queries.{eq_sound}
use ticketowl.Sla.Types.{Uuid, State}
use ticketowl.Comment.Types.{InternalNote}
use ticketowl.Db.{Db}
use ticketowl.Db.Keys.Owners.{
  Kept, query-Kept, guarded, Owned-filter, Owned-insert, Owned-upsert, Keys-metas, incidents_sym,
  articles_sym, states_sym, postmortems_sym, notes_sym, tickets_sym, &&-true,
}
use ticketowl.Base.Unique.{Unique-upsert, Unique-update, any-upsert_true, any-update}
use ticketowl.Db.Keys.Numbers.{numbers-upsert, numbers_sym}

create_incident_link-Kept :
    (meta_id incident_id linked_by : Uuid) (slug : String)
    → Kept (LinkStore.create_incident_link meta_id incident_id linked_by slug)
unfolding LinkStore.create_incident_link
create_incident_link-Kept meta_id incident_id linked_by slug = query-Kept _ λ db (m, s, i, a, p, n).
    guarded _ _ _
      (λ h. (
        m,
        s,
        Owned-insert same_incident (λ l. l.ticket_meta_id) incidents_sym db.ticket_meta
            db.incident_links _ h i,
        a,
        p,
        n,
      ))
      (m, s, i, a, p, n)

create_article_link-Kept :
    (meta_id article_id linked_by : Uuid) (slug title : String)
    → Kept (LinkStore.create_article_link meta_id article_id linked_by slug title)
unfolding LinkStore.create_article_link
create_article_link-Kept meta_id article_id linked_by slug title =
    query-Kept _ λ db (m, s, i, a, p, n).
      guarded _ _ _
        (λ h. (
          m,
          s,
          i,
          Owned-insert same_article (λ l. l.ticket_meta_id) articles_sym db.ticket_meta
              db.article_links _ h a,
          p,
          n,
        ))
        (m, s, i, a, p, n)

create_postmortem_link-Kept :
    (meta_id postmortem_id created_by : Uuid) (url : String)
    → Kept (LinkStore.create_postmortem_link meta_id postmortem_id created_by url)
unfolding LinkStore.create_postmortem_link
create_postmortem_link-Kept meta_id postmortem_id created_by url =
    query-Kept _ λ db (m, s, i, a, p, n).
      guarded _ _ _
        (λ h. (
          m,
          s,
          i,
          a,
          Owned-insert same_postmortem (λ l. l.ticket_meta_id) postmortems_sym db.ticket_meta
              db.postmortem_links _ h p,
          n,
        ))
        (m, s, i, a, p, n)

create_note-Kept : (note : InternalNote) → Kept (CommentStore.create_note note)
unfolding CommentStore.create_note
create_note-Kept note = query-Kept _ λ db (m, s, i, a, p, n).
    guarded _ _ _
      (λ h. (
        m,
        s,
        i,
        a,
        p,
        Owned-insert same_note (λ l. l.ticket_meta_id) notes_sym db.ticket_meta db.internal_notes _
            h n,
      ))
      (m, s, i, a, p, n)

delete_incident_link-Kept :
    (meta_id incident_id : Uuid) → Kept (LinkStore.delete_incident_link meta_id incident_id)
unfolding LinkStore.delete_incident_link
delete_incident_link-Kept meta_id incident_id = query-Kept _ λ db (m, s, i, a, p, n).
    let less =
      Owned-filter same_incident (λ l. l.ticket_meta_id) db.ticket_meta _ db.incident_links i in
    guarded _ _ _ (λ h. (m, s, less, a, p, n)) (m, s, i, a, p, n)

delete_article_link-Kept :
    (meta_id article_id : Uuid) → Kept (LinkStore.delete_article_link meta_id article_id)
unfolding LinkStore.delete_article_link
delete_article_link-Kept meta_id article_id = query-Kept _ λ db (m, s, i, a, p, n).
    let less =
      Owned-filter same_article (λ l. l.ticket_meta_id) db.ticket_meta _ db.article_links a in
    guarded _ _ _ (λ h. (m, s, i, less, p, n)) (m, s, i, a, p, n)

upsert_state-Kept : (state : State) → Kept (SlaStore.upsert_state state)
unfolding SlaStore.upsert_state
upsert_state-Kept state = query-Kept _ λ db (m, s, i, a, p, n).
    guarded _ _ _ (λ h. (m, put db (&&-true _ _ h).1 s, i, a, p, n)) (m, s, i, a, p, n)
  where
    owner_of : State → Uuid
    owner_of s = s.ticket_meta_id

    put :
        (db : Db)
        → Known db.ticket_meta state.ticket_meta_id
        → Owned same_state owner_of db.ticket_meta db.sla_states
        → Owned same_state owner_of db.ticket_meta (
            upsert
              (SlaStore.of_ticket state.ticket_meta_id)
              (SlaStore.keep_id state)
              state
              db.sla_states)
    put db known =
        Owned-upsert same_state owner_of states_sym db.ticket_meta (SlaStore.keep_id state) state
          (λ x same.
            ap (λ id y. SlaStore.of_ticket id y)
              (sym (eq_sound x.ticket_meta_id state.ticket_meta_id same)))
          (λ x. refl) known db.sla_states

poll_state-Kept : (state : State) → Kept (PollerStore.upsert_state state)
unfolding PollerStore.upsert_state PollerStore.on_connection
poll_state-Kept state = query-Kept _ (query-Kept _ (upsert_state-Kept state))

upsert-Kept :
    (zammad_id : ℕ) (number : String) (policy : Option Uuid)
    → Kept (TicketStore.upsert zammad_id number policy)
unfolding TicketStore.upsert TicketStore.accepted
upsert-Kept zammad_id number policy = query-Kept _ λ db k.
    let fresh = TicketStore.new_meta zammad_id number policy db in
    let merge = TicketStore.merge_meta number policy db.clock in
    let taken = any (TicketStore.number_taken zammad_id number) db.ticket_meta in
    guarded _ _ _
      (λ h.
        Keys-metas db _
          (
            Unique-upsert same_ticket tickets_sym merge fresh (λ x _. refl) db.ticket_meta k.0.0,
            numbers-upsert zammad_id number merge fresh refl refl (λ x. refl) db.ticket_meta
                (ground (arith, h)) k.0.0 k.0.1,
          )
          (λ id.
            any-upsert_true (SlaStore.has_meta_id id) (SlaStore.has_zammad_id zammad_id) merge fresh
              (λ x. refl) db.ticket_meta)
          k)
      k

delete_policy-Kept : (id : Uuid) → Kept (SlaStore.delete_policy id)
unfolding SlaStore.delete_policy
delete_policy-Kept id = query-Kept _ λ db k.
    guarded _ _ _
      (λ h.
        Keys-metas db _
          (
            Unique-update same_ticket tickets_sym _ _ (λ x. refl) db.ticket_meta k.0.0,
            Unique-update same_number numbers_sym _ _ (λ x. refl) db.ticket_meta k.0.1,
          )
          (λ m known. any-update (SlaStore.has_meta_id m) _ _ (λ x. refl) db.ticket_meta ∙ known) k)
      k

-- A statement of the stores, whether it succeeds, is refused or fails, leaves the unique keys and the references valid.
perform-Keys : (w : Statement) (db : Db) → Keys db → Keys (perform w db)
unfolding perform
perform-Keys (upsert_ticket zammad_id number policy) db k = upsert-Kept zammad_id number policy db k
perform-Keys (drop_policy id) db k = delete_policy-Kept id db k
perform-Keys (save_state state) db k = upsert_state-Kept state db k
perform-Keys (poll_state state) db k = poll_state-Kept state db k
perform-Keys (link_incident m i by slug) db k = create_incident_link-Kept m i by slug db k
perform-Keys (unlink_incident m i) db k = delete_incident_link-Kept m i db k
perform-Keys (link_article m a by slug title) db k = create_article_link-Kept m a by slug title db k
perform-Keys (unlink_article m a) db k = delete_article_link-Kept m a db k
perform-Keys (link_postmortem m p by url) db k = create_postmortem_link-Kept m p by url db k
perform-Keys (add_note note) db k = create_note-Kept note db k
perform-Keys (clock_moves now) db k = k

-- The UNIQUE columns and the references to tickets hold after every sequence of statements.
Keys-hold : (ws : List Statement) (db : Db) → Keys db → Keys (perform_all ws db)
unfolding perform_all
Keys-hold [] db k = k
Keys-hold (w ∷ ws) db k = Keys-hold ws (perform w db) (perform-Keys w db k)
