-- ===== src/Worker/Handler/Close/Laws.antt =====
-- internal/worker/resolve.go: the calls that `handleIncidentResolved` makes.
use ticketowl.Worker.Handler.Close.{close_linked, close_loop, close_all, handle_incident_resolved}
use ticketowl.Worker.Handler.Context.{close_request, zammad_client, on_remote, on_db, acquire_conn}
use ticketowl.Sla.Store as SlaStore
use ticketowl.Ticket.Store as TicketStore
use ticketowl.Link.Store as LinkStore
use ticketowl.Admin.Store as AdminStore
use ticketowl.Zammad.Api.{ZammadClient}
use ticketowl.Db.{Db, query}
use ticketowl.Base.{
  String, Option, List, ℕ, ◌≡◌, false, some, or_raise, none, ◌∷◌, find?, suc, ok, [], no_rows, refl,
  Option-cases, ap, inl, ◌∙◌, inr, ignore, filter, >>=-err, ◌==◌, >>=-ok, pure, ◌>>=◌, invalid,
}
use ticketowl.Sla.Types.{Uuid}
use ticketowl.Ticket.Types.{Meta}
use ticketowl.Link.Types.{IncidentLink}
use ticketowl.Worker.Handler.Queries.{ticked, on_db_ran, acquire_ok}
use ticketowl.Base.Sort.{sort_by}
use ticketowl.Admin.Types.{ZammadConfig}
use ticketowl.Worker.Types.{NightOwlEvent}

module _ {R : Type 0} (client : ZammadClient R) where
  abbrev close_meta : Option Meta → R → R
  close_meta none r = r
  close_meta (some m) r = (client.update_ticket m.zammad_id close_request r).1

  -- The remote state after one close call for the ticket of each link, in order, whatever the calls
  -- answer.
  abbrev pub closes : List Meta → List IncidentLink → R → R
  closes metas [] r = r
  closes metas (l ∷ links) r =
      closes metas links (close_meta (find? (SlaStore.has_meta_id l.ticket_meta_id) metas) r)

-- the database after some number of queries
abbrev pub counted : Db → ℕ → Db
counted db n = record db { queries = n }

-- one query for each link
abbrev pub queries_after : List IncidentLink → ℕ → ℕ
queries_after [] q = q
queries_after (l ∷ links) q = queries_after links (suc q)

get_by_id_read :
    (id : Uuid) (db : Db)
    → ((k : ℕ) → db.down k ≡ false)
    → TicketStore.get_by_id id db
      ≡ or_raise (find? (SlaStore.has_meta_id id) db.ticket_meta) no_rows (ticked db)
unfolding TicketStore.get_by_id query
get_by_id_read id db up = rw (up db.queries) refl

module _ {R : Type 0} (zammad : String → String → ZammadClient R)
    (parse_uuid : String → Option Uuid) (client : ZammadClient R) (db : Db)
    (up : (k : ℕ) → db.down k ≡ false) where
  close_linked_ran :
      (l : IncidentLink) (q : ℕ) (r : R)
      → (close_linked zammad parse_uuid client l (counted db q, r)).1 ≡ (
        counted db (suc q),
        close_meta client (find? (SlaStore.has_meta_id l.ticket_meta_id) db.ticket_meta) r,
      )
  unfolding close_linked
  close_linked_ran l q r =
      let lookup = TicketStore.get_by_id l.ticket_meta_id in
      let close =
        λ (m : Meta). ignore (on_remote (client.update_ticket m.zammad_id close_request)) in
      let read = get_by_id_read l.ticket_meta_id (counted db q) up in
      elim (Option-cases (find? (SlaStore.has_meta_id l.ticket_meta_id) db.ticket_meta)) [
        | inl h ↦ rw h (
            ap (λ x. x.1)
              (>>=-err (on_db lookup) close (counted db q, r)
                (on_db_ran lookup (counted db q) r (rw h at read))))
        | inr (m, h) ↦ rw h (
            ap (λ x. x.1)
              (>>=-ok (on_db lookup) close (counted db q, r)
                (on_db_ran lookup (counted db q) r (rw h at read))))
      ]

  close_loop_ran :
      (links : List IncidentLink) (q : ℕ) (r : R)
      → close_loop zammad parse_uuid client links (counted db q, r)
        ≡ (ok tt, (counted db (queries_after links q), closes client db.ticket_meta links r))
  unfolding close_loop
  close_loop_ran [] q r = refl
  close_loop_ran (l ∷ links) q r =
      ap (close_loop zammad parse_uuid client links) (close_linked_ran l q r)
      ∙ close_loop_ran links (suc q)
          (close_meta client (find? (SlaStore.has_meta_id l.ticket_meta_id) db.ticket_meta) r)

get_zammad_config_read :
    (db : Db)
    → ((k : ℕ) → db.down k ≡ false)
    → AdminStore.get_zammad_config db
      ≡ or_raise (AdminStore.first_row db.zammad_config) no_rows (ticked db)
unfolding AdminStore.get_zammad_config query
get_zammad_config_read db up = rw (up db.queries) refl

get_zammad_config_ok :
    (c : ZammadConfig) (rest : List ZammadConfig) (db : Db)
    → ((k : ℕ) → db.down k ≡ false)
    → db.zammad_config ≡ c ∷ rest
    → AdminStore.get_zammad_config db ≡ (ok c, ticked db)
get_zammad_config_ok c rest db up h =
    get_zammad_config_read db up
    ∙ ap (λ cs. or_raise (AdminStore.first_row cs) no_rows (ticked db)) h

zammad_client_ok :
    {R : Type 0} (zammad : String → String → ZammadClient R) (c : ZammadConfig)
    (rest : List ZammadConfig) (db : Db) (r : R)
    → ((k : ℕ) → db.down k ≡ false)
    → db.zammad_config ≡ c ∷ rest
    → zammad_client zammad (db, r) ≡ (ok (zammad c.url c.api_token), (ticked db, r))
unfolding zammad_client
zammad_client_ok {R} zammad c rest db r up h =
    >>=-ok (on_db AdminStore.get_zammad_config) (λ cfg. pure (zammad cfg.url cfg.api_token)) (db, r)
      (on_db_ran AdminStore.get_zammad_config db r (get_zammad_config_ok c rest db up h))

list_links_ok :
    (id : Uuid) (db : Db)
    → ((k : ℕ) → db.down k ≡ false)
    → LinkStore.list_incident_links_by_incident_id id db ≡ (
      ok (
          sort_by
            (λ (l : IncidentLink). l.created_at)
            (filter (λ (l : IncidentLink). l.incident_id == id) db.incident_links)),
      ticked db,
    )
unfolding LinkStore.list_incident_links_by_incident_id query
list_links_ok id db up = rw (up db.queries) refl

close_all_ran :
    {R : Type 0} (zammad : String → String → ZammadClient R) (parse_uuid : String → Option Uuid)
    (c : ZammadConfig) (rest : List ZammadConfig) (links : List IncidentLink) (db : Db) (r : R)
    → ((k : ℕ) → db.down k ≡ false)
    → db.zammad_config ≡ c ∷ rest
    → (n : ℕ) × (close_all zammad parse_uuid links (db, r)
        ≡ (ok tt, (counted db n, closes (zammad c.url c.api_token) db.ticket_meta links r)))
unfolding close_all
close_all_ran zammad parse_uuid c rest [] db r up h = (db.queries, refl)
close_all_ran zammad parse_uuid c rest (l ∷ links) db r up h =
    let client = zammad c.url c.api_token in
    (
      queries_after (l ∷ links) (suc db.queries),
      >>=-ok (zammad_client zammad) (λ z. close_loop zammad parse_uuid z (l ∷ links)) (db, r)
            (zammad_client_ok zammad c rest db r up h)
          ∙ close_loop_ran zammad parse_uuid client db up (l ∷ links) (suc db.queries) r,
    )

-- With every query answered and Zammad configured, a resolved incident makes one call that closes the
-- ticket for each of its links, in the order in which they were made, whatever the other calls
-- answer; nothing in the database changes.
pub resolved_closes_each :
    {R : Type 0} (zammad : String → String → ZammadClient R) (parse_uuid : String → Option Uuid)
    (c : ZammadConfig) (rest : List ZammadConfig) (evt : NightOwlEvent) (id : Uuid) (db : Db)
    (r : R)
    → ((k : ℕ) → db.down k ≡ false)
    → db.zammad_config ≡ c ∷ rest
    → parse_uuid evt.incident_id ≡ some id
    → let links =
        sort_by
          (λ (l : IncidentLink). l.created_at)
          (filter (λ (l : IncidentLink). l.incident_id == id) db.incident_links) in
      (n : ℕ) × (handle_incident_resolved zammad parse_uuid evt (db, r)
        ≡ (ok tt, (counted db n, closes (zammad c.url c.api_token) db.ticket_meta links r)))
unfolding handle_incident_resolved
resolved_closes_each {R} zammad parse_uuid c rest evt id db r up h parsed =
    let list = LinkStore.list_incident_links_by_incident_id id in
    let links =
      sort_by (λ (l : IncidentLink). l.created_at)
        (filter (λ (l : IncidentLink). l.incident_id == id) db.incident_links) in
    let (n, closed) = close_all_ran zammad parse_uuid c rest links (ticked (ticked db)) r up h in
    let after = λ (id : Uuid).
      on_db (LinkStore.list_incident_links_by_incident_id id) >>= close_all zammad parse_uuid in
    (
      n,
      >>=-ok acquire_conn (λ _. or_raise (parse_uuid evt.incident_id) invalid >>= after) (db, r)
            (acquire_ok db r up)
          ∙ >>=-ok (or_raise (parse_uuid evt.incident_id) invalid) after (ticked db, r)
              (rw parsed refl)
          ∙ >>=-ok (on_db list) (close_all zammad parse_uuid) (ticked db, r)
              (on_db_ran list (ticked db) r (list_links_ok id (ticked db) up))
          ∙ closed,
    )
