-- ===== src/Customer/Handler/Laws.antt =====
-- internal/customer/handler.go over the tenant's database and the remote services: what a customer is
-- answered about a ticket of another organisation.
use ticketowl.Base.{
  ℕ, String, some, Result, ok, Action, false, ◌≡◌, ◌≢◌, ap, ◌∙◌, suc, str_eq, find?, pure, ◌>>=◌,
  >>=-ok, Option, err, forbidden,
}
use ticketowl.Sla.Types.{Uuid}
use ticketowl.Db.{Db, query, row}
use ticketowl.Admin.Types.{ZammadConfig, CustomerOrg}
use ticketowl.Admin.Store.{get_zammad_config, first_row}
use ticketowl.ClientResolver.{zammad_client}
use ticketowl.Zammad.Types.{Ticket}
use ticketowl.Worker.Handler.Context.{on_db, on_remote}
use ticketowl.Customer.Types.{Org, CustomerStore, PortalZammad}
use ticketowl.Customer.Store.{customer_store, get_org, has_org_id, org_of}
use ticketowl.Customer.Service.{get_my_ticket, get_linked_articles, add_reply}
use ticketowl.Customer.Service.Laws.{foreign_ticket_refused}
use ticketowl.Customer.Handler.{
  ReplyRequest, handle_get_ticket, handle_get_articles, handle_reply, portal_failed, no_zammad,
  Identity,
}
use ticketowl.Http.Respond.{respond, respond_error, call-ok, call-err, Handled, call}

abbrev pub store_beside : (R : Type 0) → CustomerStore (Db × R)
store_beside R = record {
  get_org = λ id. on_db (customer_store.get_org id);
  get_ticket_meta_id = λ id. on_db (customer_store.get_ticket_meta_id id);
  list_article_links = λ id. on_db (customer_store.list_article_links id);
  get_sla_state = λ id. on_db (customer_store.get_sla_state id);
}

abbrev pub zammad_beside : {R : Type 0} → PortalZammad R → PortalZammad (Db × R)
zammad_beside z = record {
  list_tickets = λ opts. on_remote (z.list_tickets opts);
  get_ticket = λ id. on_remote (z.get_ticket id);
  list_articles = λ id. on_remote (z.list_articles id);
  create_article = λ req. on_remote (z.create_article req);
}

-- the client of the tenant's configuration
abbrev pub resolve_beside :
    {R : Type 0} → (String → String → PortalZammad R) → Action (Db × R) (PortalZammad (Db × R))
resolve_beside make = on_db (zammad_client make) >>= λ z. pure (zammad_beside z)

config_found :
    (db : Db) {cfg : ZammadConfig}
    → db.down db.queries ≡ false
    → first_row db.zammad_config ≡ some cfg
    → get_zammad_config db ≡ (ok cfg, record db { queries = suc db.queries })
unfolding get_zammad_config query
config_found db up h = rw up (ap (λ o. row o (record db { queries = suc db.queries })) h)

resolved_client :
    {R : Type 0} (make : String → String → PortalZammad R) (db : Db) (r : R) {cfg : ZammadConfig}
    → db.down db.queries ≡ false
    → first_row db.zammad_config ≡ some cfg
    → resolve_beside make (db, r) ≡ (
      ok (zammad_beside (make cfg.url cfg.api_token)),
      (record db { queries = suc db.queries }, r),
    )
unfolding zammad_client
resolved_client {R} make db r {cfg} up h =
    >>=-ok (on_db (zammad_client make)) (λ z. pure (zammad_beside z)) (db, r)
      (ap (λ (x : Result (PortalZammad R) × Db). (x.0, (x.1, r)))
        (>>=-ok get_zammad_config (λ c. pure (make c.url c.api_token)) db (config_found db up h)))

org_found :
    (org_id : Uuid) (db : Db) {o : Org}
    → db.down db.queries ≡ false
    → org_of (find? (has_org_id org_id) db.customer_orgs) ≡ some o
    → get_org org_id db ≡ (ok o, record db { queries = suc db.queries })
unfolding get_org query
org_found org_id db up h = rw up (ap (λ o. row o (record db { queries = suc db.queries })) h)

-- A handler that ends with a forbidden call.
forbidden_answer :
    {S A B : Type 0} (resolve : Action S (PortalZammad S)) (m : PortalZammad S → Action S B)
    (message : String) (k : B → Handled S A) (z : PortalZammad S) (s s1 s2 : S)
    → resolve s ≡ (ok z, s1)
    → m z s1 ≡ (err forbidden, s2)
    → call resolve no_zammad (λ z. call (m z) (portal_failed message) k) s
      ≡ respond_error 403 "forbidden" "ticket not accessible" s2
forbidden_answer resolve m message k z s s1 s2 h g =
    call-ok resolve no_zammad (λ z. call (m z) (portal_failed message) k) s h
    ∙ call-err (m z) (portal_failed message) k s1 g

-- A customer whose organisation has a Zammad organisation, asking about a ticket of another one, is
-- answered 403 by the three endpoints of a ticket, when the tenant's Zammad is configured, the queries
-- are answered and Zammad returns the ticket: the database has counted two queries, and Zammad has seen
-- nothing but the request for the ticket, so no article is shown and no reply is sent.
pub foreign_ticket_forbidden :
    {R : Type 0} (make : String → String → PortalZammad R) (db : Db) (r r' : R) (cfg : ZammadConfig)
    (org_id : Uuid) (org : CustomerOrg) (zammad_org zammad_id : ℕ) (t : Ticket) (req : ReplyRequest)
    → ((k : ℕ) → db.down k ≡ false)
    → first_row db.zammad_config ≡ some cfg
    → find? (has_org_id org_id) db.customer_orgs ≡ some org
    → org.zammad_org_id ≡ some zammad_org
    → (make cfg.url cfg.api_token).get_ticket zammad_id r ≡ (ok t, r')
    → t.organisation_id ≢ zammad_org
    → str_eq req.body "" ≡ false
    → let caller : Option Identity = some (record { org_id = some org_id }) in
      let after : Db × R = (record db { queries = suc (suc db.queries) }, r') in
      let resolve = resolve_beside make in
      let store = store_beside R in
      (handle_get_ticket resolve store caller (some zammad_id) (db, r)
        ≡ respond_error 403 "forbidden" "ticket not accessible" after)
      × (handle_get_articles resolve store caller (some zammad_id) (db, r)
          ≡ respond_error 403 "forbidden" "ticket not accessible" after)
      × (handle_reply resolve store caller (some zammad_id) (some req) (db, r)
          ≡ respond_error 403 "forbidden" "ticket not accessible" after)
unfolding handle_get_ticket handle_get_articles handle_reply
foreign_ticket_forbidden {R} make db r r' cfg org_id org zammad_org zammad_id t req up configured
      found linked loaded foreign filled =
    let store = store_beside R in
    let z = zammad_beside (make cfg.url cfg.api_token) in
    let db1 = record db { queries = suc db.queries } in
    let db2 = record db { queries = suc (suc db.queries) } in
    let client = resolved_client make db r (up db.queries) configured in
    let refused =
      foreign_ticket_refused store z org_id zammad_id (db1, r) (db2, r) (db2, r') _ zammad_org t
        req.body
        (ap (λ (x : Result Org × Db). (x.0, (x.1, r)))
          (org_found org_id db1 (up (suc db.queries)) (ap org_of found)))
        linked (ap (λ (x : Result Ticket × R). (x.0, (db2, x.1))) loaded) foreign in
    (
      forbidden_answer (resolve_beside make) (λ z. get_my_ticket store z org_id zammad_id)
          "failed to get ticket" (respond 200) z (db, r) (db1, r) (db2, r') client refused.0,
      forbidden_answer (resolve_beside make) (λ z. get_linked_articles store z org_id zammad_id)
          "failed to get articles" (respond 200) z (db, r) (db1, r) (db2, r') client refused.1,
      rw filled (
          forbidden_answer (resolve_beside make) (λ z. add_reply store z org_id zammad_id req.body)
            "failed to add reply" (λ done. respond 201 "ok") z (db, r) (db1, r) (db2, r') client
            refused.2),
    )
