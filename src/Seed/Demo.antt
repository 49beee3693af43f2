-- ===== src/Seed/Demo.antt =====
-- internal/seed/demo.go: the demo data. `now` is time.Now(), `new_uuid` gives the ids of the incidents,
-- and `schema_name` is core's name of a tenant's schema.
use ticketowl.Base.{
  String, Action, ℕ, List, Result, ◌∷◌, ok, some, ◌*◌, suc, Option, or_raise, pure, ◌>>=◌, Bool,
  if◌then◌else◌, filter, ◌++◌, none, [], panicked, any, err, attempt, str_eq, ◌||◌, false, ◌&&◌,
  zero, ◌==◌, ignore, not, failed,
}
use ticketowl.Base.Int.{pos, ◌+ℤ◌}
use ticketowl.Base.Table.{delete}
use ticketowl.Db.{Db, query}
use ticketowl.Seed.{Site, TenantInfo, ask_site, in_schema, acme, seed_run}
use ticketowl.Sla.Store as SlaStore
use ticketowl.Sla.Types.{Uuid, Time, Policy, State, StateLabel, breached, warning, on_track, met}
use ticketowl.Sla.Compute.{second}
use ticketowl.Ticket.Store as TicketStore
use ticketowl.Link.Store as LinkStore
use ticketowl.Auth.{has_slug, GlobalTenant, GlobalApiKey}

-- `uuid.Nil`, what the map of the policies has for a priority that it does not know
abbrev pub nil_uuid : Uuid
nil_uuid = 0

-- `policyIDs[priority]`: the last row with the priority
abbrev pub policy_id : String → List Policy → Uuid → Uuid
policy_id priority [] found = found
policy_id priority (p ∷ ps) found =
    policy_id priority ps (if str_eq p.priority priority then p.id else found)

unfoldable pub default_policies : Action Db (List Policy)
default_policies = query λ db. (ok (filter (λ (p : Policy). p.is_default) db.sla_policies), db)

-- UNIQUE (zammad_id), UNIQUE (zammad_number), and the foreign key to the policy
unfoldable pub insert_ticket : ℕ → String → Uuid → Action Db Uuid
insert_ticket zammad_id number policy = query λ db.
    let m = TicketStore.new_meta zammad_id number (some policy) db in
    let db' = record db { next_id = suc db.next_id; ticket_meta = db.ticket_meta ++ m ∷ [] } in
    if any (SlaStore.has_zammad_id zammad_id) db.ticket_meta
      || any (TicketStore.has_number number) db.ticket_meta
      || not (any (SlaStore.has_policy_id policy) db.sla_policies)
    then (err failed, db)
    else (ok m.id, db')

abbrev pub minutes_after : Time → ℕ → Time
minutes_after now n = now +ℤ pos (n * 60 * second)

abbrev pub demo_state : Uuid → ℕ → StateLabel → Time → Db → State
demo_state meta_id index label now db = record {
  id = db.next_id;
  ticket_meta_id = meta_id;
  response_due_at = some (minutes_after now (30 * suc index));
  resolution_due_at = some (minutes_after now (4 * suc index * 60));
  response_met_at = none;
  first_breach_alerted_at = none;
  label = label;
  paused = false;
  paused_at = none;
  accumulated_pause_secs = pos 0;
  updated_at = db.clock;
}

-- UNIQUE (ticket_meta_id), and the foreign key to the ticket
unfoldable pub insert_state : Time → Uuid → ℕ → StateLabel → Action Db (Unit {0})
insert_state now meta_id index label = query λ db.
    let s = demo_state meta_id index label now db in
    let db' = record db { next_id = suc db.next_id; sla_states = db.sla_states ++ s ∷ [] } in
    if any (SlaStore.has_meta_id meta_id) db.ticket_meta
      && not (any (SlaStore.of_ticket meta_id) db.sla_states)
    then (ok tt, db')
    else (err failed, db)

abbrev pub demo_tickets : List (ℕ × String × String)
demo_tickets =
    (1, "10001", "critical")
    ∷ (2, "10002", "high")
    ∷ (3, "10003", "normal")
    ∷ (4, "10004", "low")
    ∷ (5, "10005", "critical")
    ∷ (6, "10006", "high")
    ∷ (7, "10007", "normal")
    ∷ (8, "10008", "normal")
    ∷ (9, "10009", "low")
    ∷ (10, "10010", "high")
    ∷ []

abbrev pub demo_states : List (ℕ × StateLabel)
demo_states =
    (0, breached)
    ∷ (1, warning)
    ∷ (2, on_track)
    ∷ (3, on_track)
    ∷ (4, breached)
    ∷ (5, on_track)
    ∷ (6, met)
    ∷ (7, on_track)
    ∷ (8, on_track)
    ∷ (9, warning)
    ∷ []

abbrev pub demo_links : List (ℕ × String)
demo_links =
    (0, "inc-payment-crash-001")
    ∷ (1, "inc-auth-timeout-002")
    ∷ (4, "inc-db-connection-003")
    ∷ (5, "inc-ingress-502-004")
    ∷ (9, "inc-cert-expiry-005")
    ∷ []

-- `ticketMetaIDs[index]`, which panics out of range
abbrev pub element : List Uuid → ℕ → Option Uuid
element [] n = none
element (id ∷ ids) zero = some id
element (id ∷ ids) (suc n) = element ids n

abbrev pub meta_at : List Uuid → ℕ → Action Db Uuid
meta_at ids index = or_raise (element ids index) panicked

-- the ids of the tickets, in their order
unfoldable pub seed_tickets :
    List Policy → List (ℕ × String × String) → List Uuid → Action Db (List Uuid)
seed_tickets policies [] ids = pure ids
seed_tickets policies ((zammad_id, number, priority) ∷ rest) ids =
    insert_ticket zammad_id number (policy_id priority policies nil_uuid) >>= λ id.
    seed_tickets policies rest (ids ++ id ∷ [])

unfoldable pub seed_states : Time → List Uuid → List (ℕ × StateLabel) → Action Db (Unit {0})
seed_states now ids [] = pure tt
seed_states now ids ((index, label) ∷ rest) =
    meta_at ids index >>= λ id. insert_state now id index label >>= λ _. seed_states now ids rest

-- `demoUser`
abbrev pub demo_user : Uuid
demo_user = 1

unfoldable pub seed_links : (ℕ → Uuid) → List Uuid → List (ℕ × String) → Action Db (Unit {0})
seed_links new_uuid ids [] = pure tt
seed_links new_uuid ids ((index, slug) ∷ rest) = meta_at ids index >>= λ id.
    LinkStore.create_incident_link id (new_uuid index) demo_user slug >>= λ _.
    seed_links new_uuid ids rest

unfoldable pub seed_demo : Time → (ℕ → Uuid) → Action Db (Unit {0})
seed_demo now new_uuid = default_policies >>= λ policies.
    seed_tickets policies demo_tickets [] >>= λ ids.
    seed_states now ids demo_states >>= λ _. seed_links new_uuid ids demo_links

-- DROP SCHEMA IF EXISTS
unfoldable pub drop_schema : String → Action Site (Unit {0})
drop_schema schema =
    ask_site λ site.
      (ok tt, record site { schemas = λ s. if str_eq s schema then none else site.schemas s })

abbrev acme_ids : List GlobalTenant → List Uuid
acme_ids [] = []
acme_ids (t ∷ ts) = let rest = acme_ids ts in if has_slug acme t then t.id ∷ rest else rest

abbrev is_one_of : List Uuid → Uuid → Bool
is_one_of ids id = any (λ i. i == id) ids

-- the API keys and the local admins go with their tenant: ON DELETE CASCADE
unfoldable pub delete_acme : Action Site (Unit {0})
delete_acme = ask_site λ site.
    let a = site.accounts in
    let gone = is_one_of (acme_ids a.tenants) in
    let a' = record a {
      tenants = delete (has_slug acme) a.tenants;
      api_keys = delete (λ (k : GlobalApiKey). gone k.tenant_id) a.api_keys;
    } in
    (ok tt, record site { accounts = a'; admins = delete (λ l. gone l.tenant_id) site.admins })

-- EXISTS; an error leaves `exists` false
abbrev pub acme_exists : Action Site Bool
acme_exists = ask_site λ site. (ok (any (has_slug acme) site.accounts.tenants), site)

abbrev pub found_true : Result Bool → Bool
found_true (ok b) = b
found_true (err e) = false

-- the errors of the two statements are not looked at
abbrev pub drop_if : String → Bool → Action Site (Unit {0})
drop_if schema exists =
    if exists then (ignore (drop_schema schema) >>= λ _. ignore delete_acme) else pure tt

module _ (provision : String → String → Action Site TenantInfo)
    (migrate : String → Action Site (Unit {0})) (bcrypt : String → Option String)
    (hash_api_key : String → String) (schema_name : String → String) where
  -- `RunDemo`
  unfoldable pub demo_run : String → String → String → Time → (ℕ → Uuid) → Action Site (Unit {0})
  demo_run admin_password url token now new_uuid = attempt acme_exists >>= λ exists.
      drop_if (schema_name acme) (found_true exists) >>= λ _.
      seed_run provision migrate bcrypt hash_api_key admin_password url token >>= λ _.
      ask_site (pure tt) >>= λ _.
      ask_site (pure tt) >>= λ _. in_schema (schema_name acme) (seed_demo now new_uuid)
