-- ===== src/Link/Service/Laws.antt =====
-- internal/link/service.go: what stands behind a link that was made.
use ticketowl.Base.{
  String, Option, some, ok, or_raise, failed, >>=-inv, ◌∙◌, refl, ap, ◌≡◌, ℕ, ok_inj, none, sym,
  Result,
}
use ticketowl.NightOwl.Types.{Incident}
use ticketowl.Link.Types.{IncidentLink}
use ticketowl.Sla.Types.{Uuid}
use ticketowl.Link.Service.{
  NightOwlClient, BookOwlClient, LinkStore, link_incident, link_found, link_parsed,
}

or_raise-inv :
    {S A : Type 0} (o : Option A) (s : S) {a : A}
    → (or_raise o failed s).0 ≡ ok a
    → (o ≡ some a) × ((or_raise o failed s).1 ≡ s)
or_raise-inv (some x) s h = (ap some (ok_inj h), refl)
or_raise-inv none s h = cc

-- A client was set up and returned an incident for the text, the text parsed as a UUID, the ticket's
-- record was found, and the outcome is that of the store's insert for that record, that UUID and the
-- slug of that incident, run on the state that the two calls left.
unfoldable pub InsertsChecked :
    {S : Type 0}
    → LinkStore S
    → Option (NightOwlClient S)
    → (String → Option Uuid)
    → ℕ
    → String
    → Uuid
    → S
    → Result IncidentLink × S
    → Type 0
InsertsChecked {S} store nightowl parse_uuid zammad_id text linked_by s outcome =
    (client : NightOwlClient S) × (incident : Incident) × (incident_id : Uuid) × (meta_id : Uuid)
    × ((nightowl ≡ some client)
        × ((client.get_incident text s).0 ≡ ok incident)
        × (parse_uuid text ≡ some incident_id)
        × ((store.get_ticket_meta_id zammad_id (client.get_incident text s).1).0 ≡ ok meta_id)
        × (outcome
            ≡ store.create_incident_link meta_id incident_id linked_by incident.slug
                (store.get_ticket_meta_id zammad_id (client.get_incident text s).1).1))

-- Whenever LinkIncident returns a link, a client was set up and returned an incident for the text,
-- the text parsed as a UUID and the ticket's record was found, and the result and the final state are
-- those of the store's insert for that record, that UUID, the caller and the slug of that incident,
-- run on the state that the two calls left.
link_incident-checked :
    {S : Type 0} (store : LinkStore S) (nightowl : Option (NightOwlClient S))
    (bookowl : Option (BookOwlClient S)) (parse_uuid : String → Option Uuid) (zammad_id : ℕ)
    (text : String) (linked_by : Uuid) (s : S) {l : IncidentLink}
    → (link_incident store nightowl bookowl parse_uuid zammad_id text linked_by s).0 ≡ ok l
    → InsertsChecked store nightowl parse_uuid zammad_id text linked_by s
        (link_incident store nightowl bookowl parse_uuid zammad_id text linked_by s)
unfolding link_incident InsertsChecked
link_incident-checked store none bookowl parse_uuid zammad_id text linked_by s h = cc
link_incident-checked store (some client) bookowl parse_uuid zammad_id text linked_by s h =
    let found = link_found store (some client) bookowl parse_uuid zammad_id text linked_by in
    let s1 = (client.get_incident text s).1 in
    let (incident, got, after) = >>=-inv (client.get_incident text) found s h in
    let parsed = link_parsed store (some client) bookowl parse_uuid zammad_id linked_by incident in
    let h1 = ap (λ x. x.0) (sym after) ∙ h in
    let (incident_id, read, next) = >>=-inv (or_raise (parse_uuid text) failed) parsed s1 h1 in
    let (is_id, same) = or_raise-inv (parse_uuid text) s1 (ap (λ x. x.0) read) in
    let s_eq = next ∙ ap (parsed incident_id) same in
    let h2 = ap (λ x. x.0) (sym s_eq) ∙ h1 in
    let (meta_id, tracked, last) =
      >>=-inv (store.get_ticket_meta_id zammad_id)
        (λ m. store.create_incident_link m incident_id linked_by incident.slug) s1 h2 in
    (
      client,
      incident,
      incident_id,
      meta_id,
      (refl, ap (λ x. x.0) got, is_id, ap (λ x. x.0) tracked, after ∙ s_eq ∙ last),
    )
