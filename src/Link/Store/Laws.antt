-- ===== src/Link/Store/Laws.antt =====
-- internal/link/store.go: a link that is made and then removed.
use ticketowl.Base.Table.{delete}
use ticketowl.Base.{
  Bool, true, false, List, ◌++◌, ◌∷◌, [], ◌≡◌, any, ap, Bool-cases, ℕ, ◌==◌, inl, arith, inr, ◌&&◌,
  String, ok, suc, refl, ◌∙◌,
}
use ticketowl.Sla.Types.{Uuid}
use ticketowl.Db.{query, Db}
use ticketowl.Link.Store.{create_incident_link, delete_incident_link, links_incident}
use ticketowl.Link.Types.{IncidentLink}
use ticketowl.Sla.Store.{has_meta_id}

any-append_self {ℓ} :
    {A : Type ℓ} (p : A → Bool) (xs : List A) (a : A) → p a ≡ true → any p (xs ++ a ∷ []) ≡ true
any-append_self p [] a h = rw h
any-append_self p (x ∷ xs) a h = elim (Bool-cases (p x)) [
  | inl k ↦ rw k
  | inr k ↦ rw k (any-append_self p xs a h)
]

delete-append {ℓ} :
    {A : Type ℓ} (p : A → Bool) (xs : List A) (a : A)
    → any p xs ≡ false
    → p a ≡ true
    → delete p (xs ++ a ∷ []) ≡ xs
delete-append p [] a h k = rw k
delete-append p (x ∷ xs) a h k = elim (Bool-cases (p x)) [
  | inl l ↦ ground (arith, l)
  | inr l ↦ rw l (ap (λ ys. x ∷ ys) (delete-append p xs a (rw l at h) k))
]

==-refl : (n : ℕ) → (n == n) ≡ true
==-refl n = ground arith

links_new :
    (meta_id incident_id : Uuid) → ((meta_id == meta_id) && (incident_id == incident_id)) ≡ true
links_new meta_id incident_id = rw (==-refl meta_id, ==-refl incident_id)

abbrev made : Uuid → Uuid → Uuid → String → Db → IncidentLink
made meta_id incident_id linked_by slug db = record {
  id = db.next_id;
  ticket_meta_id = meta_id;
  incident_id = incident_id;
  incident_slug = slug;
  linked_by = linked_by;
  created_at = db.clock;
}

abbrev inserted : IncidentLink → Db → Db
inserted l db = record db {
  queries = suc db.queries;
  next_id = suc db.next_id;
  incident_links = db.incident_links ++ l ∷ [];
}

create-inserts :
    (meta_id incident_id linked_by : Uuid) (slug : String) (db : Db) {l : IncidentLink}
    → (create_incident_link meta_id incident_id linked_by slug db).0 ≡ ok l
    → (any (links_incident meta_id incident_id) db.incident_links ≡ false)
      × ((create_incident_link meta_id incident_id linked_by slug db).1
          ≡ inserted (made meta_id incident_id linked_by slug db) db)
unfolding query create_incident_link
create-inserts meta_id incident_id linked_by slug db h = elim (Bool-cases (db.down db.queries)) [
  | inl k ↦ ground (arith, rw k at h)
  | inr k ↦ elim (Bool-cases (any (has_meta_id meta_id) db.ticket_meta)) [
    | inr m ↦ ground (arith, rw (k, m) at h)
    | inl m ↦ elim (Bool-cases (any (links_incident meta_id incident_id) db.incident_links)) [
      | inl n ↦ ground (arith, rw (k, m, n) at h)
      | inr n ↦ (n, rw (k, m, n) refl)
    ]
  ]
]

delete-removes :
    (meta_id incident_id : Uuid) (db : Db)
    → db.down db.queries ≡ false
    → any (links_incident meta_id incident_id) db.incident_links ≡ true
    → delete_incident_link meta_id incident_id db ≡ (
      ok tt,
      record db {
        queries = suc db.queries;
        incident_links = delete (links_incident meta_id incident_id) db.incident_links;
      },
    )
unfolding query delete_incident_link
delete-removes meta_id incident_id db up found = rw (up, found) refl

-- If CreateIncidentLink succeeded and the next query is answered, DeleteIncidentLink for the same
-- ticket and incident succeeds and leaves the links of all tickets as they were before.
pub create-delete :
    (meta_id incident_id linked_by : Uuid) (slug : String) (db : Db) {l : IncidentLink}
    → (create_incident_link meta_id incident_id linked_by slug db).0 ≡ ok l
    → db.down (suc db.queries) ≡ false
    → ((delete_incident_link meta_id incident_id
          (create_incident_link meta_id incident_id linked_by slug db).1).0
        ≡ ok tt)
      × ((delete_incident_link meta_id incident_id
            (create_incident_link meta_id incident_id linked_by slug db).1).1.incident_links
          ≡ db.incident_links)
create-delete meta_id incident_id linked_by slug db h up =
    let (fresh, created) = create-inserts meta_id incident_id linked_by slug db h in
    let l = made meta_id incident_id linked_by slug db in
    let p = links_incident meta_id incident_id in
    let key = links_new meta_id incident_id in
    let removed =
      ap (delete_incident_link meta_id incident_id) created
      ∙ delete-removes meta_id incident_id (inserted l db) up
          (any-append_self p db.incident_links l key) in
    (
      ap (λ x. x.0) removed,
      ap (λ x. x.1.incident_links) removed ∙ delete-append p db.incident_links l fresh key,
    )
