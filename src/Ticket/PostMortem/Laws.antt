-- ===== src/Ticket/PostMortem/Laws.antt =====
-- internal/ticket/postmortem.go: a ticket has one post-mortem.
use ticketowl.Base.{
  ℕ, String, List, [], ◌∷◌, ◌++◌, Option, some, none, ok, refl, ap, ◌≡◌, Bool, true, false,
  Bool-cases, inl, inr, any, find?, suc, arith,
}
use ticketowl.Sla.Types.{Uuid}
use ticketowl.Sla.Store.{has_zammad_id, has_meta_id}
use ticketowl.Db.{Db, query, row}
use ticketowl.Link.Types.{PostMortemLink}
use ticketowl.Link.Store.{
  get_ticket_meta_id, get_postmortem_link, create_postmortem_link, list_incident_links,
  postmortem_of,
}
use ticketowl.Ticket.Types.{meta_id_of}
use ticketowl.Worker.Handler.Context.{on_db, on_remote}
use ticketowl.Ticket.PostMortem.{PostMortemStore, PostMortemCreator, IncidentFetcher}

abbrev pub db_postmortems : (R : Type 0) → PostMortemStore (Db × R)
db_postmortems R = record {
  get_ticket_meta_id = λ zammad_id. on_db (get_ticket_meta_id zammad_id);
  get_postmortem_link = λ meta_id. on_db (get_postmortem_link meta_id);
  create_postmortem_link =
      λ meta_id pm_id by_user url. on_db (create_postmortem_link meta_id pm_id by_user url);
  list_incident_links = λ meta_id. on_db (list_incident_links meta_id);
}

-- a client whose state is the remote services
abbrev pub remote_creator : {R : Type 0} → PostMortemCreator R → PostMortemCreator (Db × R)
remote_creator c = record { create_post_mortem = λ req. on_remote (c.create_post_mortem req) }

abbrev pub remote_fetcher : {R : Type 0} → IncidentFetcher R → IncidentFetcher (Db × R)
remote_fetcher c = record { get_incident = λ id. on_remote (c.get_incident id) }

pub find?-append_new :
    {A : Type 0} (p : A → Bool) (xs : List A) (a : A)
    → any p xs ≡ false
    → p a ≡ true
    → find? p (xs ++ a ∷ []) ≡ some a
find?-append_new p [] a h k = rw k refl
find?-append_new p (x ∷ xs) a h k = elim (Bool-cases (p x)) [
  | inl e ↦ ground (arith, e)
  | inr e ↦ rw e (find?-append_new p xs a (rw e at h) k)
]

pub meta_read :
    (zammad_id : ℕ) (db : Db) {m : Uuid}
    → (get_ticket_meta_id zammad_id db).0 ≡ ok m
    → meta_id_of (find? (has_zammad_id zammad_id) db.ticket_meta) ≡ some m
unfolding get_ticket_meta_id query
meta_read zammad_id db {m} h = elim (Bool-cases (db.down db.queries)) [
  | inl k ↦ ground (arith, rw k at h)
  | inr k ↦ go (meta_id_of (find? (has_zammad_id zammad_id) db.ticket_meta)) (rw k at h)
]
  where
    go : (o : Option Uuid) → (row o (record db { queries = suc db.queries })).0 ≡ ok m → o ≡ some m
    go none e = cc
    go (some x) e = cc

pub meta_found :
    (zammad_id : ℕ) (db : Db) {m : Uuid}
    → db.down db.queries ≡ false
    → meta_id_of (find? (has_zammad_id zammad_id) db.ticket_meta) ≡ some m
    → get_ticket_meta_id zammad_id db ≡ (ok m, record db { queries = suc db.queries })
unfolding get_ticket_meta_id query
meta_found zammad_id db up h = rw up (ap (λ o. row o (record db { queries = suc db.queries })) h)

pub link_found :
    (meta_id : Uuid) (db : Db) {l : PostMortemLink}
    → db.down db.queries ≡ false
    → find? (postmortem_of meta_id) db.postmortem_links ≡ some l
    → get_postmortem_link meta_id db ≡ (ok l, record db { queries = suc db.queries })
unfolding get_postmortem_link query
link_found meta_id db up h = rw up (ap (λ o. row o (record db { queries = suc db.queries })) h)

abbrev pub new_link : Uuid → Uuid → Uuid → String → Db → PostMortemLink
new_link meta_id pm_id by_user url db = record {
  id = db.next_id;
  ticket_meta_id = meta_id;
  postmortem_id = pm_id;
  postmortem_url = url;
  created_by = by_user;
  created_at = db.clock;
}

abbrev pub with_link : PostMortemLink → Db → Db
with_link l db = record db {
  queries = suc db.queries;
  next_id = suc db.next_id;
  postmortem_links = db.postmortem_links ++ l ∷ [];
}

pub link_created :
    (meta_id pm_id by_user : Uuid) (url : String) (db : Db) {l : PostMortemLink}
    → (create_postmortem_link meta_id pm_id by_user url db).0 ≡ ok l
    → (any (postmortem_of meta_id) db.postmortem_links ≡ false)
      × ((create_postmortem_link meta_id pm_id by_user url db).1
          ≡ with_link (new_link meta_id pm_id by_user url db) db)
unfolding create_postmortem_link query
link_created meta_id pm_id by_user url db h = elim (Bool-cases (db.down db.queries)) [
  | inl k ↦ ground (arith, rw k at h)
  | inr k ↦ elim (Bool-cases (any (has_meta_id meta_id) db.ticket_meta)) [
    | inr m ↦ ground (arith, rw (k, m) at h)
    | inl m ↦ elim (Bool-cases (any (postmortem_of meta_id) db.postmortem_links)) [
      | inl n ↦ ground (arith, rw (k, m, n) at h)
      | inr n ↦ (n, rw (k, m, n) refl)
    ]
  ]
]

-- The queries before the insert leave the tickets' metadata alone.
pub meta_kept :
    (zammad_id : ℕ) (db : Db) → (get_ticket_meta_id zammad_id db).1.ticket_meta ≡ db.ticket_meta
unfolding get_ticket_meta_id query
meta_kept zammad_id db = elim (Bool-cases (db.down db.queries)) [
  | inl k ↦ rw k refl
  | inr k ↦ rw k (go (meta_id_of (find? (has_zammad_id zammad_id) db.ticket_meta)))
]
  where
    go :
        (o : Option Uuid)
        → (row o (record db { queries = suc db.queries })).1.ticket_meta ≡ db.ticket_meta
    go none = refl
    go (some x) = refl

pub link_kept :
    (meta_id : Uuid) (db : Db) → (get_postmortem_link meta_id db).1.ticket_meta ≡ db.ticket_meta
unfolding get_postmortem_link query
link_kept meta_id db = elim (Bool-cases (db.down db.queries)) [
  | inl k ↦ rw k refl
  | inr k ↦ rw k (go (find? (postmortem_of meta_id) db.postmortem_links))
]
  where
    go :
        (o : Option PostMortemLink)
        → (row o (record db { queries = suc db.queries })).1.ticket_meta ≡ db.ticket_meta
    go none = refl
    go (some x) = refl

pub list_kept :
    (meta_id : Uuid) (db : Db) → (list_incident_links meta_id db).1.ticket_meta ≡ db.ticket_meta
unfolding list_incident_links query
list_kept meta_id db = elim (Bool-cases (db.down db.queries)) [
  | inl k ↦ rw k refl
  | inr k ↦ rw k refl
]
