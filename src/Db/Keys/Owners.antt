-- ===== src/Db/Keys/Owners.antt =====
-- Rows that refer to a ticket, and what a query leaves.
use ticketowl.Base.{
  ℕ, Bool, Action, ◌==◌, ◌&&◌, not, List, Result, ◌≡◌, Bool-cases, arith, refl, true, any, filter,
  inl, false, ◌++◌, if◌then◌else◌, ◌∷◌, inr, [], suc, All-append,
}
use ticketowl.Sla.Store as SlaStore
use ticketowl.Ticket.Types.{Meta}
use ticketowl.Sla.Types.{State, Uuid}
use ticketowl.Link.Types.{IncidentLink, ArticleLink, PostMortemLink}
use ticketowl.Comment.Types.{InternalNote}
use ticketowl.Db.{Db, query}
use ticketowl.Db.Keys.{
  same_ticket, same_state, same_incident, same_article, same_postmortem, same_note, Keys, Owned,
  Known, Tickets,
}
use ticketowl.Base.Unique.{
  All-map, Unique-filter, All-kept, Unique-upsert, All-upsert, Unique-append,
}
use ticketowl.Base.Table.{upsert}
use ticketowl.Db.Laws.{query_failed, query_ran}

pub ==-comm : (m n : ℕ) → (m == n) ≡ (n == m)
==-comm m n = ground arith

pub &&-comm : (m n k l : ℕ) → ((m == n) && (k == l)) ≡ ((n == m) && (l == k))
&&-comm m n k l = rw (==-comm m n, ==-comm k l) refl

pub &&-true : (a b : Bool) → (a && b) ≡ true → (a ≡ true) × (b ≡ true)
&&-true true true h = (refl, refl)
&&-true true false h = cc
&&-true false b h = cc

pub not-true : (a : Bool) → not a ≡ true → a ≡ false
not-true true h = cc
not-true false h = refl

pub tickets_sym : (x y : Meta) → same_ticket x y ≡ same_ticket y x
tickets_sym x y = ==-comm y.zammad_id x.zammad_id

pub states_sym : (x y : State) → same_state x y ≡ same_state y x
states_sym x y = ==-comm y.ticket_meta_id x.ticket_meta_id

pub incidents_sym : (x y : IncidentLink) → same_incident x y ≡ same_incident y x
incidents_sym x y = &&-comm y.ticket_meta_id x.ticket_meta_id y.incident_id x.incident_id

pub articles_sym : (x y : ArticleLink) → same_article x y ≡ same_article y x
articles_sym x y = &&-comm y.ticket_meta_id x.ticket_meta_id y.article_id x.article_id

pub postmortems_sym : (x y : PostMortemLink) → same_postmortem x y ≡ same_postmortem y x
postmortems_sym x y = ==-comm y.ticket_meta_id x.ticket_meta_id

pub notes_sym : (x y : InternalNote) → same_note x y ≡ same_note y x
notes_sym x y = ==-comm y.id x.id

module _ {A : Type 0} (same : A → A → Bool) (owner : A → Uuid) where
  -- the guard of an insert: the ticket is known and no row has the key
  pub Owned-insert :
      ((x y : A) → same x y ≡ same y x)
      → (metas : List Meta) (xs : List A) (x : A)
      → (any (SlaStore.has_meta_id (owner x)) metas && not (any (same x) xs)) ≡ true
      → Owned same owner metas xs
      → Owned same owner metas (xs ++ x ∷ [])
  Owned-insert sym metas xs x guard (unique, refers) =
      let (known, free) =
        &&-true (any (SlaStore.has_meta_id (owner x)) metas) (not (any (same x) xs)) guard in
      (
        Unique-append same sym xs x (not-true (any (same x) xs) free) unique,
        All-append (λ y. Known metas (owner y)) xs (x ∷ []) refers (known, tt),
      )

  pub Owned-filter :
      (metas : List Meta) (q : A → Bool) (xs : List A)
      → Owned same owner metas xs
      → Owned same owner metas (filter q xs)
  Owned-filter metas q xs (unique, refers) =
      (Unique-filter same q xs unique, All-kept (λ y. Known metas (owner y)) q xs refers)

  pub Owned-upsert :
      ((x y : A) → same x y ≡ same y x)
      → (metas : List Meta) (merge : A → A) (fresh : A)
      → ((x : A) → same fresh x ≡ true → same (merge x) ≡ same x)
      → ((x : A) → owner (merge x) ≡ owner fresh)
      → Known metas (owner fresh)
      → (xs : List A) → Owned same owner metas xs
      → Owned same owner metas (upsert (same fresh) merge fresh xs)
  Owned-upsert sym metas merge fresh kept of_fresh known xs (unique, refers) = (
    Unique-upsert same sym merge fresh kept xs unique,
    All-upsert (λ y. Known metas (owner y)) (same fresh) merge fresh known
        (λ x _. rw (of_fresh x) known) xs refers,
  )

  pub Owned-metas :
      (metas metas' : List Meta)
      → ((id : Uuid) → Known metas id → Known metas' id)
      → (xs : List A) → Owned same owner metas xs
      → Owned same owner metas' xs
  Owned-metas metas metas' more xs (unique, refers) = (
    unique,
    All-map (λ y. Known metas (owner y)) (λ y. Known metas' (owner y)) (λ x. more (owner x)) xs
        refers,
  )

-- The tickets are written and none goes.
pub Keys-metas :
    (db : Db) (metas : List Meta)
    → Tickets metas
    → ((id : Uuid) → Known db.ticket_meta id → Known metas id)
    → Keys db
    → Keys (record db { ticket_meta = metas })
Keys-metas db metas tickets more (_, s, i, a, p, n) =
    let old = db.ticket_meta in
    (
      tickets,
      Owned-metas same_state (λ s. s.ticket_meta_id) old metas more db.sla_states s,
      Owned-metas same_incident (λ l. l.ticket_meta_id) old metas more db.incident_links i,
      Owned-metas same_article (λ l. l.ticket_meta_id) old metas more db.article_links a,
      Owned-metas same_postmortem (λ l. l.ticket_meta_id) old metas more db.postmortem_links p,
      Owned-metas same_note (λ n. n.ticket_meta_id) old metas more db.internal_notes n,
    )

abbrev pub Kept : {A : Type 0} → Action Db A → Type 0
Kept m = (db : Db) → Keys db → Keys (m db).1

pub query-Kept : {A : Type 0} (run : Action Db A) → Kept run → Kept (query run)
query-Kept run keep db k = elim (Bool-cases (db.down db.queries)) [
  | inl h ↦ rw (query_failed run db h) k
  | inr h ↦ rw (query_ran run db h) (keep (record db { queries = suc db.queries }) k)
]

pub guarded :
    {A : Type 0} (b : Bool) (x y : Result A × Db)
    → (b ≡ true → Keys x.1)
    → Keys y.1
    → Keys (if b then x else y).1
guarded true x y kept else_kept = kept refl
guarded false x y kept else_kept = else_kept
