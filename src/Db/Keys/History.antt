-- ===== src/Db/Keys/History.antt =====
-- The metadata of one ticket through the statements of the stores.
use ticketowl.Base.{
  false, Option, ℕ, String, Action, List, none, find?, Bool, ◌∷◌, some, Bool-cases, Result, ◌≡◌, [],
  ◌∙◌, inl, if◌then◌else◌, ◌==◌, refl, inr, true, ap, suc,
}
use ticketowl.Base.Table.{upsert, upserted, update, find?-upsert_self, find?-upsert_other}
use ticketowl.Db.Keys.{
  Statement, perform, perform_all, upsert_ticket, drop_policy, save_state, poll_state,
  link_incident, unlink_incident, link_article, unlink_article, link_postmortem, add_note,
  clock_moves,
}
use ticketowl.Db.Laws.{query_failed, query_ran}
use ticketowl.Worker.Handler.Queries.{eq_sound}
use ticketowl.Ticket.Store as TicketStore
use ticketowl.Sla.Store as SlaStore
use ticketowl.Link.Store as LinkStore
use ticketowl.Comment.Store as CommentStore
use ticketowl.Worker.Store as PollerStore
use ticketowl.Ticket.Types.{Meta}
use ticketowl.Db.{Db, query}
use ticketowl.Sla.Types.{Uuid, State, Time}

-- What a statement may do to the row of a ticket: nothing, create it, merge a number and a policy into
-- it, or take its policy away. There is no way back to none.
data Change : Option Meta → Option Meta → Type 0 where
  unchanged : (r : Option Meta) → Change r r
  created : (m : Meta) → Change none (some m)
  merged :
      (number : String) (policy : Option Uuid) (now : Time) (m : Meta)
      → Change (some m) (some (TicketStore.merge_meta number policy now m))
  unassigned : (m : Meta) → Change (some m) (some (record m { sla_policy_id = none }))

data History : Option Meta → Option Meta → Type 0 where
  here : (r : Option Meta) → History r r
  next : {r s t : Option Meta} → Change r s → History s t → History r t

abbrev pub ticket_row : ℕ → Db → Option Meta
ticket_row n db = find? (SlaStore.has_zammad_id n) db.ticket_meta

-- A call that makes at most a change of the row.
abbrev Changes : {A : Type 0} → ℕ → Action Db A → Type 0
Changes n m = (db : Db) → Change (ticket_row n db) (ticket_row n (m db).1)

query-Changes : {A : Type 0} (n : ℕ) (run : Action Db A) → Changes n run → Changes n (query run)
query-Changes n run h db = elim (Bool-cases (db.down db.queries)) [
  | inl k ↦ rw (query_failed run db k) (unchanged _)
  | inr k ↦ rw (query_ran run db k) (h (record db { queries = suc db.queries }))
]

guarded :
    {A : Type 0} (n : ℕ) (r : Option Meta) (b : Bool) (x y : Result A × Db)
    → Change r (ticket_row n x.1)
    → Change r (ticket_row n y.1)
    → Change r (ticket_row n (if b then x else y).1)
guarded n r true x y h k = h
guarded n r false x y h k = k

created_or_merged :
    (number : String) (policy : Option Uuid) (now : Time) (fresh : Meta) (r : Option Meta)
    → Change r (some (upserted (TicketStore.merge_meta number policy now) fresh r))
created_or_merged number policy now fresh none = created fresh
created_or_merged number policy now fresh (some m) = merged number policy now m

upsert-Change :
    (n k : ℕ) (number : String) (policy : Option Uuid) (now : Time) (fresh : Meta) (xs : List Meta)
    → fresh.zammad_id ≡ k
    → Change (find? (SlaStore.has_zammad_id n) xs) (
        find?
          (SlaStore.has_zammad_id n)
          (upsert (SlaStore.has_zammad_id k) (TicketStore.merge_meta number policy now) fresh xs))
upsert-Change n k number policy now fresh xs e =
    let merge = TicketStore.merge_meta number policy now in
    elim (Bool-cases (k == n)) [
      | inl h ↦
          let same = eq_sound k n h in
          rw
            (ap
              (λ i.
                find? (SlaStore.has_zammad_id n) (upsert (SlaStore.has_zammad_id i) merge fresh xs))
              same)
            (rw (find?-upsert_self (SlaStore.has_zammad_id n) merge fresh (rw e h) (λ x q. q) xs)
              (created_or_merged number policy now fresh (find? (SlaStore.has_zammad_id n) xs)))
      | inr h ↦
          let apart = λ (x : Meta) (q : SlaStore.has_zammad_id k x ≡ true).
            ap (λ i. i == n) (eq_sound x.zammad_id k q) ∙ h in
          rw
            (find?-upsert_other (SlaStore.has_zammad_id k) merge fresh (SlaStore.has_zammad_id n)
              (rw e h) apart apart xs)
            (unchanged _)
    ]

update-Change :
    (n : ℕ) (p : Meta → Bool) (xs : List Meta)
    → Change
        (find? (SlaStore.has_zammad_id n) xs)
        (find? (SlaStore.has_zammad_id n) (update p (λ m. record m { sla_policy_id = none }) xs))
unfolding update
update-Change n p [] = unchanged none
update-Change n p (x ∷ xs) = elim (Bool-cases (SlaStore.has_zammad_id n x)) [
  | inl h ↦ elim (Bool-cases (p x)) [
    | inl k ↦ rw (k, h) (unassigned x)
    | inr k ↦ rw (k, h) (unchanged (some x))
  ]
  | inr h ↦ elim (Bool-cases (p x)) [
    | inl k ↦ rw (k, h) (update-Change n p xs)
    | inr k ↦ rw (k, h) (update-Change n p xs)
  ]
]

upsert_state-Changes : (n : ℕ) (state : State) → Changes n (SlaStore.upsert_state state)
unfolding SlaStore.upsert_state
upsert_state-Changes n state = query-Changes n _ λ db. guarded n _ _ _ _ (unchanged _) (unchanged _)

-- Every statement makes at most a change of a ticket's row.
perform-Change :
    (n : ℕ) (w : Statement) (db : Db) → Change (ticket_row n db) (ticket_row n (perform w db))
unfolding perform TicketStore.upsert SlaStore.delete_policy LinkStore.create_incident_link
    LinkStore.delete_incident_link LinkStore.create_article_link LinkStore.delete_article_link
    LinkStore.create_postmortem_link CommentStore.create_note PollerStore.upsert_state
    PollerStore.on_connection
perform-Change n (upsert_ticket zammad_id number policy) db =
    query-Changes n _
      (λ d.
        guarded n _ _ _ _ (upsert-Change n zammad_id number policy d.clock _ d.ticket_meta refl)
          (unchanged _))
      db
perform-Change n (drop_policy id) db =
    query-Changes n _ (λ d. guarded n _ _ _ _ (update-Change n _ d.ticket_meta) (unchanged _)) db
perform-Change n (save_state state) db = upsert_state-Changes n state db
perform-Change n (poll_state state) db =
    query-Changes n _ (query-Changes n _ (upsert_state-Changes n state)) db
perform-Change n (link_incident m i by slug) db =
    query-Changes n _ (λ d. guarded n _ _ _ _ (unchanged _) (unchanged _)) db
perform-Change n (unlink_incident m i) db =
    query-Changes n _ (λ d. guarded n _ _ _ _ (unchanged _) (unchanged _)) db
perform-Change n (link_article m a by slug title) db =
    query-Changes n _ (λ d. guarded n _ _ _ _ (unchanged _) (unchanged _)) db
perform-Change n (unlink_article m a) db =
    query-Changes n _ (λ d. guarded n _ _ _ _ (unchanged _) (unchanged _)) db
perform-Change n (link_postmortem m p by url) db =
    query-Changes n _ (λ d. guarded n _ _ _ _ (unchanged _) (unchanged _)) db
perform-Change n (add_note note) db =
    query-Changes n _ (λ d. guarded n _ _ _ _ (unchanged _) (unchanged _)) db
perform-Change n (clock_moves now) db = unchanged _

-- Through every sequence of statements of the stores, failing and refused ones included, the row of
-- a ticket has a history of the four kinds of change.
row-History :
    (n : ℕ) (ws : List Statement) (db : Db)
    → History (ticket_row n db) (ticket_row n (perform_all ws db))
unfolding perform_all
row-History n [] db = here _
row-History n (w ∷ ws) db = next (perform-Change n w db) (row-History n ws (perform w db))

-- The row is still there, for the same ticket.
abbrev Same : Option Meta → Option Meta → Type 0
Same none r = Unit {0}
Same (some m) none = ⊥
Same (some m) (some m') =
    (m'.id ≡ m.id) × (m'.zammad_id ≡ m.zammad_id) × (m'.created_at ≡ m.created_at)

Same-refl : (r : Option Meta) → Same r r
Same-refl none = tt
Same-refl (some m) = (refl, refl, refl)

Same-trans : (r s t : Option Meta) → Same r s → Same s t → Same r t
Same-trans none s t h k = tt
Same-trans (some m) none t h k = elim h [ ]
Same-trans (some m) (some m') none h k = elim k [ ]
Same-trans (some m) (some m') (some m'') (a, b, c) (d, e, f) = (d ∙ a, e ∙ b, f ∙ c)

Change-Same : {r s : Option Meta} → Change r s → Same r s
Change-Same (unchanged r) = Same-refl r
Change-Same (created m) = tt
Change-Same (merged number policy now m) = (refl, refl, refl)
Change-Same (unassigned m) = (refl, refl, refl)

History-Same : {r s : Option Meta} → History r s → Same r s
History-Same (here r) = Same-refl r
History-Same (next {r} {s} {t} change rest) =
    Same-trans r s t (Change-Same change) (History-Same rest)

Same-found :
    (r s : Option Meta) {m : Meta}
    → Same r s
    → r ≡ some m
    → (m' : Meta) × (s ≡ some m') × (m'.id ≡ m.id) × (m'.created_at ≡ m.created_at)
Same-found none s h e = cc
Same-found (some a) none h e = elim h [ ]
Same-found (some a) (some b) (i, z, c) e = (b, refl, cc (i, e), cc (c, e))

-- A ticket that the tenant knows stays known through every sequence of statements of the stores, failing
-- and refused ones included, with its id and its time of creation.
pub tickets_stay :
    (n : ℕ) (ws : List Statement) (db : Db) {m : Meta}
    → ticket_row n db ≡ some m
    → (m' : Meta) × (ticket_row n (perform_all ws db) ≡ some m')
      × (m'.id ≡ m.id)
      × (m'.created_at ≡ m.created_at)
tickets_stay n ws db = Same-found _ _ (History-Same (row-History n ws db))
