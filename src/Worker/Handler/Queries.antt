-- ===== src/Worker/Handler/Queries.antt =====
-- internal/worker/resolve.go: the queries of the handlers when the database answers.
use ticketowl.Sla.Store as SlaStore
use ticketowl.Ticket.Store as TicketStore
use ticketowl.Base.{
  Bool, Result, Action, ℕ, List, suc, ◌≡◌, Option, ◌==◌, find?, false, ok, true, some, refl, arith,
  any, err, ◌∷◌, if◌then◌else◌, ap, Bool-cases, is_no_rows, inl, none, inr, [],
}
use ticketowl.Db.{Db, query, fits_int4}
use ticketowl.Worker.Handler.Context.{acquire_conn, optional, on_db}
use ticketowl.Ticket.Types.{Meta}
use ticketowl.Sla.Types.{Uuid, State}
use ticketowl.Base.Table.{upsert}

pub any_of_find :
    {A : Type 0} (p q : A → Bool) (xs : List A) {a : A}
    → find? p xs ≡ some a
    → q a ≡ true
    → any q xs ≡ true
any_of_find p q [] h k = cc
any_of_find p q (x ∷ xs) {a} h k = elim (Bool-cases (p x)) [
  | inl e ↦ ground (arith, e, h, k)
  | inr e ↦ ground (arith, any_of_find p q xs (rw e at h) k)
]

-- the database after a query that was answered and read only
abbrev pub ticked : Db → Db
ticked db = record db { queries = suc db.queries }

pub acquire_ok :
    {R : Type 0} (db : Db) (r : R)
    → ((n : ℕ) → db.down n ≡ false)
    → acquire_conn (db, r) ≡ (ok tt, (ticked db, r))
unfolding acquire_conn query
acquire_ok db r up = rw (up db.queries) refl

pub get_by_zammad_id_ok :
    (n : ℕ) (db : Db) (m : Meta)
    → ((k : ℕ) → db.down k ≡ false)
    → find? (SlaStore.has_zammad_id n) db.ticket_meta ≡ some m
    → TicketStore.get_by_zammad_id n db ≡ (ok m, ticked db)
unfolding TicketStore.get_by_zammad_id query
get_by_zammad_id_ok n db m up h = rw (up db.queries) (rw h refl)

pub get_state_ok :
    (id : Uuid) (db : Db) (s : State)
    → ((k : ℕ) → db.down k ≡ false)
    → find? (SlaStore.of_ticket id) db.sla_states ≡ some s
    → SlaStore.get_state_by_ticket_meta_id id db ≡ (ok s, ticked db)
unfolding SlaStore.get_state_by_ticket_meta_id query
get_state_ok id db s up h = rw (up db.queries) (rw h refl)

optional_row : {R A : Type 0} → R → Result A × Db → Result (Option A) × (Db × R)
optional_row r (x, db) = elim x [
  | ok a ↦ (ok (some a), (db, r))
  | err e ↦ if is_no_rows e then (ok none, (db, r)) else (err e, (db, r))
]

pub optional-found :
    {R A : Type 0} (q : Action Db A) (db : Db) (r : R) {a : A} {db' : Db}
    → q db ≡ (ok a, db')
    → optional (on_db q) (db, r) ≡ (ok (some a), (db', r))
unfolding optional_row
optional-found q db r h = ap (optional_row r) h

pub upsert_state_ok :
    (s : State) (db : Db)
    → ((k : ℕ) → db.down k ≡ false)
    → fits_int4 s.accumulated_pause_secs ≡ true
    → any (SlaStore.has_meta_id s.ticket_meta_id) db.ticket_meta ≡ true
    → SlaStore.upsert_state s db ≡ (
      ok tt,
      record (ticked db) {
        sla_states =
            upsert (SlaStore.of_ticket s.ticket_meta_id) (SlaStore.keep_id s) s db.sla_states;
      },
    )
unfolding SlaStore.upsert_state query
upsert_state_ok s db up fits meta = rw (up db.queries) (rw fits (rw meta refl))

pub eq_self : (n : ℕ) → (n == n) ≡ true
eq_self n = ground arith

pub eq_sound : (a b : ℕ) → (a == b) ≡ true → a ≡ b
eq_sound a b h = ground (arith, h)

remote_beside : {R A : Type 0} → R → Result A × Db → Result A × (Db × R)
remote_beside r (x, db) = (x, (db, r))

pub on_db_ran :
    {R A : Type 0} (q : Action Db A) (db : Db) (r : R) {x : Result A} {db' : Db}
    → q db ≡ (x, db')
    → on_db q (db, r) ≡ (x, (db', r))
unfolding remote_beside
on_db_ran q db r h = ap (remote_beside r) h
