-- ===== src/Ticket/Store/Laws.antt =====
-- internal/ticket/store.go: what an upsert of a ticket's metadata leaves.
use ticketowl.Base.Table.{find?-upsert_self, find?-upsert_other, upserted, upsert}
use ticketowl.Ticket.Store.{accepted, upserted_meta, merge_meta, new_meta, keep_policy}
use ticketowl.Ticket.Store as Store
use ticketowl.Sla.Store.{has_zammad_id}
use ticketowl.Base.{
  ℕ, Option, ◌==◌, String, ◌≡◌, true, some, arith, none, false, find?, ok, ◌≢◌, suc, refl,
}
use ticketowl.Ticket.Types.{Meta, policy_id_of}
use ticketowl.Sla.Types.{Uuid, Time}
use ticketowl.Db.{Db, query}

eq_self : (n : ℕ) → (n == n) ≡ true
eq_self n = ground arith

policy_of_upserted :
    (number : String) (policy : Option Uuid) (now : Time) (fresh : Meta) (o : Option Meta)
    → fresh.sla_policy_id ≡ policy
    → (upserted (merge_meta number policy now) fresh o).sla_policy_id
      ≡ keep_policy policy (policy_id_of o)
policy_of_upserted number none now fresh none h = h
policy_of_upserted number (some p) now fresh none h = h
policy_of_upserted number policy now fresh (some m) h = refl

number_of_upserted :
    (number : String) (policy : Option Uuid) (now : Time) (fresh : Meta) (o : Option Meta)
    → fresh.zammad_number ≡ number
    → (upserted (merge_meta number policy now) fresh o).zammad_number ≡ number
number_of_upserted number policy now fresh none h = h
number_of_upserted number policy now fresh (some m) h = refl

-- the database that an accepted upsert leaves
abbrev after_upsert : ℕ → String → Option Uuid → Db → Db
after_upsert zammad_id number policy db = record db {
  queries = suc db.queries;
  next_id = suc db.next_id;
  ticket_meta =
      upsert (has_zammad_id zammad_id) (merge_meta number policy db.clock)
        (new_meta zammad_id number policy db) db.ticket_meta;
}

upsert_ran :
    (zammad_id : ℕ) (number : String) (policy : Option Uuid) (db : Db)
    → db.down db.queries ≡ false
    → accepted zammad_id number policy db ≡ true
    → Store.upsert zammad_id number policy db
      ≡ (ok (upserted_meta zammad_id number policy db), after_upsert zammad_id number policy db)
unfolding Store.upsert query accepted
upsert_ran zammad_id number policy db up fits = rw up (rw fits refl)

other_id : (a b : ℕ) → a ≢ b → (b == a) ≡ false
other_id a b h = ground (arith, h)

same_id : (x a b : ℕ) → (x == a) ≡ true → b ≢ a → (x == b) ≡ false
same_id x a b h k = ground (arith, h, k)

-- An upsert that the constraints accept returns the row under the ticket's id, with the new number and
-- with the policy from before unless another is given, a lookup finds that row, and the rows of the
-- other tickets stay.
pub upsert_finds :
    (zammad_id : ℕ) (number : String) (policy : Option Uuid) (db : Db)
    → db.down db.queries ≡ false
    → accepted zammad_id number policy db ≡ true
    → let (result, db') = Store.upsert zammad_id number policy db in
      (m : Meta) × (result ≡ ok m)
      × (find? (has_zammad_id zammad_id) db'.ticket_meta ≡ some m)
      × (m.zammad_number ≡ number)
      × (m.sla_policy_id
          ≡ keep_policy policy (policy_id_of (find? (has_zammad_id zammad_id) db.ticket_meta)))
      × ((other : ℕ)
          → other ≢ zammad_id
          → find? (has_zammad_id other) db'.ticket_meta
            ≡ find? (has_zammad_id other) db.ticket_meta)
upsert_finds zammad_id number policy db up fits =
    let fresh = new_meta zammad_id number policy db in
    let merge = merge_meta number policy db.clock in
    rw (upsert_ran zammad_id number policy db up fits) (
      upserted_meta zammad_id number policy db,
      refl,
      find?-upsert_self (has_zammad_id zammad_id) merge fresh (eq_self zammad_id) (λ x h. h)
          db.ticket_meta,
      number_of_upserted number policy db.clock fresh
          (find? (has_zammad_id zammad_id) db.ticket_meta) refl,
      policy_of_upserted number policy db.clock fresh
          (find? (has_zammad_id zammad_id) db.ticket_meta) refl,
      λ other apart.
          find?-upsert_other (has_zammad_id zammad_id) merge fresh (has_zammad_id other)
            (other_id other zammad_id apart) (λ x h. same_id x.zammad_id zammad_id other h apart)
            (λ x h. same_id x.zammad_id zammad_id other h apart) db.ticket_meta,
    )
