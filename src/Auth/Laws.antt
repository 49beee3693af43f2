-- ===== src/Auth/Laws.antt =====
-- internal/authadapter/adapter.go: logins of one subject.
use ticketowl.Base.{
  ℕ, String, List, ◌≡◌, false, find?, some, is_ok, true, Option-cases, ok, none, inr, ap, ◌∙◌, inl,
  eq_iff, if◌then◌else◌, refl, Action, >>=-ok, or_raise, Result, no_rows, pure, ◌>>=◌, attempt,
  attempt_ran, suc, zero,
}
use ticketowl.Base.Table.{upsert, find?-upsert_self}
use ticketowl.Auth.{
  Accounts, UpsertUserParams, GlobalTenant, User, has_slug, schema_of, tenant_result,
  find_or_create_oidc_user, get_tenant_by_slug, get_user_by_external_id, ask, upsert_user,
  has_subject, user_row, merge_user, new_user, with_users, account_of, answer_of, account_in,
  find_account,
}

-- the accounts after some queries that only read
abbrev asked : ℕ → Accounts → Accounts
asked zero db = db
asked (suc n) db = let db' = asked n db in record db' { queries = suc db'.queries }

ask_ran :
    {A : Type 0} (run : Action Accounts A) (db : Accounts)
    → db.down db.queries ≡ false
    → ask run db ≡ run (asked 1 db)
unfolding ask
ask_ran run db h = rw h

module _ (slug : String) (arg : UpsertUserParams) (db : Accounts) (t : GlobalTenant)
    (users : List User) (up : (n : ℕ) → db.down n ≡ false)
    (known : find? (has_slug slug) db.tenants ≡ some t)
    (table : db.users (schema_of (tenant_result t)) ≡ some users) where
  tenant_found : get_tenant_by_slug slug db ≡ (ok (tenant_result t), asked 1 db)
  unfolding get_tenant_by_slug
  tenant_found =
      >>=-ok (ask (λ db. or_raise (find? (has_slug slug) db.tenants) no_rows db))
        (λ t. pure (tenant_result t)) db
        (ask_ran _ db (up db.queries) ∙ ap (λ r. or_raise r no_rows (asked 1 db)) known)

  looked_up :
      get_user_by_external_id (schema_of (tenant_result t)) arg.external_id (asked 3 db)
      ≡ or_raise (find? (has_subject arg.external_id) users) no_rows (asked 4 db)
  unfolding get_user_by_external_id
  looked_up = ask_ran _ (asked 3 db) (up _) ∙ rw table refl

  login_looks_up :
      {r : Result User}
      → or_raise (find? (has_subject arg.external_id) users) no_rows (asked 4 db) ≡ (r, asked 4 db)
      → find_or_create_oidc_user slug arg db ≡ account_of (tenant_result t) arg r (asked 4 db)
  unfolding find_or_create_oidc_user
  login_looks_up h =
      let row = tenant_result t in
      let lookup = get_user_by_external_id (schema_of row) arg.external_id in
      >>=-ok (get_tenant_by_slug slug) (λ t. account_in t arg) db tenant_found
      ∙ >>=-ok (ask (pure tt)) (λ _. ask (pure tt) >>= λ _. find_account row arg) (asked 1 db)
          (ask_ran (pure tt) (asked 1 db) (up _))
      ∙ >>=-ok (ask (pure tt)) (λ _. find_account row arg) (asked 2 db)
          (ask_ran (pure tt) (asked 2 db) (up _))
      ∙ >>=-ok (attempt lookup) (account_of row arg) (asked 3 db)
          (attempt_ran lookup (asked 3 db) (looked_up ∙ h))

  login_found :
      (u : User)
      → find? (has_subject arg.external_id) users ≡ some u
      → find_or_create_oidc_user slug arg db ≡ (ok (user_row u, t.id), asked 4 db)
  login_found u found = login_looks_up (ap (λ r. or_raise r no_rows (asked 4 db)) found)

  -- the rows once the user of the login is inserted
  abbrev rows_with_new : List User
  rows_with_new =
      upsert (has_subject arg.external_id) (merge_user arg db.clock) (new_user arg db) users

  upsert_user-inserts :
      find? (has_subject arg.external_id) users ≡ none
      → upsert_user (schema_of (tenant_result t)) arg (asked 4 db) ≡ (
        ok (new_user arg db),
        with_users (schema_of (tenant_result t)) rows_with_new (asked 5 db),
      )
  unfolding upsert_user
  upsert_user-inserts missing = ask_ran _ (asked 4 db) (up _) ∙ rw table (rw missing refl)

  login_new :
      find? (has_subject arg.external_id) users ≡ none
      → find_or_create_oidc_user slug arg db ≡ (
        ok (user_row (new_user arg db), t.id),
        with_users (schema_of (tenant_result t)) rows_with_new (asked 5 db),
      )
  login_new missing =
      login_looks_up (ap (λ r. or_raise r no_rows (asked 4 db)) missing)
      ∙ >>=-ok (upsert_user (schema_of (tenant_result t)) arg) (answer_of (tenant_result t))
          (asked 4 db) (upsert_user-inserts missing)

-- In a tenant that is known and has its table of users, with every query answered, a login succeeds,
-- and a later login of the same subject, whatever address, name and role it brings, gets the same
-- account and leaves the tables of users as they are.
pub login_again :
    (slug : String) (arg arg' : UpsertUserParams) (db : Accounts) (t : GlobalTenant)
    (users : List User)
    → ((n : ℕ) → db.down n ≡ false)
    → find? (has_slug slug) db.tenants ≡ some t
    → db.users (schema_of (tenant_result t)) ≡ some users
    → arg'.external_id ≡ arg.external_id
    → let (first, db1) = find_or_create_oidc_user slug arg db in
      let (second, db2) = find_or_create_oidc_user slug arg' db1 in
      (is_ok first ≡ true) × (second ≡ first) × (db2.users ≡ db1.users)
login_again slug arg arg' db t users up known table same =
    let schema = schema_of (tenant_result t) in
    elim (Option-cases (find? (has_subject arg.external_id) users)) [
      | inr (u, found) ↦
          let again =
            login_found slug arg' (asked 4 db) t users up known table u
              (ap (λ i. find? (has_subject i) users) same ∙ found) in
          rw (login_found slug arg db t users up known table u found) (rw again (refl, refl, refl))
      | inl missing ↦
          let fresh = new_user arg db in
          let key = (eq_iff arg.external_id arg.external_id).1 refl in
          let rows = upsert (has_subject arg.external_id) (merge_user arg db.clock) fresh users in
          let db1 = with_users schema rows (asked 5 db) in
          let written =
            find?-upsert_self (has_subject arg.external_id) (merge_user arg db.clock) fresh key
              (λ x h. h) users in
          let found = rw missing at written in
          let table1 =
            ap (λ b. if b then some rows else db.users schema) ((eq_iff schema schema).1 refl) in
          let again =
            login_found slug arg' db1 t rows up known table1 fresh
              (ap (λ i. find? (has_subject i) rows) same ∙ found) in
          rw (login_new slug arg db t users up known table missing) (rw again (refl, refl, refl))
    ]
