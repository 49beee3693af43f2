-- ===== src/Auth.antt =====
-- internal/authadapter/adapter.go, on the queries of sqlc/queries: the accounts of the tenants. `users`
-- has the table of each tenant's schema, if there is one; the methods of the embedded BaseAdapter are
-- not under this repository.
pub mod Laws
mod Tests
use ticketowl.Base.{
  String, Option, ℕ, Action, List, true, some, Bool, suc, or_raise, pure, ok, none, Result, ◌>>◌,
  ◌>>=◌, if◌then◌else◌, str_eq, find?, map, ◌==◌, err, attempt, failed, no_rows, [],
}
use ticketowl.Base.Table.{upsert, upserted, update}
use ticketowl.Base.Text.{◌^^◌}
use ticketowl.Sla.Types.{Uuid, Time}

pub record GlobalTenant : Type 0 where
  pub id : Uuid
  pub slug : String
  pub name : String
  pub suspended : Bool
  pub created_at : Time
  pub updated_at : Time

pub record GlobalApiKey : Type 0 where
  pub id : Uuid
  pub tenant_id : Uuid
  pub key_hash : String
  pub description : String
  pub created_at : Time
  pub last_used_at : Option Time

pub record User : Type 0 where
  pub id : Uuid
  pub external_id : String
  pub email : String
  pub display_name : String
  pub role : String
  pub is_active : Bool
  pub created_at : Time
  pub updated_at : Time

pub record UpsertUserParams : Type 0 where
  pub external_id : String
  pub email : String
  pub display_name : String
  pub role : String

-- the fields that the adapter fills of the results in core's pkg/auth
pub record ApiKeyResult : Type 0 where
  pub api_key_id : Uuid
  pub tenant_id : Uuid
  pub key_prefix : String
  pub role : String
  pub scopes : List String
  pub expires_at : Option Time

pub record TenantResult : Type 0 where
  pub id : Uuid
  pub slug : String

pub record UserRow : Type 0 where
  pub id : Uuid
  pub external_id : Option String
  pub email : String
  pub display_name : String
  pub role : String
  pub is_active : Bool

-- `down n` says that the query with number `n` fails
pub record Accounts : Type 0 where
  pub down : ℕ → Bool
  pub queries : ℕ
  pub next_id : Uuid
  pub clock : Time
  pub tenants : List GlobalTenant
  pub api_keys : List GlobalApiKey
  pub users : String → Option (List User)

unfoldable pub ask : {A : Type 0} → Action Accounts A → Action Accounts A
ask run db =
    let db' = record db { queries = suc db.queries } in
    if db.down db.queries then (err failed, db') else run db'

abbrev pub has_slug : String → GlobalTenant → Bool
has_slug slug t = str_eq t.slug slug

abbrev pub tenant_result : GlobalTenant → TenantResult
tenant_result t = record { id = t.id; slug = t.slug }

unfoldable pub get_tenant_by_slug : String → Action Accounts TenantResult
get_tenant_by_slug slug =
    ask (λ db. or_raise (find? (has_slug slug) db.tenants) no_rows db) >>= λ t.
    pure (tenant_result t)

unfoldable pub get_tenant : Uuid → Action Accounts TenantResult
get_tenant id = ask (λ db. or_raise (find? (λ t. t.id == id) db.tenants) no_rows db) >>= λ t.
    pure (tenant_result t)

-- `by_name` is the ORDER BY name, which depends on the collation
unfoldable pub list_tenants :
    (List GlobalTenant → List GlobalTenant) → Action Accounts (List TenantResult)
list_tenants by_name =
    ask (λ db. pure (by_name db.tenants) db) >>= λ ts. pure (map tenant_result ts)

-- every key has the role of an administrator
unfoldable pub get_api_key_by_hash : String → Action Accounts ApiKeyResult
get_api_key_by_hash hash =
    ask
      (λ db. or_raise (find? (λ (k : GlobalApiKey). str_eq k.key_hash hash) db.api_keys) no_rows db)
    >>= λ key. pure (record {
      api_key_id = key.id;
      tenant_id = key.tenant_id;
      key_prefix = "";
      role = "admin";
      scopes = [];
      expires_at = none;
    })

unfoldable pub update_api_key_last_used : Uuid → Action Accounts (Unit {0})
update_api_key_last_used key_id = ask λ db.
    let used = λ (k : GlobalApiKey). record k { last_used_at = some db.clock } in
    (ok tt, record db { api_keys = update (λ k. k.id == key_id) used db.api_keys })

abbrev pub has_subject : String → User → Bool
has_subject subject u = str_eq u.external_id subject

-- a table that is not there fails the query
unfoldable pub get_user_by_external_id : String → String → Action Accounts User
get_user_by_external_id schema external_id = ask λ db. elim (db.users schema) [
  | none ↦ (err failed, db)
  | some users ↦ or_raise (find? (has_subject external_id) users) no_rows db
]

abbrev pub new_user : UpsertUserParams → Accounts → User
new_user arg db = record {
  id = db.next_id;
  external_id = arg.external_id;
  email = arg.email;
  display_name = arg.display_name;
  role = arg.role;
  is_active = true;
  created_at = db.clock;
  updated_at = db.clock;
}

-- ON CONFLICT (external_id): the role stays
abbrev pub merge_user : UpsertUserParams → Time → User → User
merge_user arg now u = record u {
  email = arg.email;
  display_name = arg.display_name;
  updated_at = now;
}

abbrev pub with_users : String → List User → Accounts → Accounts
with_users schema rows db = record db {
  next_id = suc db.next_id;
  users = λ s. if str_eq s schema then some rows else db.users s;
}

unfoldable pub upsert_user : String → UpsertUserParams → Action Accounts User
upsert_user schema arg = ask λ db. elim (db.users schema) [
  | none ↦ (err failed, db)
  | some users ↦
      let same = has_subject arg.external_id in
      let merge = merge_user arg db.clock in
      let fresh = new_user arg db in
      (
        ok (upserted merge fresh (find? same users)),
        with_users schema (upsert same merge fresh users) db,
      )
]

abbrev pub user_row : User → UserRow
user_row u = record {
  id = u.id;
  external_id = some u.external_id;
  email = u.email;
  display_name = u.display_name;
  role = u.role;
  is_active = u.is_active;
}

abbrev pub schema_of : TenantResult → String
schema_of t = "tenant_" ^^ t.slug

-- any error of the lookup leads to the upsert
abbrev pub or_upsert : String → UpsertUserParams → Result User → Action Accounts User
or_upsert schema arg (ok user) = pure user
or_upsert schema arg (err e) = upsert_user schema arg

abbrev pub answer_of : TenantResult → User → Action Accounts (UserRow × Uuid)
answer_of t user = pure (user_row user, t.id)

abbrev pub account_of :
    TenantResult → UpsertUserParams → Result User → Action Accounts (UserRow × Uuid)
account_of t arg found = or_upsert (schema_of t) arg found >>= answer_of t

abbrev pub find_account : TenantResult → UpsertUserParams → Action Accounts (UserRow × Uuid)
find_account t arg =
    attempt (get_user_by_external_id (schema_of t) arg.external_id) >>= account_of t arg

-- the connection and its search path, each of which may fail, then the user
abbrev pub account_in : TenantResult → UpsertUserParams → Action Accounts (UserRow × Uuid)
account_in t arg = ask (pure tt) >>= λ _. ask (pure tt) >>= λ _. find_account t arg

unfoldable pub find_or_create_oidc_user :
    String → UpsertUserParams → Action Accounts (UserRow × Uuid)
find_or_create_oidc_user tenant_slug arg = get_tenant_by_slug tenant_slug >>= λ t. account_in t arg
