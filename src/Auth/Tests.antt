-- ===== src/Auth/Tests.antt =====
-- Logins of internal/authadapter.
use ticketowl.Base.{
  false, ◌∷◌, ◌≡◌, [], err, if◌then◌else◌, refl, no_rows, str_eq, some, none, is_ok, true,
}
use ticketowl.Auth.{
  GlobalTenant, Accounts, UpsertUserParams, find_or_create_oidc_user, get_tenant_by_slug, ask,
}
use ticketowl.Base.Int.{pos}
use ticketowl.Auth.Laws.{login_again}

abbrev acme : GlobalTenant
acme = record {
  id = 1;
  slug = "acme";
  name = "Acme";
  suspended = false;
  created_at = pos 0;
  updated_at = pos 0;
}

abbrev accounts : Accounts
accounts = record {
  down = λ n. false;
  queries = 0;
  next_id = 50;
  clock = pos 3;
  tenants = acme ∷ [];
  api_keys = [];
  users = λ s. if str_eq s "tenant_acme" then some [] else none;
}

abbrev ada : UpsertUserParams
ada = record { external_id = "sub-1"; email = "ada@acme"; display_name = "Ada"; role = "agent" }

login_again_example :
    let (first, db1) = find_or_create_oidc_user "acme" ada accounts in
    let (second, db2) = find_or_create_oidc_user "acme" (record ada { role = "admin" }) db1 in
    (is_ok first ≡ true) × (second ≡ first) × (db2.users ≡ db1.users)
login_again_example =
    login_again "acme" ada (record ada { role = "admin" }) accounts acme [] (λ n. refl) refl refl
      refl

unknown_tenant : (find_or_create_oidc_user "other" ada accounts).0 ≡ err no_rows
unfolding find_or_create_oidc_user get_tenant_by_slug ask
unknown_tenant = refl
