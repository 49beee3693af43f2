-- ===== src/Admin/Handler/Tests.antt =====
-- The examples of internal/admin/handler.go.
use ticketowl.Base.{
  [], ◌∷◌, true, false, some, none, ◌≡◌, refl, err, failed, str_eq, if◌then◌else◌, ok, String,
}
use ticketowl.Db.{Db, query}
use ticketowl.Db.Sample.{empty_db, sample_config}
use ticketowl.Admin.Store.{get_zammad_config}
use ticketowl.Admin.Store.Orgs.{create_customer_org}
use ticketowl.Admin.Handler.{handle_get_config, handle_test_stored_zammad}
use ticketowl.Admin.Handler.Orgs.{handle_create_customer_org}
use ticketowl.Admin.Handler.Secrets.{get_config_hides}
use ticketowl.Http.Respond.{value}
use ticketowl.Base.Int.{pos}
use ticketowl.Admin.Types.{CreateCustomerOrgRequest}

abbrev configured : String → String → Db
configured token key = record empty_db {
  zammad_config = record sample_config { api_token = token } ∷ [];
  integration_keys =
      record {
        id = 3;
        service = "nightowl";
        api_key = key;
        api_url = "https://nightowl.example";
        updated_at = pos 0;
      }
      ∷ [];
}

get_config_hides_example :
    (handle_get_config true (configured "one" "first")).0
    ≡ (handle_get_config true (configured "two" "second")).0
get_config_hides_example =
    get_config_hides true (configured "one" "first") (configured "two" "second") refl

create_org_unnamed :
    (handle_create_customer_org
      (some (record { name = ""; oidc_group = "g"; zammad_org_id = none }))
      empty_db).0.status
    ≡ 400
unfolding handle_create_customer_org
create_org_unnamed = refl

abbrev acme : CreateCustomerOrgRequest
acme = record { name = "Acme"; oidc_group = "acme"; zammad_org_id = none }

create_org_twice :
    let (first, db) = handle_create_customer_org (some acme) empty_db in
    (first.status ≡ 201) × ((handle_create_customer_org (some acme) db).0.status ≡ 500)
unfolding handle_create_customer_org create_customer_org query
create_org_twice = (refl, refl)

stored_tested :
    let tester = λ (url token : String). if str_eq token "one" then ok tt else err failed in
    (handle_test_stored_zammad (some tester) (λ e. "refused") (configured "two" "")).0.body
    ≡ value (record { success = false; error = some "refused" })
unfolding handle_test_stored_zammad get_zammad_config query
stored_tested = refl
