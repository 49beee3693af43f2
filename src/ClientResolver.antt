-- ===== src/ClientResolver.antt =====
-- internal/clientresolver/resolver.go: the client of a tenant, made from an address and a key that the
-- tenant's database holds. `make` is `zammad.New`, `nightowl.New` or `bookowl.New`.
use ticketowl.Base.{String, Action, ◌>>=◌, pure}
use ticketowl.Db.{Db}
use ticketowl.Admin.Store.{get_zammad_config, get_integration_key}

module _ {C : Type 0} (make : String → String → C) where
  unfoldable pub zammad_client : Action Db C
  zammad_client = do cfg ← get_zammad_config; pure (make cfg.url cfg.api_token)

  unfoldable pub nightowl_client : Action Db C
  nightowl_client = do key ← get_integration_key "nightowl"; pure (make key.api_url key.api_key)

  unfoldable pub bookowl_client : Action Db C
  bookowl_client = do key ← get_integration_key "bookowl"; pure (make key.api_url key.api_key)

unfoldable pub webhook_secret : Action Db String
webhook_secret = do cfg ← get_zammad_config; pure cfg.webhook_secret
