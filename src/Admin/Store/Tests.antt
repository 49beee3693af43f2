-- ===== src/Admin/Store/Tests.antt =====
-- Runs of internal/admin/store.go.
use ticketowl.Admin.Store.{upsert_zammad_config, new_config, update_zammad_pause_statuses}
use ticketowl.Base.Table.{upsert}
use ticketowl.Db.Sample.{empty_db, sample_config}
use ticketowl.Db.{Db, query}
use ticketowl.Admin.Types.{UpdateZammadConfigRequest}
use ticketowl.Base.{◌≡◌, ◌∷◌, [], ok, refl, some, none, err, failed}

abbrev configured : Db
configured = record empty_db { zammad_config = sample_config ∷ [] }

abbrev request : UpdateZammadConfigRequest
request = record {
  url = "https://new.example";
  api_token = "new";
  webhook_secret = "new secret";
  pause_statuses = some [];
}

-- an update adds a row
update_adds :
    let (result, db') = upsert_zammad_config request 1 configured in
    (result ≡ ok (new_config request [] 1 configured))
    × (db'.zammad_config ≡ sample_config ∷ new_config request [] 1 configured ∷ [])
unfolding upsert_zammad_config query upsert
update_adds = (refl, refl)

statuses_wanted :
    ((upsert_zammad_config (record request { pause_statuses = none }) 1 configured).0 ≡ err failed)
    × ((update_zammad_pause_statuses none 1 configured).0 ≡ err failed)
unfolding upsert_zammad_config query update_zammad_pause_statuses
statuses_wanted = (refl, refl)
