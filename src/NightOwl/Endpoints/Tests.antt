-- ===== src/NightOwl/Endpoints/Tests.antt =====
-- The examples of the endpoints of internal/nightowl; the remote state is the list of the paths asked.
use ticketowl.Base.{none, [], List, some, ◌≡◌, String, ok, err, ◌++◌, ◌∷◌, failed, refl}
use ticketowl.NightOwl.Endpoints.{NightOwlJson, get_incident, list_incidents, search_incidents}
use ticketowl.Http.Transport.{Transport}
use ticketowl.Base.Text.{itoa}

abbrev paths : Transport (List String)
paths = record {
  get = λ path seen. (ok "[]", seen ++ path ∷ []);
  post = λ path body seen. (ok "{}", seen ++ path ∷ []);
  put = λ path body seen. (ok "{}", seen ++ path ∷ []);
  delete = λ path seen. (ok tt, seen ++ path ∷ []);
}

abbrev lists_only : NightOwlJson
lists_only = record {
  alert = λ t. none;
  incident = λ t. none;
  incidents = λ t. some [];
  on_call = λ t. none;
  alert_request = λ r. "";
}

search_path :
    search_incidents paths lists_only (λ t. t) "disk" 5 []
    ≡ (ok [], "/api/v1/incidents/search?q=disk&limit=5" ∷ [])
unfolding search_incidents itoa
search_path = refl

list_paths :
    (list_incidents paths lists_only (λ t. t) "" [] ≡ (ok [], "/api/v1/incidents" ∷ []))
    × (list_incidents paths lists_only (λ t. t) "open" []
        ≡ (ok [], "/api/v1/incidents?status=open" ∷ []))
unfolding list_incidents
list_paths = (refl, refl)

-- An answer that does not decode is an error, after the call.
undecoded :
    get_incident paths lists_only (λ t. t) "7/x" [] ≡ (err failed, "/api/v1/incidents/7/x" ∷ [])
unfolding get_incident
undecoded = refl
