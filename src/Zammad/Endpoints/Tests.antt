-- ===== src/Zammad/Endpoints/Tests.antt =====
-- The examples of the endpoints of internal/zammad; the remote state is the list of the paths asked.
use ticketowl.Base.{String, List, [], ◌∷◌, ◌++◌, none, some, ok, err, failed, refl, ◌≡◌}
use ticketowl.Base.Text.{itoa}
use ticketowl.Http.Transport.{Transport}
use ticketowl.Http.Client.{answered, no_answer}
use ticketowl.Zammad.Types.{ListTicketsOptions}
use ticketowl.Zammad.Endpoints.{
  ZammadJson, build_list_query, search_users_by_email, test_connection,
}

abbrev same : String → String
same text = text

abbrev one_page : ListTicketsOptions
one_page = record {
  page = 2;
  per_page = 0;
  state_ids = 1 ∷ 4 ∷ [];
  group_ids = [];
  org_id = some 9;
  order_by = "created_at";
  sort_by = "";
}

query_in_order :
    build_list_query same one_page
    ≡ "expand=true&order_by=created_at&organization_id=9&page=2&state_id=1,4"
unfolding itoa
query_in_order = refl

abbrev paths : Transport (List String)
paths = record {
  get = λ path seen. (ok "[]", seen ++ path ∷ []);
  post = λ path body seen. (ok "{}", seen ++ path ∷ []);
  put = λ path body seen. (ok "{}", seen ++ path ∷ []);
  delete = λ path seen. (ok tt, seen ++ path ∷ []);
}

abbrev no_json : ZammadJson
no_json = record {
  ticket = λ t. none;
  tickets = λ t. some [];
  article = λ t. none;
  articles = λ t. some [];
  user = λ t. none;
  users = λ t. some [];
  organisation = λ t. none;
  states = λ t. some [];
  priorities = λ t. some [];
  groups = λ t. some [];
  ticket_create = λ r. "";
  ticket_update = λ r. "";
  article_create = λ r. "";
  new_user = λ r. "";
}

-- Nobody with the address is no error.
search_nobody :
    search_users_by_email paths no_json same "a@b" []
    ≡ (ok none, "/api/v1/users/search?query=email:a@b&limit=1&expand=true" ∷ [])
unfolding search_users_by_email
search_nobody = refl

test_statuses :
    (test_connection no_answer ≡ err failed)
    × (test_connection (answered 403 "") ≡ err failed)
    × (test_connection (answered 302 "") ≡ err failed)
    × (test_connection (answered 200 "") ≡ ok tt)
unfolding test_connection
test_statuses = (refl, refl, refl, refl)
