-- ===== src/BookOwl/Endpoints/Tests.antt =====
-- The examples of the endpoints of internal/bookowl.
use ticketowl.Base.{◌∷◌, [], ◌≡◌, refl}
use ticketowl.BookOwl.Endpoints.{search_values}
use ticketowl.Base.Text.{itoa}
use ticketowl.Http.Transport.{encode_values}

values_in_order :
    encode_values
      (λ t. t)
      (search_values (record { query = "disk"; tags = "db" ∷ "ops" ∷ []; limit = 3 }))
    ≡ "limit=3&query=disk&tags=db,ops"
unfolding itoa
values_in_order = refl

-- With nothing set the query is empty.
nothing_set :
    encode_values (λ t. t) (search_values (record { query = ""; tags = []; limit = 0 })) ≡ ""
nothing_set = refl
