-- ===== src/BookOwl/Endpoints.antt =====
-- internal/bookowl: the endpoints of articles.go, search.go and postmortems.go. `escape` is
-- `url.QueryEscape`, and the JSON of the types is a parameter.
mod Tests
use ticketowl.Base.{String, List, Option, ◌∷◌, Action, ◌++◌, []}
use ticketowl.BookOwl.{Article, SearchOptions, ArticleSummary, CreatePostMortemRequest, PostMortem}
use ticketowl.Http.Transport.{Transport, positive, join, decoded, filled, encode_values}
use ticketowl.Base.Text.{itoa, ◌^^◌}

pub record BookOwlJson : Type 0 where
  pub article : String → Option Article
  pub summaries : String → Option (List ArticleSummary)
  pub post_mortem : String → Option PostMortem
  pub post_mortem_request : CreatePostMortemRequest → String

abbrev pub tags_value : List String → List (String × String)
tags_value [] = []
tags_value (tag ∷ tags) = ("tags", join "," (tag ∷ tags)) ∷ []

-- in the order of the keys
abbrev pub search_values : SearchOptions → List (String × String)
search_values opts =
    positive "limit" opts.limit ++ (filled "query" opts.query ++ tags_value opts.tags)

module _ {S : Type 0} (c : Transport S) (json : BookOwlJson) (escape : String → String) where
  -- the id as it is, not escaped
  unfoldable pub get_article : String → Action S Article
  get_article article_id = decoded json.article (c.get ("/api/v1/articles/" ^^ article_id))

  unfoldable pub search_articles : SearchOptions → Action S (List ArticleSummary)
  unfolding itoa
  search_articles opts =
      decoded json.summaries
        (c.get ("/api/v1/articles/search?" ^^ encode_values escape (search_values opts)))

  unfoldable pub create_post_mortem : CreatePostMortemRequest → Action S PostMortem
  create_post_mortem req =
      decoded json.post_mortem (c.post "/api/v1/postmortems" (json.post_mortem_request req))
