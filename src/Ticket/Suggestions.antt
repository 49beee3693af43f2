-- ===== src/Ticket/Suggestions.antt =====
-- internal/ticket/suggestions.go.
use ticketowl.Base.{String, List, [], map, Result, ok, err, Action, ◌>>=◌, attempt, pure}
use ticketowl.BookOwl.{SearchOptions, ArticleSummary}

pub record BookOwlSearcher (S : Type 0) : Type 0 where
  pub search_articles : SearchOptions → Action S (List ArticleSummary)

pub record Suggestion : Type 0 where
  pub id : String
  pub slug : String
  pub title : String
  pub excerpt : String
  pub tags : List String
  pub url : String

abbrev pub suggestion : ArticleSummary → Suggestion
suggestion r = record {
  id = r.id;
  slug = r.slug;
  title = r.title;
  excerpt = r.excerpt;
  tags = r.tags;
  url = r.url;
}

abbrev pub suggestions_of : Result (List ArticleSummary) → List Suggestion
suggestions_of (ok results) = map suggestion results
suggestions_of (err e) = []

-- a failing search gives no suggestions
unfoldable pub get_suggestions :
    {S : Type 0} → BookOwlSearcher S → String → List String → Action S (List Suggestion)
get_suggestions searcher title tags =
    attempt (searcher.search_articles (record { query = title; tags = tags; limit = 5 })) >>= λ r.
    pure (suggestions_of r)
