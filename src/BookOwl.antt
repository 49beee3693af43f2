-- ===== src/BookOwl.antt =====
-- internal/bookowl: articles.go, search.go and postmortems.go.
pub mod Endpoints
use ticketowl.Base.{ℕ, String, List}

pub record Article : Type 0 where
  pub id : String
  pub slug : String
  pub title : String
  pub body : String
  pub tags : List String
  pub url : String
  pub status : String

pub record SearchOptions : Type 0 where
  pub query : String
  pub tags : List String
  pub limit : ℕ

pub record ArticleSummary : Type 0 where
  pub id : String
  pub slug : String
  pub title : String
  pub excerpt : String
  pub tags : List String
  pub url : String

pub record CreatePostMortemRequest : Type 0 where
  pub title : String
  pub ticket_id : String
  pub ticket_number : String
  pub incident_ids : List String
  pub summary : String
  pub tags : List String

pub record PostMortem : Type 0 where
  pub id : String
  pub url : String
