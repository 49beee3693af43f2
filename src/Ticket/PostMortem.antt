-- ===== src/Ticket/PostMortem.antt =====
-- internal/ticket/postmortem.go: the post-mortem of a ticket in BookOwl. `id_text` is
-- `uuid.UUID.String`, `parse_uuid` is `uuid.Parse` and `new_id` is `uuid.New()`.
pub mod Laws
pub mod Once
mod Tests
use ticketowl.Base.{
  ℕ, String, List, [], ◌∷◌, ◌++◌, Option, some, none, Result, ok, err, Error, failed, exists,
  Action, ◌>>=◌, pure, raise, attempt, is_no_rows, if◌then◌else◌, str_eq, get_or,
}
use ticketowl.Base.Text.{◌^^◌}
use ticketowl.Sla.Types.{Uuid}
use ticketowl.BookOwl.{CreatePostMortemRequest, PostMortem}
use ticketowl.NightOwl.Types.{Incident}
use ticketowl.Link.Types.{IncidentLink, PostMortemLink}

pub record PostMortemCreator (S : Type 0) : Type 0 where
  pub create_post_mortem : CreatePostMortemRequest → Action S PostMortem

pub record IncidentFetcher (S : Type 0) : Type 0 where
  pub get_incident : String → Action S Incident

pub record PostMortemStore (S : Type 0) : Type 0 where
  pub get_ticket_meta_id : ℕ → Action S Uuid
  pub get_postmortem_link : Uuid → Action S PostMortemLink
  pub create_postmortem_link : Uuid → Uuid → Uuid → String → Action S PostMortemLink
  pub list_incident_links : Uuid → Action S (List IncidentLink)

pub record PostMortemResult : Type 0 where
  pub postmortem_id : String
  pub postmortem_url : String

-- the ids of the incidents found, and the first summary that is not empty
pub record Collected : Type 0 where
  pub incident_ids : List String
  pub summary : String

abbrev pub add_incident : Result Incident → Collected → Collected
add_incident (err e) c = c
add_incident (ok i) c = record {
  incident_ids = c.incident_ids ++ i.id ∷ [];
  summary = if str_eq c.summary "" then i.summary else c.summary;
}

module _ {S : Type 0} (nightowl : IncidentFetcher S) (id_text : Uuid → String) where
  -- an incident that cannot be fetched is left out
  unfoldable pub collect : List IncidentLink → Collected → Action S Collected
  collect [] c = pure c
  collect (l ∷ links) c = attempt (nightowl.get_incident (id_text l.incident_id)) >>= λ r.
      collect links (add_incident r c)

abbrev pub nothing_collected : Collected
nothing_collected = record { incident_ids = []; summary = "" }

abbrev pub postmortem_request :
    (Uuid → String) → Uuid → String → String → Collected → CreatePostMortemRequest
postmortem_request id_text meta_id number title c = record {
  title = "Post-Mortem: " ^^ title;
  ticket_id = id_text meta_id;
  ticket_number = number;
  incident_ids = c.incident_ids;
  summary = c.summary;
  tags = [];
}

module _ {S : Type 0} (store : PostMortemStore S) (bookowl : PostMortemCreator S)
    (nightowl : IncidentFetcher S) (id_text : Uuid → String) (parse_uuid : String → Option Uuid)
    (new_id : Uuid) where
  abbrev pub stored_as : PostMortem → PostMortemLink → Action S PostMortemResult
  stored_as pm l = pure (record { postmortem_id = pm.id; postmortem_url = pm.url })

  abbrev pub store_link : Uuid → Uuid → PostMortem → Action S PostMortemResult
  store_link meta_id created_by pm =
      store.create_postmortem_link meta_id (get_or (parse_uuid pm.id) new_id) created_by pm.url
      >>= stored_as pm

  abbrev pub create_from : Uuid → String → String → Uuid → Collected → Action S PostMortemResult
  create_from meta_id number title created_by c =
      bookowl.create_post_mortem (postmortem_request id_text meta_id number title c)
      >>= store_link meta_id created_by

  abbrev pub collect_and_create :
      Uuid → String → String → Uuid → List IncidentLink → Action S PostMortemResult
  collect_and_create meta_id number title created_by links =
      collect nightowl id_text links nothing_collected
      >>= create_from meta_id number title created_by

  abbrev pub unless_exists :
      Uuid → String → String → Uuid → Result PostMortemLink → Action S PostMortemResult
  unless_exists meta_id number title created_by (ok l) = raise (exists l.postmortem_url)
  unless_exists meta_id number title created_by (err e) =
      if is_no_rows e
      then store.list_incident_links meta_id >>= collect_and_create meta_id number title created_by
      else raise e

  abbrev pub for_meta : String → String → Uuid → Result Uuid → Action S PostMortemResult
  for_meta number title created_by (ok meta_id) =
      attempt (store.get_postmortem_link meta_id) >>= unless_exists meta_id number title created_by
  for_meta number title created_by (err e) = raise (if is_no_rows e then failed else e)

  unfoldable pub create_post_mortem : ℕ → String → String → Uuid → Action S PostMortemResult
  create_post_mortem zammad_id number title created_by =
      attempt (store.get_ticket_meta_id zammad_id) >>= for_meta number title created_by
