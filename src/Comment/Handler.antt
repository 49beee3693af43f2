-- ===== src/Comment/Handler.antt =====
-- internal/comment/handler.go. A path segment is the number that strconv.Atoi reads, none if it refuses
-- it; `body` is the decoded JSON, none if it is not the JSON of the request.
mod Tests
use ticketowl.Base.{
  ℕ, String, List, Option, none, some, Action, Error, str_eq, if◌then◌else◌, get_or,
}
use ticketowl.Sla.Types.{Uuid, Time}
use ticketowl.Comment.Types.{ThreadEntry, AddReplyRequest, AddNoteRequest}
use ticketowl.Comment.Service.{
  CommentZammad, NoteStore, list_thread, add_public_reply, add_internal_note,
}
use ticketowl.Http.Client.{is_not_found}
use ticketowl.Http.Respond.{Handled, respond, respond_error, call, parsed}

pub record Identity : Type 0 where
  pub user_id : Option Uuid
  pub email : String

-- `uuid.Nil` without a user
abbrev pub author_id : Option Identity → Uuid
author_id none = 0
author_id (some identity) = get_or identity.user_id 0

abbrev pub author_name : Option Identity → String
author_name none = "unknown"
author_name (some identity) = if str_eq identity.email "" then "unknown" else identity.email

module _ {S A : Type 0} where
  abbrev pub with_ticket : Option ℕ → (ℕ → Handled S A) → Handled S A
  with_ticket param = parsed param (respond_error 400 "bad_request" "invalid ticket ID")

  abbrev pub no_zammad : Error → Handled S A
  no_zammad e = respond_error 500 "internal_error" "zammad not configured"

  abbrev pub thread_failed : Error → Handled S A
  thread_failed e =
      if is_not_found e
      then respond_error 404 "not_found" "ticket not found"
      else respond_error 500 "internal_error" "failed to list thread"

module _ {S : Type 0} (resolve_zammad : Action S (CommentZammad S)) (store : NoteStore S)
    (id_text : Uuid → String) where
  unfoldable pub handle_list_thread : Option ℕ → Handled S (List ThreadEntry)
  handle_list_thread param = with_ticket param λ ticket_id.
      call resolve_zammad no_zammad
        λ zammad. call (list_thread zammad store id_text ticket_id) thread_failed (respond 200)

  unfoldable pub handle_add_public_reply : Option ℕ → Option AddReplyRequest → Handled S ThreadEntry
  handle_add_public_reply param body = with_ticket param λ ticket_id.
      parsed body (respond_error 400 "bad_request" "invalid request body") λ req.
        if str_eq req.body ""
        then respond_error 400 "bad_request" "body is required"
        else call resolve_zammad no_zammad λ zammad.
          call (add_public_reply zammad store id_text ticket_id req)
            (λ e. respond_error 500 "internal_error" "failed to add reply") (respond 201)

  -- `now` is time.Now() and `new_id` uuid.New()
  unfoldable pub handle_add_internal_note :
      Time → Uuid → Option ℕ → Option AddNoteRequest → Option Identity → Handled S ThreadEntry
  handle_add_internal_note now new_id param body identity = with_ticket param λ ticket_id.
      parsed body (respond_error 400 "bad_request" "invalid request body") λ req.
        if str_eq req.body ""
        then respond_error 400 "bad_request" "body is required"
        else call resolve_zammad no_zammad λ zammad.
          call
            (add_internal_note zammad store id_text now new_id ticket_id (author_id identity)
              (author_name identity) req)
            (λ e. respond_error 500 "internal_error" "failed to add note") (respond 201)
