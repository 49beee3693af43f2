-- ===== src/Comment/Handler/Tests.antt =====
-- The examples of internal/comment/handler.go.
use ticketowl.Http.Client.{is_not_found}
use ticketowl.Base.{ℕ, String, some, raise, failed, refl, ◌≡◌, pure, [], api}
use ticketowl.Sla.Types.{Uuid}
use ticketowl.Comment.Service.{CommentZammad, NoteStore, list_thread, add_public_reply}
use ticketowl.Comment.Handler.{handle_list_thread, handle_add_public_reply}

abbrev missing : CommentZammad ℕ
missing = record { list_articles = λ id. raise (api 404); create_article = λ req. raise (api 404) }

abbrev no_notes : NoteStore ℕ
no_notes = record {
  get_ticket_meta_id = λ id. raise failed;
  list_by_ticket_meta_id = λ id. pure [];
  create = λ note. raise failed;
}

abbrev as_text : Uuid → String
as_text id = ""

-- Only the thread tells a missing ticket from other errors.
missing_ticket_statuses :
    ((handle_list_thread (pure missing) no_notes as_text (some 41) 0).0.status ≡ 404)
    × ((handle_add_public_reply
          (pure missing)
          no_notes
          as_text
          (some 41)
          (some (record { body = "hi"; content_type = "" }))
          0).0.status
        ≡ 500)
unfolding handle_list_thread handle_add_public_reply list_thread add_public_reply is_not_found
missing_ticket_statuses = (refl, refl)

empty_reply_refused :
    (handle_add_public_reply
      (pure missing)
      no_notes
      as_text
      (some 41)
      (some (record { body = ""; content_type = "" }))
      0).0.status
    ≡ 400
unfolding handle_add_public_reply
empty_reply_refused = refl
