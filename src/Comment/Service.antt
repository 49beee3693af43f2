-- ===== src/Comment/Service.antt =====
-- internal/comment/service.go: the thread, the public replies and the internal notes. `id_text` is
-- `uuid.UUID.String`. Entries with one time keep the order of their sources; `sort.Slice` promises no
-- order for them.
pub mod Laws
mod Tests
use ticketowl.Base.Text.{itoa}
use ticketowl.Base.{
  ℕ, Action, String, List, Result, ◌>>=◌, true, map, if◌then◌else◌, ok, attempt, pure, ◌>>◌, ◌++◌,
  str_eq, err, false, is_no_rows, [], raise,
}
use ticketowl.Zammad.Types.{Article, ArticleCreate}
use ticketowl.Sla.Types.{Uuid, Time}
use ticketowl.Comment.Types.{ThreadEntry, AddReplyRequest, InternalNote, AddNoteRequest}
use ticketowl.Base.Sort.{sort_by}

pub record CommentZammad (S : Type 0) : Type 0 where
  pub list_articles : ℕ → Action S (List Article)
  pub create_article : ArticleCreate → Action S Article

pub record NoteStore (S : Type 0) : Type 0 where
  pub get_ticket_meta_id : ℕ → Action S Uuid
  pub list_by_ticket_meta_id : Uuid → Action S (List InternalNote)
  pub create : InternalNote → Action S (Unit {0})

unfoldable pub thread_entry_from_article : Article → ThreadEntry
unfolding itoa
thread_entry_from_article a = record {
  id = itoa a.id;
  source = "zammad";
  type = a.type;
  sender = a.sender;
  body = a.body;
  internal = a.internal;
  created_by = a.created_by;
  created_at = a.created_at;
}

unfoldable pub thread_entry_from_note : (Uuid → String) → InternalNote → ThreadEntry
thread_entry_from_note id_text n = record {
  id = id_text n.id;
  source = "internal";
  type = "internal_note";
  sender = n.author_name;
  body = n.body;
  internal = true;
  created_by = n.author_name;
  created_at = n.created_at;
}

abbrev pub entry_time : ThreadEntry → Time
entry_time e = e.created_at

abbrev pub entries : (Uuid → String) → List Article → List InternalNote → List ThreadEntry
entries id_text articles notes =
    map thread_entry_from_article articles ++ map (thread_entry_from_note id_text) notes

abbrev pub article_request : ℕ → AddReplyRequest → ArticleCreate
article_request zammad_id req = record {
  ticket_id = zammad_id;
  type_id = 11;
  body = req.body;
  content_type = if str_eq req.content_type "" then "text/html" else req.content_type;
  internal = false;
  sender_id = 2;
}

-- `now` is time.Now() and `new_id` uuid.New()
abbrev pub new_note : Time → Uuid → Uuid → Uuid → String → AddNoteRequest → InternalNote
new_note now new_id meta_id author_id author_name req = record {
  id = new_id;
  ticket_meta_id = meta_id;
  author_id = author_id;
  author_name = author_name;
  body = req.body;
  created_at = now;
  updated_at = now;
}

module _ {S : Type 0} (zammad : CommentZammad S) (store : NoteStore S)
    (id_text : Uuid → String) where
  -- a ticket without metadata has no notes
  abbrev pub notes_of : Result Uuid → Action S (List InternalNote)
  notes_of (ok meta_id) = store.list_by_ticket_meta_id meta_id
  notes_of (err e) = if is_no_rows e then pure [] else raise e

  unfoldable pub load_notes : ℕ → Action S (List InternalNote)
  load_notes zammad_id = attempt (store.get_ticket_meta_id zammad_id) >>= notes_of

  abbrev pub merge_thread : List Article → List InternalNote → Action S (List ThreadEntry)
  merge_thread articles notes = pure (sort_by entry_time (entries id_text articles notes))

  abbrev pub thread_with : ℕ → List Article → Action S (List ThreadEntry)
  thread_with zammad_id articles = load_notes zammad_id >>= merge_thread articles

  unfoldable pub list_thread : ℕ → Action S (List ThreadEntry)
  list_thread zammad_id = zammad.list_articles zammad_id >>= thread_with zammad_id

  unfoldable pub add_public_reply : ℕ → AddReplyRequest → Action S ThreadEntry
  add_public_reply zammad_id req = do
    article ← zammad.create_article (article_request zammad_id req)
    pure (thread_entry_from_article article)

  unfoldable pub add_internal_note :
      Time → Uuid → ℕ → Uuid → String → AddNoteRequest → Action S ThreadEntry
  add_internal_note now new_id zammad_id author_id author_name req = do
    meta_id ← store.get_ticket_meta_id zammad_id
    store.create (new_note now new_id meta_id author_id author_name req)
    pure (thread_entry_from_note id_text (new_note now new_id meta_id author_id author_name req))
