-- ===== src/Comment/Service/Tests.antt =====
-- Runs of internal/comment/service.go.
use ticketowl.Comment.Service.{
  CommentZammad, NoteStore, list_thread, load_notes, entries, entry_time, thread_entry_from_article,
  thread_entry_from_note,
}
use ticketowl.Comment.Service.Laws.{thread_complete}
use mathlib.Core.List.{Perm}
use ticketowl.Base.{ℕ, pure, List, ◌≡◌, ◌∷◌, String, ok, false, [], refl, raise, failed, map}
use ticketowl.Comment.Types.{InternalNote, ThreadEntry}
use ticketowl.Sla.Types.{Uuid, Time}
use ticketowl.Base.Sort.{sort_by, insert_by}
use ticketowl.Base.Int.{pos}
use ticketowl.Zammad.Types.{Article}
use ticketowl.Base.Sort.Laws.{IsSorted}
use ticketowl.Base.Text.{itoa}

abbrev article : ℕ → Time → Article
article id t = record {
  id = id;
  ticket_id = 41;
  type = "email";
  sender = "Customer";
  body = "help";
  content_type = "text/plain";
  internal = false;
  created_by = "c@example";
  created_at = t;
}

abbrev note : InternalNote
note = record {
  id = 77;
  ticket_meta_id = 7;
  author_id = 1;
  author_name = "Ada";
  body = "call back";
  created_at = pos 15;
  updated_at = pos 15;
}

abbrev zammad : CommentZammad (Unit {0})
zammad = record {
  list_articles = λ id. pure (article 12 (pos 10) ∷ article 13 (pos 20) ∷ []);
  create_article = λ req. raise failed;
}

abbrev store : NoteStore (Unit {0})
store = record {
  get_ticket_meta_id = λ id. pure 7;
  list_by_ticket_meta_id = λ id. pure (note ∷ []);
  create = λ n. pure tt;
}

abbrev id_text : Uuid → String
id_text id = "77"

abbrev thread : List ThreadEntry
thread =
    sort_by entry_time
      (entries id_text (article 12 (pos 10) ∷ article 13 (pos 20) ∷ []) (note ∷ []))

listed : (list_thread zammad store id_text 41 tt).0 ≡ ok thread
unfolding list_thread load_notes
listed = refl

test-list_thread : map (λ (e : ThreadEntry). e.id) thread ≡ "12" ∷ "77" ∷ "13" ∷ []
unfolding sort_by insert_by thread_entry_from_article thread_entry_from_note itoa
test-list_thread = refl

thread_complete_example :
    (articles : List Article) × (notes : List InternalNote) × ((zammad.list_articles 41 tt).0
      ≡ ok articles)
    × ((load_notes zammad store id_text 41 (zammad.list_articles 41 tt).1).0 ≡ ok notes)
    × IsSorted entry_time thread
    × Perm thread (entries id_text articles notes)
thread_complete_example = thread_complete zammad store id_text 41 tt thread listed
