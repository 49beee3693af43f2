-- ===== src/Comment/Service/Laws.antt =====
-- internal/comment/service.go: what a thread holds.
use ticketowl.Comment.Service.{
  CommentZammad, NoteStore, list_thread, load_notes, thread_with, merge_thread, entries, entry_time,
}
use mathlib.Core.Path.{subst}
use ticketowl.Sla.Types.{Uuid}
use ticketowl.Base.{String, ℕ, List, ◌≡◌, ok, >>=-inv, ap, sym, ◌∙◌, ok_inj}
use ticketowl.Comment.Types.{ThreadEntry, InternalNote}
use ticketowl.Zammad.Types.{Article}
use ticketowl.Base.Sort.Laws.{IsSorted, sort_by-IsSorted, sort_by_perm}
use mathlib.Core.List.{Perm}
use ticketowl.Base.Sort.{sort_by}

-- A thread that is listed holds one entry for each article of Zammad and for each note that was
-- loaded, no other, in the order of their times.
pub thread_complete :
    {S : Type 0} (zammad : CommentZammad S) (store : NoteStore S) (id_text : Uuid → String)
    (zammad_id : ℕ) (s : S) (thread : List ThreadEntry)
    → (list_thread zammad store id_text zammad_id s).0 ≡ ok thread
    → (articles : List Article) × (notes : List InternalNote) × ((zammad.list_articles zammad_id
          s).0
        ≡ ok articles)
      × ((load_notes zammad store id_text zammad_id (zammad.list_articles zammad_id s).1).0
          ≡ ok notes)
      × IsSorted entry_time thread
      × Perm thread (entries id_text articles notes)
unfolding list_thread
thread_complete zammad store id_text zammad_id s thread h =
    let list = zammad.list_articles zammad_id in
    let (articles, listed, run) = >>=-inv list (thread_with zammad store id_text zammad_id) s h in
    let s1 = (list s).1 in
    let (notes, loaded, merged) =
      >>=-inv (load_notes zammad store id_text zammad_id)
        (merge_thread zammad store id_text articles) s1 (ap (λ x. x.0) (sym run) ∙ h) in
    let all = entries id_text articles notes in
    let eq : sort_by entry_time all ≡ thread =
      ok_inj (ap (λ x. x.0) (sym merged) ∙ ap (λ x. x.0) (sym run) ∙ h) in
    (
      articles,
      notes,
      ap (λ x. x.0) listed,
      ap (λ x. x.0) loaded,
      subst (λ t. IsSorted entry_time t) eq (sort_by-IsSorted entry_time all),
      subst (λ t. Perm t all) eq (sort_by_perm entry_time all),
    )
