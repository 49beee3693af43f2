-- ===== src/Ticket/PostMortem/Once.antt =====
-- internal/ticket/postmortem.go: a second post-mortem of a ticket is refused with the first one's URL.
use ticketowl.Base.{
  ℕ, String, List, [], ◌∷◌, Option, some, Result, ok, err, Action, ◌>>=◌, refl, sym, ap, ◌∙◌, ◌≡◌,
  true, Bool-cases, inl, inr, find?, >>=-inv, arith, is_no_rows, get_or, ok_inj, ◌==◌, false, suc,
  exists,
}
use ticketowl.Sla.Types.{Uuid}
use ticketowl.Sla.Store.{has_zammad_id}
use ticketowl.Db.{Db}
use ticketowl.Link.Types.{PostMortemLink, IncidentLink}
use ticketowl.Link.Store.{
  get_ticket_meta_id, get_postmortem_link, create_postmortem_link, list_incident_links,
  postmortem_of,
}
use ticketowl.Ticket.Types.{meta_id_of}
use ticketowl.Worker.Handler.Context.{on_db, on_remote}
use ticketowl.Ticket.PostMortem.{
  PostMortemCreator, IncidentFetcher, PostMortemResult, create_post_mortem, for_meta, unless_exists,
  collect_and_create, create_from, store_link, collect, nothing_collected, stored_as, add_incident,
  Collected, postmortem_request,
}
use ticketowl.Ticket.PostMortem.Laws.{
  db_postmortems, remote_creator, remote_fetcher, meta_read, link_created, meta_kept, link_kept,
  list_kept, find?-append_new, new_link, meta_found, link_found,
}
use ticketowl.BookOwl.{PostMortem}

==-refl : (n : ℕ) → (n == n) ≡ true
==-refl n = ground arith

collect_kept :
    {R : Type 0} (nightowl : IncidentFetcher R) (id_text : Uuid → String)
    (links : List IncidentLink) (c : Collected) (s : Db × R)
    → (collect (remote_fetcher nightowl) id_text links c s).1.0 ≡ s.0
unfolding collect
collect_kept nightowl id_text [] c s = refl
collect_kept nightowl id_text (l ∷ links) c s =
    collect_kept nightowl id_text links
      (add_incident (nightowl.get_incident (id_text l.incident_id) s.1).0 c)
      (s.0, (nightowl.get_incident (id_text l.incident_id) s.1).1)

-- What a success leaves: the link of the ticket's record, the first one there.
pub record IsStored (zammad_id : ℕ) (before : Db) (after : Db) (url : String) : Type 0 where
  pub meta_id : Uuid
  pub link : PostMortemLink
  pub tracked : meta_id_of (find? (has_zammad_id zammad_id) before.ticket_meta) ≡ some meta_id
  pub still_tracked : after.ticket_meta ≡ before.ticket_meta
  pub linked : find? (postmortem_of meta_id) after.postmortem_links ≡ some link
  pub same_url : link.postmortem_url ≡ url

module _ {R : Type 0} (bookowl : PostMortemCreator R) (nightowl : IncidentFetcher R)
    (id_text : Uuid → String) (parse_uuid : String → Option Uuid) (new_id : Uuid)
    (number title : String) (by_user : Uuid) where
  abbrev unless : Uuid → Result PostMortemLink → Action (Db × R) PostMortemResult
  unless meta_id =
      unless_exists (db_postmortems R) (remote_creator bookowl) (remote_fetcher nightowl) id_text
        parse_uuid new_id meta_id number title by_user

  abbrev from_links : Uuid → List IncidentLink → Action (Db × R) PostMortemResult
  from_links meta_id =
      collect_and_create (db_postmortems R) (remote_creator bookowl) (remote_fetcher nightowl)
        id_text parse_uuid new_id meta_id number title by_user

  abbrev from_collected : Uuid → Collected → Action (Db × R) PostMortemResult
  from_collected meta_id =
      create_from (db_postmortems R) (remote_creator bookowl) (remote_fetcher nightowl) id_text
        parse_uuid new_id meta_id number title by_user

  abbrev stored : Uuid → PostMortem → Action (Db × R) PostMortemResult
  stored meta_id =
      store_link (db_postmortems R) (remote_creator bookowl) (remote_fetcher nightowl) id_text
        parse_uuid new_id meta_id by_user

  abbrev for_id : Result Uuid → Action (Db × R) PostMortemResult
  for_id =
      for_meta (db_postmortems R) (remote_creator bookowl) (remote_fetcher nightowl) id_text
        parse_uuid new_id number title by_user

  abbrev steps_for : ℕ → Action (Db × R) PostMortemResult
  steps_for zammad_id =
      create_post_mortem (db_postmortems R) (remote_creator bookowl) (remote_fetcher nightowl)
        id_text parse_uuid new_id zammad_id number title by_user

  for_id_inv :
      (r0 : Result Uuid) (s : Db × R) {r : PostMortemResult}
      → (for_id r0 s).0 ≡ ok r
      → (meta_id : Uuid) × (r0 ≡ ok meta_id)
        × (for_id r0 s
            ≡ unless meta_id
                (get_postmortem_link meta_id s.0).0
                ((get_postmortem_link meta_id s.0).1, s.1))
  for_id_inv (ok m) s h = (m, refl, refl)
  for_id_inv (err e) s h = cc

  unless_inv :
      (meta_id : Uuid) (r1 : Result PostMortemLink) (s : Db × R) {r : PostMortemResult}
      → (unless meta_id r1 s).0 ≡ ok r
      → unless meta_id r1 s ≡ (on_db (list_incident_links meta_id) >>= from_links meta_id) s
  unless_inv meta_id (ok l) s h = cc
  unless_inv meta_id (err e) s h = elim (Bool-cases (is_no_rows e)) [
    | inl k ↦ rw k refl
    | inr k ↦ ground (arith, rw k at h)
  ]

  -- A success went through every step, and what it wrote is known.
  success :
      (zammad_id : ℕ) (s : Db × R) {r : PostMortemResult}
      → (steps_for zammad_id s).0 ≡ ok r
      → IsStored zammad_id s.0 (steps_for zammad_id s).1.0 r.postmortem_url
  unfolding create_post_mortem
  success zammad_id s {r} h =
      let s1 : Db × R = ((get_ticket_meta_id zammad_id s.0).1, s.1) in
      let (meta_id, is_meta, e1) = for_id_inv (get_ticket_meta_id zammad_id s.0).0 s1 h in
      let s2 : Db × R = ((get_postmortem_link meta_id s1.0).1, s.1) in
      let h1 = ap (λ x. x.0) (sym e1) ∙ h in
      let e2 = unless_inv meta_id (get_postmortem_link meta_id s1.0).0 s2 h1 in
      let h2 = ap (λ x. x.0) (sym e2) ∙ h1 in
      let (links, _, e3) =
        >>=-inv (on_db (list_incident_links meta_id)) (from_links meta_id) s2 h2 in
      let s3 : Db × R = ((list_incident_links meta_id s2.0).1, s.1) in
      let h3 = ap (λ x. x.0) (sym e3) ∙ h2 in
      let (c, _, e4) =
        >>=-inv (collect (remote_fetcher nightowl) id_text links nothing_collected)
          (from_collected meta_id) s3 h3 in
      let s4 = (collect (remote_fetcher nightowl) id_text links nothing_collected s3).1 in
      let h4 = ap (λ x. x.0) (sym e4) ∙ h3 in
      let req = postmortem_request id_text meta_id number title c in
      let (pm, _, e5) =
        >>=-inv (on_remote (bookowl.create_post_mortem req)) (stored meta_id) s4 h4 in
      let s5 : Db × R = (s4.0, (bookowl.create_post_mortem req s4.1).1) in
      let h5 = ap (λ x. x.0) (sym e5) ∙ h4 in
      let pm_id = get_or (parse_uuid pm.id) new_id in
      let insert = create_postmortem_link meta_id pm_id by_user pm.url in
      let (l, inserted, e6) =
        >>=-inv (on_db insert)
          (stored_as (db_postmortems R) (remote_creator bookowl) (remote_fetcher nightowl) id_text
            parse_uuid new_id pm)
          s5 h5 in
      (let whole = e1 ∙ e2 ∙ e3 ∙ e4 ∙ e5 ∙ e6 in
        let (fresh, created) =
          link_created meta_id pm_id by_user pm.url s5.0 (ap (λ x. x.0) inserted) in
        let after = ap (λ x. x.1.0) whole ∙ created in
        let fetched = collect_kept nightowl id_text links nothing_collected s3 in
        record {
          meta_id = meta_id;
          link = new_link meta_id pm_id by_user pm.url s5.0;
          tracked = meta_read zammad_id s.0 is_meta;
          still_tracked =
              ap (λ d. d.ticket_meta) after
              ∙ ap (λ d. d.ticket_meta) fetched
              ∙ list_kept meta_id s2.0
              ∙ link_kept meta_id s1.0
              ∙ meta_kept zammad_id s.0;
          linked =
              ap (λ d. find? (postmortem_of meta_id) d.postmortem_links) after
              ∙ find?-append_new (postmortem_of meta_id) s5.0.postmortem_links
                  (new_link meta_id pm_id by_user pm.url s5.0) fresh (==-refl meta_id);
          same_url = ap (λ x. x.postmortem_url) (ok_inj (ap (λ x. x.0) (sym whole) ∙ h));
        })

refused :
    {R : Type 0} (bookowl : PostMortemCreator R) (nightowl : IncidentFetcher R)
    (id_text : Uuid → String) (parse_uuid : String → Option Uuid) (new_id : Uuid)
    (number title : String) (by_user : Uuid) (zammad_id : ℕ) (before : Db) (s : Db × R)
    {url : String}
    → IsStored zammad_id before s.0 url
    → s.0.down s.0.queries ≡ false
    → s.0.down (suc s.0.queries) ≡ false
    → steps_for bookowl nightowl id_text parse_uuid new_id number title by_user zammad_id s
      ≡ (err (exists url), (record (s.0) { queries = suc (suc s.0.queries) }, s.1))
unfolding create_post_mortem
refused bookowl nightowl id_text parse_uuid new_id number title by_user zammad_id before s i up1
      up2 =
    let d1 = record (s.0) { queries = suc s.0.queries } in
    let meta =
      meta_found zammad_id s.0 up1
        (ap (λ ms. meta_id_of (find? (has_zammad_id zammad_id) ms)) i.still_tracked ∙ i.tracked) in
    ap
      (λ (x : Result Uuid × Db).
        for_id bookowl nightowl id_text parse_uuid new_id number title by_user x.0 (x.1, s.1))
      meta
    ∙ ap
        (λ (x : Result PostMortemLink × Db).
          unless bookowl nightowl id_text parse_uuid new_id number title by_user i.meta_id x.0
            (x.1, s.1))
        (link_found i.meta_id d1 up2 i.linked)
    ∙ ap (λ u. (err (exists u), (record (s.0) { queries = suc (suc s.0.queries) }, s.1))) i.same_url

-- If a post-mortem of a ticket was created and the next two queries are answered, then every later
-- attempt for the ticket, by any user and under any number and title, is refused with the URL of the
-- first post-mortem: BookOwl and NightOwl are not asked, and the database only counts two queries.
pub second_refused :
    {R : Type 0} (bookowl : PostMortemCreator R) (nightowl : IncidentFetcher R)
    (id_text : Uuid → String) (parse_uuid : String → Option Uuid) (new_id new_id' : Uuid)
    (number title number' title' : String) (by_user by_user' : Uuid) (zammad_id : ℕ) (s : Db × R)
    {r : PostMortemResult}
    → let create =
        create_post_mortem
          (db_postmortems R)
          (remote_creator bookowl)
          (remote_fetcher nightowl)
          id_text
          parse_uuid in
      let s' = (create new_id zammad_id number title by_user s).1 in
      (create new_id zammad_id number title by_user s).0 ≡ ok r
      → s'.0.down s'.0.queries ≡ false
      → s'.0.down (suc s'.0.queries) ≡ false
      → create new_id' zammad_id number' title' by_user' s' ≡ (
        err (exists r.postmortem_url),
        (record (s'.0) { queries = suc (suc s'.0.queries) }, s'.1),
      )
unfolding create_post_mortem
second_refused {R} bookowl nightowl id_text parse_uuid new_id new_id' number title number' title'
      by_user by_user' zammad_id s h up1 up2 =
    let i = success bookowl nightowl id_text parse_uuid new_id number title by_user zammad_id s h in
    let s' =
      (create_post_mortem (db_postmortems R) (remote_creator bookowl) (remote_fetcher nightowl)
        id_text parse_uuid new_id zammad_id number title by_user s).1 in
    refused bookowl nightowl id_text parse_uuid new_id' number' title' by_user' zammad_id s.0 s' i
      up1 up2
