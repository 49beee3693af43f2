-- ===== src/Customer/Service/Shown.antt =====
-- internal/customer/service.go: what a customer is shown of a ticket.
use ticketowl.Customer.Types.{Org, CustomerStore, PortalZammad, PortalTicketDetail, PortalArticle}
use ticketowl.Customer.Service.{
  resolve_org, ticket_of, own_ticket, get_my_ticket, load_detail, require_zammad_org, check_org,
  public_comments, enrich_if, enrich_detail, with_sla, bare_detail, portal_comment, or_empty,
  portal_article,
}
use ticketowl.Customer.Service.Laws.{IsOwned}
use ticketowl.Base.{
  ◌≡◌, Result, List, ok, err, ℕ, refl, map, some, filter, not, inr, ◌∷◌, arith, Bool-cases, inl, [],
  Option-cases, >>=-inv, Option, ap, sym, ◌==◌, ◌∙◌, none, ok_inj,
}
use ticketowl.Sla.Types.{Uuid, State}
use ticketowl.Zammad.Types.{Article, Ticket}
use mathlib.Core.Path.{subst}

-- `d` shows the ticket and the comments of `base`; only the SLA label and what is linked may differ.
pub record Enriches (base d : PortalTicketDetail) : Type 0 where
  pub comments : d.comments ≡ base.comments
  pub number : d.ticket.number ≡ base.ticket.number
  pub id : d.ticket.id ≡ base.ticket.id
  pub title : d.ticket.title ≡ base.ticket.title
  pub status : d.ticket.status ≡ base.ticket.status
  pub priority : d.ticket.priority ≡ base.ticket.priority

with_sla-Enriches : (r : Result State) (d : PortalTicketDetail) → Enriches d (with_sla r d)
with_sla-Enriches (err e) d = record {
  comments = refl;
  number = refl;
  id = refl;
  title = refl;
  status = refl;
  priority = refl;
}
with_sla-Enriches (ok s) d = record {
  comments = refl;
  number = refl;
  id = refl;
  title = refl;
  status = refl;
  priority = refl;
}

only_articles :
    {base : PortalTicketDetail} (articles : List PortalArticle) {d : PortalTicketDetail}
    → Enriches (record base { linked_articles = articles }) d
    → Enriches base d
only_articles articles h = record {
  comments = h.comments;
  number = h.number;
  id = h.id;
  title = h.title;
  status = h.status;
  priority = h.priority;
}

module _ {S : Type 0} (store : CustomerStore S) (zammad : PortalZammad S) where
  enrich_if-Enriches :
      (base : PortalTicketDetail) (r : Result Uuid) (s : S) {d : PortalTicketDetail}
      → (enrich_if store zammad base r s).0 ≡ ok d
      → Enriches base d
  unfolding enrich_detail
  enrich_if-Enriches base (err e) s h =
      subst (λ x. Enriches base x) (ok_inj h)
        (record {
          comments = refl;
          number = refl;
          id = refl;
          title = refl;
          status = refl;
          priority = refl;
        })
  enrich_if-Enriches base (ok meta_id) s h =
      let links = store.list_article_links meta_id s in
      let articles = or_empty (map portal_article) links.0 in
      let state = (store.get_sla_state meta_id links.1).0 in
      subst (λ x. Enriches base x) (ok_inj h)
        (only_articles articles
          (with_sla-Enriches state (record base { linked_articles = articles })))

  -- The comments are the articles that are not internal, in their order.
  public_comments_lem :
      (articles : List Article)
      → public_comments articles ≡ map portal_comment (filter (λ a. not a.internal) articles)
  unfolding public_comments
  public_comments_lem [] = refl
  public_comments_lem (a ∷ articles) = elim (Bool-cases a.internal) [
    | inl h ↦ ground (arith, h, public_comments_lem articles)
    | inr h ↦ ground (arith, h, public_comments_lem articles)
  ]

  or_empty_comments :
      (r : Result (List Article))
      → or_empty public_comments r
        ≡ or_empty (λ xs. map portal_comment (filter (λ a. not a.internal) xs)) r
  or_empty_comments (ok articles) = public_comments_lem articles
  or_empty_comments (err e) = refl

  require_zammad_org-inv :
      (o : Org) (s : S) {org : Org}
      → (require_zammad_org o s).0 ≡ ok org
      → (zammad_org : ℕ) × (o ≡ org)
        × (o.zammad_org_id ≡ some zammad_org)
        × ((require_zammad_org o s).1 ≡ s)
  require_zammad_org-inv o s {org} h = elim (Option-cases o.zammad_org_id) [
    | inl n ↦ ground (arith, n, h)
    | inr (k, e) ↦ (k, ground (arith, e, h), e, ground (arith, e))
  ]

  resolve_org-inv :
      (org_id : Uuid) (s : S) {org : Org}
      → (resolve_org store zammad org_id s).0 ≡ ok org
      → (zammad_org : ℕ) × ((store.get_org org_id s).0 ≡ ok org)
        × (org.zammad_org_id ≡ some zammad_org)
        × ((resolve_org store zammad org_id s).1 ≡ (store.get_org org_id s).1)
  unfolding resolve_org
  resolve_org-inv org_id s {org} h =
      let (o, found, run) = >>=-inv (store.get_org org_id) require_zammad_org s h in
      let s' = (store.get_org org_id s).1 in
      let (k, same, linked, left) = require_zammad_org-inv o s' (ap (λ x. x.0) (sym run) ∙ h) in
      (
        k,
        ap (λ x. x.0) found ∙ ap ok same,
        ap (λ (x : Org). x.zammad_org_id) (sym same) ∙ linked,
        ap (λ x. x.1) run ∙ left,
      )

  check_org-inv :
      (o : Option ℕ) (k : ℕ) (t : Ticket) (s : S) {t' : Ticket}
      → o ≡ some k
      → (check_org o t s).0 ≡ ok t'
      → (t ≡ t') × (t.organisation_id ≡ k) × ((check_org o t s).1 ≡ s)
  check_org-inv none k t s e h = cc
  check_org-inv (some n) k t s e h = elim (Bool-cases (t.organisation_id == n)) [
    | inl b ↦ (ground (arith, b, h), ground (arith, e, b), ground (arith, b))
    | inr b ↦ ground (arith, b, h)
  ]

  own_ticket-IsOwned :
      (org_id : Uuid) (zammad_id : ℕ) (s : S) {t : Ticket}
      → (own_ticket store zammad org_id zammad_id s).0 ≡ ok t
      → IsOwned store zammad org_id zammad_id s t
  unfolding own_ticket
  own_ticket-IsOwned org_id zammad_id s {t} h =
      let (org, resolved, run) =
        >>=-inv (resolve_org store zammad org_id) (ticket_of store zammad zammad_id) s h in
      let s1 = (resolve_org store zammad org_id s).1 in
      let (k, found, linked, same) = resolve_org-inv org_id s (ap (λ x. x.0) resolved) in
      let (t', loaded, checked) =
        >>=-inv (zammad.get_ticket zammad_id) (check_org org.zammad_org_id) s1
          (ap (λ x. x.0) (sym run) ∙ h) in
      let (eq, org_eq, left) =
        check_org-inv org.zammad_org_id k t' (zammad.get_ticket zammad_id s1).1 linked
          (ap (λ x. x.0) (sym checked) ∙ ap (λ x. x.0) (sym run) ∙ h) in
      record {
        org = org;
        zammad_org = k;
        found = found;
        linked = linked;
        loaded =
            ap (λ x. (zammad.get_ticket zammad_id x).0) (sym same)
            ∙ ap (λ x. x.0) loaded
            ∙ ap ok eq;
        same_org = ap (λ (x : Ticket). x.organisation_id) (sym eq) ∙ org_eq;
      }

  -- A ticket that the portal shows belongs to the Zammad organisation of the customer, its summary is
  -- the one of that ticket, and its comments are the articles of the ticket that are not internal, in
  -- their order, or none if the articles could not be listed.
  pub shown_ticket-IsOwned :
      (org_id : Uuid) (zammad_id : ℕ) (s : S) (d : PortalTicketDetail)
      → (get_my_ticket store zammad org_id zammad_id s).0 ≡ ok d
      → (t : Ticket) × (articles : Result (List Article)) × IsOwned store zammad org_id zammad_id s
          t
        × (d.comments
            ≡ or_empty (λ xs. map portal_comment (filter (λ a. not a.internal) xs)) articles)
        × Enriches (bare_detail t articles) d
        × (articles
            ≡ (zammad.list_articles zammad_id (own_ticket store zammad org_id zammad_id s).1).0)
  unfolding get_my_ticket load_detail
  shown_ticket-IsOwned org_id zammad_id s d h =
      let own = own_ticket store zammad org_id zammad_id in
      let (t, owned, run) = >>=-inv own (load_detail store zammad zammad_id) s h in
      let s1 = (own s).1 in
      let listed = zammad.list_articles zammad_id s1 in
      let meta = store.get_ticket_meta_id zammad_id listed.1 in
      let e =
        enrich_if-Enriches (bare_detail t listed.0) meta.0 meta.1 (ap (λ x. x.0) (sym run) ∙ h) in
      (
        t,
        listed.0,
        own_ticket-IsOwned org_id zammad_id s (ap (λ x. x.0) owned),
        e.comments ∙ or_empty_comments listed.0,
        e,
        refl,
      )
