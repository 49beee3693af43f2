-- ===== src/Customer/Service/Laws.antt =====
-- internal/customer/service.go: a customer reaches the tickets of the own organisation only.
use ticketowl.Customer.Types.{Org, CustomerStore, PortalZammad}
use ticketowl.Customer.Service.{
  resolve_org, ticket_of, own_ticket, get_my_ticket, get_linked_articles, add_reply, load_detail,
  load_articles, send_reply, require_zammad_org, check_org,
}
use ticketowl.Sla.Types.{Uuid}
use ticketowl.Base.{
  ℕ, ◌≡◌, ok, String, some, Bool, ◌≢◌, true, err, if◌then◌else◌, forbidden, pure, >>=-ok, >>=-err,
  raise, ◌∙◌, failed, ap, is_some, arith, refl,
}
use ticketowl.Zammad.Types.{Ticket}

module _ {S : Type 0} (store : CustomerStore S) (zammad : PortalZammad S) where
  -- The customer's organisation has a Zammad organisation, and it is the one of the ticket `t`.
  pub record IsOwned (org_id : Uuid) (zammad_id : ℕ) (s : S) (t : Ticket) : Type 0 where
    pub org : Org
    pub zammad_org : ℕ
    pub found : (store.get_org org_id s).0 ≡ ok org
    pub linked : org.zammad_org_id ≡ some zammad_org
    pub loaded : (zammad.get_ticket zammad_id (store.get_org org_id s).1).0 ≡ ok t
    pub same_org : t.organisation_id ≡ zammad_org

  resolve_org_ok :
      (org_id : Uuid) (s s1 : S) (org : Org) (zammad_org : ℕ)
      → store.get_org org_id s ≡ (ok org, s1)
      → org.zammad_org_id ≡ some zammad_org
      → resolve_org store zammad org_id s ≡ (ok org, s1)
  unfolding resolve_org
  resolve_org_ok org_id s s1 org zammad_org h k =
      >>=-ok (store.get_org org_id) require_zammad_org s h
      ∙ go (is_some org.zammad_org_id) (rw k refl)
    where
      go : (b : Bool) → b ≡ true → (if b then pure org else raise failed) s1 ≡ (ok org, s1)
      go b e = rw e refl

  own_ticket_foreign :
      (org_id : Uuid) (zammad_id : ℕ) (s s1 s2 : S) (org : Org) (zammad_org : ℕ) (t : Ticket)
      → store.get_org org_id s ≡ (ok org, s1)
      → org.zammad_org_id ≡ some zammad_org
      → zammad.get_ticket zammad_id s1 ≡ (ok t, s2)
      → t.organisation_id ≢ zammad_org
      → own_ticket store zammad org_id zammad_id s ≡ (err forbidden, s2)
  unfolding own_ticket
  own_ticket_foreign org_id zammad_id s s1 s2 org zammad_org t h k g foreign =
      >>=-ok (resolve_org store zammad org_id) (ticket_of store zammad zammad_id) s
        (resolve_org_ok org_id s s1 org zammad_org h k)
      ∙ >>=-ok (zammad.get_ticket zammad_id) (check_org org.zammad_org_id) s1 g
      ∙ ap (λ o. check_org o t s2) k
      ∙ ground (arith, foreign)

  -- For a ticket of another organisation the detail, the articles and the reply are all refused as
  -- forbidden, right after the ticket was loaded: no reply reaches Zammad.
  pub foreign_ticket_refused :
      (org_id : Uuid) (zammad_id : ℕ) (s s1 s2 : S) (org : Org) (zammad_org : ℕ) (t : Ticket)
      (body : String)
      → store.get_org org_id s ≡ (ok org, s1)
      → org.zammad_org_id ≡ some zammad_org
      → zammad.get_ticket zammad_id s1 ≡ (ok t, s2)
      → t.organisation_id ≢ zammad_org
      → (get_my_ticket store zammad org_id zammad_id s ≡ (err forbidden, s2))
        × (get_linked_articles store zammad org_id zammad_id s ≡ (err forbidden, s2))
        × (add_reply store zammad org_id zammad_id body s ≡ (err forbidden, s2))
  unfolding get_my_ticket get_linked_articles add_reply
  foreign_ticket_refused org_id zammad_id s s1 s2 org zammad_org t body h k g foreign =
      let own = own_ticket store zammad org_id zammad_id in
      let refused = own_ticket_foreign org_id zammad_id s s1 s2 org zammad_org t h k g foreign in
      (
        >>=-err own (load_detail store zammad zammad_id) s refused,
        >>=-err own (load_articles store zammad zammad_id) s refused,
        >>=-err own (send_reply store zammad zammad_id body) s refused,
      )
