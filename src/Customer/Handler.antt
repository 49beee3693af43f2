-- ===== src/Customer/Handler.antt =====
-- internal/customer/handler.go: the portal. `identity` has the organisation that the token names, if it
-- names one; a path segment is the number that strconv.Atoi reads, none if it refuses it.
pub mod Laws
mod Tests
use ticketowl.Base.{
  ℕ, String, List, Option, none, some, Action, Error, forbidden, str_eq, if◌then◌else◌, Bool, true,
  false,
}
use ticketowl.Sla.Types.{Uuid}
use ticketowl.Customer.Types.{
  CustomerStore, PortalZammad, PortalTicket, PortalTicketDetail, PortalArticle,
}
use ticketowl.Customer.Service.{list_my_tickets, get_my_ticket, add_reply, get_linked_articles}
use ticketowl.Http.Client.{is_not_found}
use ticketowl.Http.Respond.{Handled, respond, respond_error, call, parsed}

pub record Identity : Type 0 where
  pub org_id : Option Uuid

-- `errors.Is(err, ErrForbidden)`
abbrev pub is_forbidden : Error → Bool
is_forbidden forbidden = true
is_forbidden _ = false

pub record ReplyRequest : Type 0 where
  pub body : String

module _ {S A : Type 0} where
  -- `identity == nil || identity.OrgID == nil`
  abbrev pub with_org : Option Identity → (Uuid → Handled S A) → Handled S A
  with_org none k = respond_error 403 "forbidden" "customer org_id required"
  with_org (some identity) k =
      parsed identity.org_id (respond_error 403 "forbidden" "customer org_id required") k

  abbrev pub portal_failed : String → Error → Handled S A
  portal_failed message e =
      if is_forbidden e
      then respond_error 403 "forbidden" "ticket not accessible"
      else if is_not_found e
      then respond_error 404 "not_found" "ticket not found"
      else respond_error 500 "internal_error" message

  abbrev pub no_zammad : Error → Handled S A
  no_zammad e = respond_error 500 "internal_error" "zammad not configured"

  abbrev pub bad_ticket_id : Handled S A
  bad_ticket_id = respond_error 400 "bad_request" "invalid ticket ID"

module _ {S : Type 0} (resolve_zammad : Action S (PortalZammad S)) (store : CustomerStore S) where
  unfoldable pub handle_list_tickets : Option Identity → Handled S (List PortalTicket)
  handle_list_tickets identity = with_org identity λ org_id. call resolve_zammad no_zammad λ zammad.
      call (list_my_tickets store zammad org_id)
        (λ e. respond_error 500 "internal_error" "failed to list tickets") (respond 200)

  unfoldable pub handle_get_ticket : Option Identity → Option ℕ → Handled S PortalTicketDetail
  handle_get_ticket identity param = with_org identity λ org_id.
      parsed param bad_ticket_id λ zammad_id. call resolve_zammad no_zammad λ zammad.
        call (get_my_ticket store zammad org_id zammad_id) (portal_failed "failed to get ticket")
          (respond 200)

  -- answers {"status": "ok"}
  unfoldable pub handle_reply : Option Identity → Option ℕ → Option ReplyRequest → Handled S String
  handle_reply identity param body = with_org identity λ org_id.
      parsed param bad_ticket_id λ zammad_id.
        parsed body (respond_error 400 "bad_request" "invalid request body") λ req.
          if str_eq req.body ""
          then respond_error 400 "bad_request" "body is required"
          else call resolve_zammad no_zammad λ zammad.
            call (add_reply store zammad org_id zammad_id req.body)
              (portal_failed "failed to add reply") (λ done. respond 201 "ok")

  unfoldable pub handle_get_articles : Option Identity → Option ℕ → Handled S (List PortalArticle)
  handle_get_articles identity param = with_org identity λ org_id.
      parsed param bad_ticket_id λ zammad_id. call resolve_zammad no_zammad λ zammad.
        call (get_linked_articles store zammad org_id zammad_id)
          (portal_failed "failed to get articles") (respond 200)
