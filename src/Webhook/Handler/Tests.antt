-- ===== src/Webhook/Handler/Tests.antt =====
-- Runs of internal/webhook/zammad.go.
use ticketowl.Webhook.Handler.{
  Response, Message, handle_zammad, queued, unauthorised, WebhookPayload,
}
use ticketowl.Webhook.Handler.Laws.{Queued, queued_only_signed}
use ticketowl.Zammad.Signature.{compute_webhook_signature}
use ticketowl.Worker.Types.{ZammadEvent}
use ticketowl.Base.{
  String, List, Result, ◌≡◌, Action, Option, ok, some, ◌∷◌, refl, [], ◌++◌, if◌then◌else◌, str_eq,
  none,
}
use ticketowl.Zammad.Types.{WebhookTicket}
use ticketowl.Base.Text.{◌^^◌}
use ticketowl.Base.Int.{pos}

-- A toy digest, and streams as one list.
abbrev digest : String → String → String
digest secret body = secret ^^ body

abbrev Streams : Type 0
Streams = List (String × Message)

abbrev xadd : String → Message → Action Streams (Unit {0})
xadd key m s = (ok tt, s ++ (key, m) ∷ [])

abbrev ticket : WebhookTicket
ticket = record {
  id = 41;
  number = "10041";
  state_id = 2;
  state = "open";
  priority = "2 normal";
  group = "Support";
  updated_at = pos 0;
}

abbrev decode : String → Option WebhookPayload
decode body =
    if str_eq body "{}"
    then none
    else some (record { event = "ticket.create"; ticket = some ticket; article = none })

abbrev encode : ZammadEvent → String
encode e = e.number

abbrev secret : Streams → Result String × Streams
secret s = (ok "key", s)

abbrev handle : String → Response × Streams
handle signature = handle_zammad xadd decode encode "acme" digest secret (some "body") signature []

test-handle_zammad :
    (handle "sha1=keybody"
      ≡ (queued, ("ticketowl:acme:events", record { source = "zammad"; data_json = "10041" }) ∷ []))
    × (handle "sha1=keyother" ≡ (unauthorised, []))
    × (handle "md5=keybody" ≡ (unauthorised, []))
unfolding handle_zammad
test-handle_zammad = (refl, refl, refl)

signed_queued : (handle "sha1=keybody").0 ≡ queued
unfolding handle_zammad
signed_queued = refl

queued_only_signed_example :
    (body : String) × (key : String) × (some "body" ≡ some body)
    × ((secret []).0 ≡ ok key)
    × ("sha1=keybody" ≡ compute_webhook_signature digest body key)
    × Queued xadd decode encode "acme" body [] (handle "sha1=keybody")
queued_only_signed_example =
    queued_only_signed xadd decode encode "acme" digest secret (some "body") "sha1=keybody" []
      signed_queued
