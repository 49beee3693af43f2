-- ===== src/Webhook/Handler.antt =====
-- internal/webhook: zammad.go, nightowl.go and webhook.go, for a request to one tenant. A stream is a
-- list of messages in the order of their XADD.
pub mod Laws
mod Tests
use ticketowl.Worker.Types.{ZammadEvent, NightOwlEvent}
use ticketowl.Base.{
  String, none, Action, Result, Option, ok, if◌then◌else◌, some, err, str_eq, ◌||◌,
}
use ticketowl.Sla.Types.{Time}
use ticketowl.Base.Text.{◌^^◌}
use ticketowl.Zammad.Types.{WebhookTicket, WebhookPayload}
use ticketowl.Zammad.Signature.{validate_webhook_signature}

-- what an HTTP handler answers
pub data Response : Type 0 where
  queued bad_request unauthorised internal_error : Response

pub record Message : Type 0 where
  pub source : String
  pub data_json : String

-- the payload of NightOwl; the zero value of a field that the body leaves out
pub record NightOwlPayload : Type 0 where
  pub event : String
  pub id : String
  pub slug : String
  pub summary : String
  pub severity : String
  pub status : String
  pub service : String

-- `StreamKey`
abbrev pub stream_key : String → String
stream_key slug = "ticketowl:" ^^ slug ^^ ":events"

abbrev pub zammad_event : String → WebhookTicket → ZammadEvent
zammad_event event t = record {
  event = event;
  ticket_id = t.id;
  number = t.number;
  state_id = t.state_id;
  state = t.state;
  priority = t.priority;
  group = t.group;
}

-- CreatedAt and ResolvedAt keep their zero values, `zero_time` for the first
abbrev pub nightowl_event : Time → NightOwlPayload → NightOwlEvent
nightowl_event zero_time p = record {
  event = p.event;
  incident_id = p.id;
  slug = p.slug;
  summary = p.summary;
  severity = p.severity;
  status = p.status;
  service = p.service;
  created_at = zero_time;
  resolved_at = none;
}

-- `xadd key message` appends to a stream of Redis. `body` is none if it cannot be read.
module _ {S : Type 0} (xadd : String → Message → Action S (Unit {0})) where
  abbrev pub respond : Result (Unit {0}) × S → Response × S
  respond (ok done, s) = (queued, s)
  respond (err e, s) = (internal_error, s)

  unfoldable pub push_event : String → String → String → Action S (Unit {0})
  push_event key source json = xadd key (record { source = source; data_json = json })

  module _ (decode : String → Option WebhookPayload) (encode : ZammadEvent → String)
      (slug : String) where
    unfoldable pub queue_zammad : WebhookPayload → S → Response × S
    unfolding push_event
    queue_zammad payload s = elim payload.ticket [
      | none ↦ (bad_request, s)
      | some t ↦
          if str_eq payload.event ""
          then (bad_request, s)
          else respond
              (push_event (stream_key slug) "zammad" (encode (zammad_event payload.event t)) s)
    ]

    unfoldable pub parse_zammad : String → S → Response × S
    unfolding queue_zammad
    parse_zammad body s = elim (decode body) [
      | none ↦ (bad_request, s)
      | some payload ↦ queue_zammad payload s
    ]

    -- `HandleZammad`; `resolve_secret` is the `SecretResolver`
    unfoldable pub handle_zammad :
        (String → String → String)
        → (S → Result String × S)
        → Option String
        → String
        → S
        → Response × S
    unfolding parse_zammad validate_webhook_signature
    handle_zammad hmac resolve_secret none signature s = (bad_request, s)
    handle_zammad hmac resolve_secret (some body) signature s =
        let (secret, s') = resolve_secret s in
        elim secret [
          | err e ↦ (internal_error, s')
          | ok key ↦ elim (validate_webhook_signature hmac body key signature) [
            | err e ↦ (unauthorised, s')
            | ok valid ↦ parse_zammad body s'
          ]
        ]

  module _ (decode : String → Option NightOwlPayload) (encode : NightOwlEvent → String)
      (zero_time : Time) (slug : String) where
    unfoldable pub queue_nightowl : NightOwlPayload → S → Response × S
    unfolding push_event
    queue_nightowl p s =
        if str_eq p.event "" || str_eq p.id ""
        then (bad_request, s)
        else respond
            (push_event (stream_key slug) "nightowl" (encode (nightowl_event zero_time p)) s)

    -- `HandleNightOwl`; the middleware has checked the API key
    unfoldable pub handle_nightowl : Option String → S → Response × S
    unfolding queue_nightowl
    handle_nightowl none s = (bad_request, s)
    handle_nightowl (some body) s = elim (decode body) [
      | none ↦ (bad_request, s)
      | some p ↦ queue_nightowl p s
    ]
