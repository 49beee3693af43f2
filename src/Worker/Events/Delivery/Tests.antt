-- ===== src/Worker/Events/Delivery/Tests.antt =====
-- A run of a webhook and of the worker behind it.
use mathlib.Core.Path.{subst}
use ticketowl.Base.{
  some, String, List, ◌≡◌, none, Option, ◌∷◌, Action, Result, ok, some_inj, ◌++◌, [], refl, ap, suc,
  ◌∙◌, length, arith,
}
use ticketowl.Base.Text.{◌^^◌}
use ticketowl.Base.Int.{pos}
use ticketowl.Zammad.Types.{WebhookTicket, WebhookPayload}
use ticketowl.Webhook.Handler.{Message, zammad_event, handle_zammad, queued}
use ticketowl.Worker.Types.{ZammadEvent, NightOwlEvent}
use ticketowl.Worker.Events.{
  EventHandler, XMessage, LastId, new_only, after, ReadResult, timed_out, run,
}
use ticketowl.Worker.Events.Order.{newer}
use ticketowl.Worker.Events.Laws.{reply, process_all}
use ticketowl.Worker.Events.Delivery.{entry, IsReadBack, queued_is_handled}

abbrev ticket : WebhookTicket
ticket = record {
  id = 41;
  number = "10041";
  state_id = 2;
  state = "open";
  priority = "2 normal";
  group = "Support";
  updated_at = pos 0;
}

abbrev payload : WebhookPayload
payload = record { event = "ticket.create"; ticket = some ticket; article = none }

abbrev decode : String → Option WebhookPayload
decode body = some payload

abbrev encode : ZammadEvent → String
encode e = e.number

abbrev digest : String → String → String
digest secret body = secret ^^ body

-- one stream, the newest message first, the ids counted from 1
abbrev one_stream : String → List Message → List XMessage
one_stream key [] = []
one_stream key (m ∷ r) = one_stream key r ++ entry (suc (length r)) m ∷ []

abbrev xadd_first : String → Message → Action (List Message) (Unit {0})
xadd_first key m r = (ok tt, m ∷ r)

abbrev key_of : List Message → Result String × List Message
key_of r = (ok "key", r)

abbrev recorder : EventHandler (List String)
recorder = record {
  handle_zammad_event = λ evt seen. (ok tt, seen ++ evt.event ∷ []);
  handle_nightowl_event = λ evt seen. (ok tt, seen);
}

abbrev decode_event : String → Option ZammadEvent
decode_event text = some (zammad_event "ticket.create" (record ticket { number = text }))

abbrev no_event : String → Option NightOwlEvent
no_event text = none

abbrev before : List Message
before = record { source = "zammad"; data_json = "10040" } ∷ []

abbrev stream_after : List XMessage
stream_after =
    entry 1 (record { source = "zammad"; data_json = "10040" })
    ∷ entry 2 (record { source = "zammad"; data_json = "10041" })
    ∷ []

abbrev serving : LastId → ReadResult
serving new_only = timed_out
serving (after i) = reply (newer i stream_after)

IsReadBack-own : IsReadBack encode decode_event (zammad_event payload.event ticket)
IsReadBack-own = record { reads_back = refl; not_empty = refl }

read_back :
    (p : WebhookPayload) (t : WebhookTicket)
    → decode "body" ≡ some p
    → p.ticket ≡ some t
    → IsReadBack encode decode_event (zammad_event p.event t)
read_back p t d h =
    let same : payload ≡ p = some_inj d in
    let own : ticket ≡ t = some_inj (ap (λ (x : WebhookPayload). x.ticket) same ∙ h) in
    subst (λ (x : String × WebhookTicket). IsReadBack encode decode_event (zammad_event x.0 x.1))
      (λ k. ((same k).event, own k)) IsReadBack-own

was_queued :
    (handle_zammad xadd_first decode encode "acme" digest key_of
      (some "body")
      "sha1=keybody"
      before).0
    ≡ queued
unfolding handle_zammad
was_queued = refl

queued_is_handled_example :
    (p : WebhookPayload) × (t : WebhookTicket) × (decode "body" ≡ some p)
    × (p.ticket ≡ some t)
    × ((run recorder decode_event no_event (serving ∷ []) (after 1, [])).1
        ≡ (recorder.handle_zammad_event
            (zammad_event p.event t)
            (process_all recorder decode_event no_event [] [])).1)
unfolding handle_zammad
queued_is_handled_example =
    queued_is_handled xadd_first one_stream decode encode "acme" digest key_of recorder decode_event
      no_event (λ key m r e. (suc (length r), refl)) "body" "sha1=keybody" before 1 (serving ∷ [])
      [] was_queued read_back (omega arith) refl (λ i. refl, tt) (omega arith)
