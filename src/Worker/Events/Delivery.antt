-- ===== src/Worker/Events/Delivery.antt =====
-- internal/webhook/zammad.go and internal/worker/eventprocessor.go: an event from the request to the
-- handler of the worker.
use ticketowl.Base.{
  ℕ, String, some, Action, Option, Bool, List, ◌≡◌, ◌==◌, All, ◌++◌, Result, ok, str_eq, ◌<◌, ◌∷◌,
  any, [], false, true, arith, filter-append, refl, length, ◌∙◌, ◌≤◌, ap, ◌*◌,
}
mod Tests
use mathlib.Core.Path.{subst}
use ticketowl.Worker.Types.{ZammadEvent, NightOwlEvent}
use ticketowl.Zammad.Types.{WebhookTicket, WebhookPayload}
use ticketowl.Webhook.Handler.{Message, stream_key, zammad_event, queued, handle_zammad}
use ticketowl.Webhook.Handler.Laws.{message, queued_body_signed}
use ticketowl.Worker.Events.{
  EventHandler, XMessage, LastId, after, ReadResult, process_message, run,
}
use ticketowl.Worker.Events.Order.{IsStream, newer}
use ticketowl.Worker.Events.Laws.{Serves, process_all, process_all-append, rest_handled}

abbrev pub entry : ℕ → Message → XMessage
entry id m = record { id = id; source = some m.source; data_json = some m.data_json }

-- What Redis documents of XADD: the entry stands at the end of its stream.
abbrev pub Appends :
    {R : Type 0} → (String → Message → Action R (Unit {0})) → (String → R → List XMessage) → Type 0
Appends {R} xadd stream =
    (key : String) (m : Message) (r : R)
    → (xadd key m r).0 ≡ ok tt
    → (id : ℕ) × (stream key (xadd key m r).1 ≡ stream key r ++ entry id m ∷ [])

-- What the package encoding/json documents, for an event: what was written is read back, and it is
-- not the empty text.
pub record IsReadBack (encode : ZammadEvent → String) (decode : String → Option ZammadEvent)
    (e : ZammadEvent) : Type 0 where
  pub reads_back : decode (encode e) ≡ some e
  pub not_empty : str_eq (encode e) "" ≡ false

-- an entry of the stream has the id
abbrev pub has_id : ℕ → XMessage → Bool
has_id i m = m.id == i

below_last :
    (k : ℕ) (ms : List XMessage) (x : XMessage)
    → All (λ (y : XMessage). k < y.id) (ms ++ x ∷ [])
    → k < x.id
below_last k [] x h = h.0
below_last k (m ∷ ms) x h = below_last k ms x h.1

last-IsNewer :
    (i : ℕ) (ms : List XMessage) (x : XMessage)
    → IsStream (ms ++ x ∷ [])
    → any (has_id i) ms ≡ true
    → i < x.id
last-IsNewer i [] x s h = cc
last-IsNewer i (m ∷ ms) x (above, s) h =
    let below = below_last m.id ms x above in ground (arith, h, below, last-IsNewer i ms x s)

-- a new entry is newer than any that was read
newer-append_last :
    (i : ℕ) (ms : List XMessage) (x : XMessage)
    → IsStream (ms ++ x ∷ [])
    → any (has_id i) ms ≡ true
    → newer i (ms ++ x ∷ []) ≡ newer i ms ++ x ∷ []
newer-append_last i ms x s h =
    let lt = last-IsNewer i ms x s h in
    filter-append _ ms (x ∷ []) ∙ ap (λ l. newer i ms ++ l) (ground (arith, lt))

module _ {R S : Type 0} (xadd : String → Message → Action R (Unit {0}))
    (stream : String → R → List XMessage) (decode : String → Option WebhookPayload)
    (encode : ZammadEvent → String) (slug : String) (hmac : String → String → String)
    (resolve_secret : R → Result String × R) (handler : EventHandler S)
    (decode_zammad : String → Option ZammadEvent) (decode_nightowl : String → Option NightOwlEvent)
    (appends : Appends xadd stream) where
  process_entry :
      (id : ℕ) (event : String) (t : WebhookTicket) (st : S)
      → IsReadBack encode decode_zammad (zammad_event event t)
      → process_message handler decode_zammad decode_nightowl
          (entry id (message xadd decode encode slug event t))
          st
        ≡ (handler.handle_zammad_event (zammad_event event t) st).1
  unfolding process_message
  process_entry id event t st json = rw (json.not_empty, json.reads_back) refl

  -- The event that a queued request holds is handled by the tenant's worker: if it is read back from
  -- the JSON that is written for it, the ids of the stream grow, the reader has read an entry of the
  -- stream, which grows no further, no read fails and there are enough reads for the newer entries, then the state of the
  -- handler is that of handling this event after the entries before it.
  pub queued_is_handled :
      (body signature : String) (r : R) (i : ℕ) (rounds : List (LastId → ReadResult)) (st : S)
      → let r1 = (resolve_secret r).1 in
        let result =
          handle_zammad xadd decode encode slug hmac resolve_secret (some body) signature r in
        let log = stream (stream_key slug) result.1 in
        result.0 ≡ queued
        → ((payload : WebhookPayload) (t : WebhookTicket)
            → decode body ≡ some payload
            → payload.ticket ≡ some t
            → IsReadBack encode decode_zammad (zammad_event payload.event t))
        → IsStream log
        → any (has_id i) (stream (stream_key slug) r1) ≡ true
        → All (Serves log) rounds
        → length (newer i log) ≤ length rounds * 100
        → (payload : WebhookPayload) × (t : WebhookTicket) × (decode body ≡ some payload)
          × (payload.ticket ≡ some t)
          × ((run handler decode_zammad decode_nightowl rounds (after i, st)).1
              ≡ (handler.handle_zammad_event (zammad_event payload.event t) (
                  process_all handler decode_zammad decode_nightowl
                    (newer i (stream (stream_key slug) r1))
                    st)).1)
  queued_is_handled body signature r i rounds st h json ids_grow read serves enough =
      let key = stream_key slug in
      let r1 = (resolve_secret r).1 in
      let old = stream key r1 in
      let result =
        handle_zammad xadd decode encode slug hmac resolve_secret (some body) signature r in
      let (secret, resolved, signed, q) =
        queued_body_signed xadd decode encode slug hmac resolve_secret body signature r h in
      let m = message xadd decode encode slug q.payload.event q.ticket in
      let (id, added) = appends key m r1 q.added in
      let x = entry id m in
      let grown : stream key result.1 ≡ old ++ x ∷ [] = ap (stream key) q.left ∙ added in
      let seen =
        ap (newer i) grown ∙ newer-append_last i old x (subst IsStream grown ids_grow) read in
      let all = process_all handler decode_zammad decode_nightowl in
      let ran =
        rest_handled handler decode_zammad decode_nightowl (stream key result.1) rounds i st
          ids_grow serves enough in
      (
        q.payload,
        q.ticket,
        q.decoded,
        q.has_ticket,
        ap (λ p. p.1) ran
            ∙ ap (λ l. all l st) seen
            ∙ process_all-append handler decode_zammad decode_nightowl (newer i old) (x ∷ []) st
            ∙ process_entry id q.payload.event q.ticket (all (newer i old) st)
                (json q.payload q.ticket q.decoded q.has_ticket),
      )
