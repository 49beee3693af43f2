-- ===== src/Webhook/Handler/Laws.antt =====
-- internal/webhook/zammad.go: which requests reach the stream.
use ticketowl.Webhook.Handler.{
  Response, Message, stream_key, zammad_event, queued, unauthorised, respond, push_event,
  queue_zammad, parse_zammad, handle_zammad, WebhookPayload,
}
use ticketowl.Worker.Types.{ZammadEvent}
use ticketowl.Base.{
  String, Action, Option, Result, ◌≡◌, some, ok, Option-cases, ◌≢◌, err, inl, arith, Result-cases,
  refl, inr, Bool-cases, str_eq, eq_iff, none,
}
use ticketowl.Zammad.Types.{WebhookTicket}
use ticketowl.Zammad.Signature.{
  compute_webhook_signature, validate_webhook_signature, validate_iff_compute,
}

module _ {S : Type 0} (xadd : String → Message → Action S (Unit {0}))
    (decode : String → Option WebhookPayload) (encode : ZammadEvent → String) (slug : String) where
  abbrev pub message : String → WebhookTicket → Message
  message event t = record { source = "zammad"; data_json = encode (zammad_event event t) }

  -- The body holds an event with a ticket, and the event was added to the tenant's stream.
  pub record Queued (body : String) (s : S) (r : Response × S) : Type 0 where
    pub payload : WebhookPayload
    pub ticket : WebhookTicket
    pub decoded : decode body ≡ some payload
    pub has_ticket : payload.ticket ≡ some ticket
    pub has_event : payload.event ≢ ""
    pub added : (xadd (stream_key slug) (message payload.event ticket) s).0 ≡ ok tt
    pub left : r.1 ≡ (xadd (stream_key slug) (message payload.event ticket) s).1

  respond_queued :
      (r : Result (Unit {0}) × S)
      → (respond xadd r).0 ≡ queued
      → (r.0 ≡ ok tt) × ((respond xadd r).1 ≡ r.1)
  respond_queued (ok done, s) h = (refl, refl)
  respond_queued (err e, s) h = ground (arith, h)

  queue_zammad-Queued :
      (body : String) (payload : WebhookPayload) (s : S)
      → decode body ≡ some payload
      → (queue_zammad xadd decode encode slug payload s).0 ≡ queued
      → Queued body s (queue_zammad xadd decode encode slug payload s)
  unfolding queue_zammad push_event
  queue_zammad-Queued body payload s d h = elim (Option-cases payload.ticket) [
    | inl n ↦ ground (arith, n, h)
    | inr (t, e) ↦ elim (Bool-cases (str_eq payload.event "")) [
      | inl k ↦ ground (arith, e, k, h)
      | inr k ↦
          let add = xadd (stream_key slug) (message payload.event t) s in
          let (done, left) = respond_queued add (rw (e, k, queue_zammad) at h) in
          record {
            payload = payload;
            ticket = t;
            decoded = d;
            has_ticket = e;
            has_event = λ x. cc (k, (eq_iff payload.event "").1 x);
            added = done;
            left = rw (e, k, queue_zammad) left;
          }
    ]
  ]

  parse_zammad-Queued :
      (body : String) (s : S)
      → (parse_zammad xadd decode encode slug body s).0 ≡ queued
      → Queued body s (parse_zammad xadd decode encode slug body s)
  unfolding parse_zammad
  parse_zammad-Queued body s h = elim (Option-cases (decode body)) [
    | inl n ↦ ground (arith, n, h)
    | inr (payload, e) ↦
        rw (e, parse_zammad) (queue_zammad-Queued body payload s e (rw (e, parse_zammad) at h))
  ]

  pub queued_body_signed :
      (hmac : String → String → String) (resolve_secret : S → Result String × S) (body : String)
      (signature : String) (s : S)
      → let result =
          handle_zammad xadd decode encode slug hmac resolve_secret (some body) signature s in
        result.0 ≡ queued
        → (key : String) × ((resolve_secret s).0 ≡ ok key)
          × (signature ≡ compute_webhook_signature hmac body key)
          × Queued body (resolve_secret s).1 result
  unfolding handle_zammad
  queued_body_signed hmac resolve_secret body signature s h =
      elim (Result-cases (resolve_secret s).0) [
        | inr (e, r) ↦ ground (arith, rw (r, handle_zammad) at h)
        | inl (key, r) ↦ elim (Result-cases (validate_webhook_signature hmac body key signature)) [
          | inr (e, v) ↦ ground (arith, rw (r, v, handle_zammad) at h)
          | inl (u, v) ↦ (
            key,
            r,
            (validate_iff_compute hmac body key signature).0 v,
            rw (r, v, handle_zammad)
                (parse_zammad-Queued body (resolve_secret s).1 (rw (r, v, handle_zammad) at h)),
          )
        ]
      ]

  -- A Zammad request is answered as queued only if its body could be read, the tenant's secret was
  -- resolved, its signature is the one that the secret gives for the body, and the body holds an event
  -- with a ticket that was added to the tenant's stream; the state left is the one of that addition.
  pub queued_only_signed :
      (hmac : String → String → String) (resolve_secret : S → Result String × S)
      (received : Option String) (signature : String) (s : S)
      → let result =
          handle_zammad xadd decode encode slug hmac resolve_secret received signature s in
        result.0 ≡ queued
        → (body : String) × (key : String) × (received ≡ some body)
          × ((resolve_secret s).0 ≡ ok key)
          × (signature ≡ compute_webhook_signature hmac body key)
          × Queued body (resolve_secret s).1 result
  unfolding handle_zammad
  queued_only_signed hmac resolve_secret none signature s h = ground (arith, h)
  queued_only_signed hmac resolve_secret (some body) signature s h =
      let (key, resolved, signed, q) = queued_body_signed hmac resolve_secret body signature s h in
      (body, key, refl, resolved, signed, q)

  -- A request whose signature is not the one of its body under the tenant's secret is refused as
  -- unauthorised, and leaves the state in which the secret was resolved.
  forged_refused :
      (hmac : String → String → String) (resolve_secret : S → Result String × S) (body : String)
      (signature key : String) (s : S)
      → (resolve_secret s).0 ≡ ok key
      → signature ≢ compute_webhook_signature hmac body key
      → handle_zammad xadd decode encode slug hmac resolve_secret (some body) signature s
        ≡ (unauthorised, (resolve_secret s).1)
  unfolding handle_zammad
  forged_refused hmac resolve_secret body signature key s resolved forged =
      elim (Result-cases (validate_webhook_signature hmac body key signature)) [
        | inl (u, v) ↦ elim (forged ((validate_iff_compute hmac body key signature).0 v)) [ ]
        | inr (e, v) ↦ rw (resolved, v, handle_zammad) refl
      ]
