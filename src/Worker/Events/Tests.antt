-- ===== src/Worker/Events/Tests.antt =====
-- The examples of internal/worker/eventprocessor.go. The handler's state is the list of the events that
-- it got.
use ticketowl.Base.{
  ℕ, String, List, [], ◌∷◌, ◌++◌, some, none, ok, inl, inr, refl, ◌≡◌, take, Option, arith,
}
use ticketowl.Worker.Types.{ZammadEvent, NightOwlEvent}
use ticketowl.Worker.Events.{
  EventHandler, XMessage, LastId, new_only, after, ReadResult, timed_out, entries, process_message,
  run,
}
use ticketowl.Worker.Events.Order.{newer, last_id}
use ticketowl.Worker.Events.Laws.{each_once, rest_handled, process_all, reply}

abbrev recorder : EventHandler (List String)
recorder = record {
  handle_zammad_event = λ evt seen. (ok tt, seen ++ evt.event ∷ []);
  handle_nightowl_event = λ evt seen. (ok tt, seen ++ "nightowl" ∷ []);
}

abbrev zammad_event : String → Option ZammadEvent
zammad_event text = some (record {
  event = text;
  ticket_id = 1;
  number = "";
  state_id = 0;
  state = "";
  priority = "";
  group = "";
})

abbrev no_event : String → Option NightOwlEvent
no_event text = none

abbrev message : ℕ → String → XMessage
message id text = record { id = id; source = some "zammad"; data_json = some text }

abbrev first_two : List XMessage
first_two = message 4 "a" ∷ message 6 "b" ∷ []

abbrev stream : List XMessage
stream = message 4 "a" ∷ message 6 "b" ∷ message 9 "c" ∷ []

abbrev reading : List XMessage → LastId → ReadResult
reading seen new_only = timed_out
reading seen (after i) = entries (take 100 (newer i seen))

abbrev serving : List XMessage → LastId → ReadResult
serving log new_only = timed_out
serving log (after i) = reply (newer i log)

abbrev quiet : LastId → ReadResult
quiet last = timed_out

run_reads_in_order :
    run recorder zammad_event no_event
      (reading first_two ∷ quiet ∷ reading stream ∷ [])
      (after 3, [])
    ≡ (after 9, "a" ∷ "b" ∷ "c" ∷ [])
unfolding run process_message
run_reads_in_order = refl

-- A reader that still stands at "$" gets nothing of what arrived while no read was waiting.
run_new_only :
    run recorder zammad_event no_event (reading stream ∷ []) (new_only, []) ≡ (new_only, [])
unfolding run
run_new_only = refl

each_once_example :
    (done : List XMessage) × (rest : List XMessage) × (newer 4 stream ≡ done ++ rest)
    × (run recorder zammad_event no_event
          (reading first_two ∷ quiet ∷ reading stream ∷ [])
          (after 4, [])
        ≡ (after (last_id 4 done), process_all recorder zammad_event no_event done []))
    × (newer (last_id 4 done) stream ≡ rest)
each_once_example =
    each_once recorder zammad_event no_event stream
      (reading first_two ∷ quiet ∷ reading stream ∷ []) 4 [] (omega arith)
      (
        first_two,
        message 9 "c" ∷ [],
        refl,
        λ i. inr (inr refl),
        (
          first_two,
          message 9 "c" ∷ [],
          refl,
          λ i. inl refl,
          (stream, [], refl, λ i. inr (inr refl), tt),
        ),
      )

rest_handled_example :
    run recorder zammad_event no_event (serving stream ∷ []) (after 3, [])
    ≡ (after 9, process_all recorder zammad_event no_event stream [])
rest_handled_example =
    rest_handled recorder zammad_event no_event stream (serving stream ∷ []) 3 [] (omega arith)
      (λ i. refl, tt) (omega arith)
