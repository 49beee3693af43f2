-- ===== src/Worker/Events/Laws.antt =====
-- internal/worker/eventprocessor.go: from an id on, the messages of the stream are processed in order,
-- none twice and none left out.
use ticketowl.Base.{
  ℕ, String, List, [], ◌∷◌, ◌++◌, Option, ◌≡◌, ◌⊎◌, refl, sym, ap, ◌∙◌, take, drop,
  take-append-drop, filter-append, inl, length, All, inr, ◌≤◌, arith, ◌*◌, length-drop,
}
use mathlib.Core.List.{append_assoc}
use ticketowl.Worker.Types.{ZammadEvent, NightOwlEvent}
use ticketowl.Worker.Events.{
  EventHandler, XMessage, LastId, after, ReadResult, timed_out, read_error, entries,
  process_message, process_messages, read_round, run,
}
use ticketowl.Worker.Events.Order.{IsStream, newer, last_id, newer_batch}

-- What XREAD with COUNT 100 may answer for an id, if `seen` is the stream at that time.
abbrev pub Answers : List XMessage → (LastId → ReadResult) → Type 0
Answers seen xread =
    (i : ℕ)
    → (xread (after i) ≡ timed_out)
      ⊎ (xread (after i) ≡ read_error)
      ⊎ (xread (after i) ≡ entries (take 100 (newer i seen)))

-- Every round reads the stream as far as it has grown by then.
abbrev pub Reads : List XMessage → List (LastId → ReadResult) → Type 0
Reads log [] = Unit {0}
Reads log (xread ∷ rounds) =
    (seen : List XMessage) × (more : List XMessage) × (log ≡ seen ++ more)
    × Answers seen xread
    × Reads log rounds

-- What XREAD answers when it does not fail.
abbrev pub reply : List XMessage → ReadResult
reply [] = timed_out
reply (m ∷ ms) = entries (take 100 (m ∷ ms))

abbrev pub Serves : List XMessage → (LastId → ReadResult) → Type 0
Serves log xread = (i : ℕ) → xread (after i) ≡ reply (newer i log)

last_id-append : (i : ℕ) (xs ys : List XMessage) → last_id i (xs ++ ys) ≡ last_id (last_id i xs) ys
last_id-append i [] ys = refl
last_id-append i (x ∷ xs) ys = last_id-append x.id xs ys

module _ {S : Type 0} (handler : EventHandler S) (decode_zammad : String → Option ZammadEvent)
    (decode_nightowl : String → Option NightOwlEvent) where
  abbrev pub process_all : List XMessage → S → S
  process_all [] s = s
  process_all (m ∷ ms) s =
      process_all ms (process_message handler decode_zammad decode_nightowl m s)

  pub process_all-append :
      (xs ys : List XMessage) (s : S) → process_all (xs ++ ys) s ≡ process_all ys (process_all xs s)
  process_all-append [] ys s = refl
  process_all-append (x ∷ xs) ys s =
      process_all-append xs ys (process_message handler decode_zammad decode_nightowl x s)

  process_messages-eq :
      (ms : List XMessage) (i : ℕ) (s : S)
      → process_messages handler decode_zammad decode_nightowl ms (after i, s)
        ≡ (after (last_id i ms), process_all ms s)
  process_messages-eq [] i s = refl
  process_messages-eq (m ∷ ms) i s =
      process_messages-eq ms m.id (process_message handler decode_zammad decode_nightowl m s)

  abbrev run_from : List (LastId → ReadResult) → LastId × S → LastId × S
  run_from = run handler decode_zammad decode_nightowl

  abbrev round_from : ReadResult → LastId × S → LastId × S
  round_from = read_round handler decode_zammad decode_nightowl

  -- The stream splits into what was processed, once and in order, and what is still to come.
  Processed : List XMessage → List (LastId → ReadResult) → ℕ → S → Type 0
  Processed log rounds i s =
      (done : List XMessage) × (rest : List XMessage) × (newer i log ≡ done ++ rest)
      × (run_from rounds (after i, s) ≡ (after (last_id i done), process_all done s))
      × (newer (last_id i done) log ≡ rest)

  -- One batch before the rest.
  batch_before :
      (log seen more : List XMessage) (xread : LastId → ReadResult)
      (rounds : List (LastId → ReadResult)) (i : ℕ) (s : S)
      → IsStream log
      → log ≡ seen ++ more
      → xread (after i) ≡ entries (take 100 (newer i seen))
      → (let batch = take 100 (newer i seen) in
          Processed log rounds (last_id i batch) (process_all batch s))
      → Processed log (xread ∷ rounds) i s
  unfolding Processed run
  batch_before log seen more xread rounds i s stream split answer (done, rest, later, ran, left) =
      let batch = take 100 (newer i seen) in
      let others = drop 100 (newer i seen) ++ newer i more in
      let whole : newer i log ≡ batch ++ others =
        ap (newer i) split
        ∙ filter-append _ seen more
        ∙ ap (λ ms. ms ++ newer i more) (sym (take-append-drop 100 (newer i seen)))
        ∙ append_assoc batch (drop 100 (newer i seen)) (newer i more) in
      let next = sym (newer_batch i log batch others stream whole) ∙ later in
      (
        batch ++ done,
        rest,
        whole ∙ ap (λ ms. batch ++ ms) next ∙ sym (append_assoc batch done rest),
        ap (λ r. run_from rounds (round_from r (after i, s))) answer
            ∙ ap (run_from rounds) (process_messages-eq batch i s)
            ∙ ran
            ∙ ap (λ (x : ℕ × S). (after x.0, x.1))
                (λ k.
                  (sym (last_id-append i batch done) k, sym (process_all-append batch done s) k)),
        ap (λ j. newer j log) (last_id-append i batch done) ∙ left,
      )

  -- Nothing read, nothing changed.
  none_before :
      (log : List XMessage) (xread : LastId → ReadResult) (rounds : List (LastId → ReadResult))
      (i : ℕ) (s : S)
      → round_from (xread (after i)) (after i, s) ≡ (after i, s)
      → Processed log rounds i s
      → Processed log (xread ∷ rounds) i s
  unfolding Processed run
  none_before log xread rounds i s same (done, rest, later, ran, left) =
      (done, rest, later, ap (run_from rounds) same ∙ ran, left)

  processed :
      (log : List XMessage) (rounds : List (LastId → ReadResult)) (i : ℕ) (s : S)
      → IsStream log
      → Reads log rounds
      → Processed log rounds i s
  unfolding Processed run
  processed log [] i s stream reads = ([], newer i log, refl, refl, refl)
  processed log (xread ∷ rounds) i s stream (seen, more, split, answers, reads) =
      let batch = take 100 (newer i seen) in
      let later = processed log rounds (last_id i batch) (process_all batch s) stream reads in
      let same = processed log rounds i s stream reads in
      elim (answers i) [
        | inl quiet ↦
            none_before log xread rounds i s (ap (λ r. round_from r (after i, s)) quiet) same
        | inr (inl failed) ↦
            none_before log xread rounds i s (ap (λ r. round_from r (after i, s)) failed) same
        | inr (inr got) ↦ batch_before log seen more xread rounds i s stream split got later
      ]

  -- From an id on, whatever the stream grows to and however many reads time out or fail, the stream's
  -- newer entries split into those processed and those still to come: the handler's state is that of
  -- processing the first part once, in the order of the stream, and the reader stands right before the
  -- second part.
  pub each_once :
      (log : List XMessage) (rounds : List (LastId → ReadResult)) (i : ℕ) (s : S)
      → IsStream log
      → Reads log rounds
      → (done : List XMessage) × (rest : List XMessage) × (newer i log ≡ done ++ rest)
        × (run handler decode_zammad decode_nightowl rounds (after i, s)
            ≡ (after (last_id i done), process_all done s))
        × (newer (last_id i done) log ≡ rest)
  unfolding Processed
  each_once log rounds i s stream reads = processed log rounds i s stream reads

  round_reply :
      (ms : List XMessage) (i : ℕ) (s : S)
      → round_from (reply ms) (after i, s)
        ≡ (after (last_id i (take 100 ms)), process_all (take 100 ms) s)
  round_reply [] i s = refl
  round_reply (m ∷ ms) i s = process_messages-eq (take 100 (m ∷ ms)) i s

  none_left :
      (ms : List XMessage) (i : ℕ) (s : S)
      → length ms ≤ 0
      → ◌≡◌ {A = LastId × S} (after i, s) (after (last_id i ms), process_all ms s)
  none_left [] i s h = refl
  none_left (m ∷ ms) i s h = absurd (omega (arith, h))

  -- If the stream no longer grows and no read fails, then as many reads as there are hundreds of newer
  -- entries, rounded up, are enough: every newer entry has been processed, once and in order, and the
  -- reader stands at the end of the stream.
  pub rest_handled :
      (log : List XMessage) (rounds : List (LastId → ReadResult)) (i : ℕ) (s : S)
      → IsStream log
      → All (Serves log) rounds
      → length (newer i log) ≤ length rounds * 100
      → run handler decode_zammad decode_nightowl rounds (after i, s)
        ≡ (after (last_id i (newer i log)), process_all (newer i log) s)
  unfolding run
  rest_handled log [] i s stream serves h = none_left (newer i log) i s h
  rest_handled log (xread ∷ rounds) i s stream (serve, serves) h =
      let ms = newer i log in
      let batch = take 100 ms in
      let left = newer_batch i log batch (drop 100 ms) stream (sym (take-append-drop 100 ms)) in
      let few : length (newer (last_id i batch) log) ≤ length rounds * 100 =
        rw left (omega (arith, length-drop 100 ms, h)) in
      ap (λ r. run_from rounds (round_from r (after i, s))) (serve i)
      ∙ ap (run_from rounds) (round_reply ms i s)
      ∙ rest_handled log rounds (last_id i batch) (process_all batch s) stream serves few
      ∙ ap
          (λ rest. (after (last_id (last_id i batch) rest), process_all rest (process_all batch s)))
          left
      ∙ ap (λ (x : ℕ × S). (after x.0, x.1))
          (λ k. (
            sym (last_id-append i batch (drop 100 ms)) k,
            sym (process_all-append batch (drop 100 ms) s) k,
          ))
      ∙ ap (λ all. (after (last_id i all), process_all all s)) (take-append-drop 100 ms)
