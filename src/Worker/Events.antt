-- ===== src/Worker/Events.antt =====
-- internal/worker/eventprocessor.go: the reader of the event stream. The ids of a stream are numbers in
-- the order of its entries. The XREAD of one round is a function from the last id, and a list of them
-- is the rounds until the context is cancelled.
pub mod Order
pub mod Laws
pub mod Delivery
mod Tests
use ticketowl.Base.{
  ℕ, String, List, [], ◌∷◌, Option, none, some, Action, str_eq, if◌then◌else◌, get_or,
}
use ticketowl.Worker.Types.{ZammadEvent, NightOwlEvent}

pub record EventHandler (S : Type 0) : Type 0 where
  pub handle_zammad_event : ZammadEvent → Action S (Unit {0})
  pub handle_nightowl_event : NightOwlEvent → Action S (Unit {0})

-- `redis.XMessage`; a value is none if the key is missing or no string
pub record XMessage : Type 0 where
  pub id : ℕ
  pub source : Option String
  pub data_json : Option String

-- "$" or the id of the last message
pub data LastId : Type 0 where
  new_only : LastId
  after : ℕ → LastId

-- `redis.Nil` after the block time, another error, or the entries of the one stream
pub data ReadResult : Type 0 where
  timed_out read_error : ReadResult
  entries : List XMessage → ReadResult

module _ {S : Type 0} (handler : EventHandler S) (decode_zammad : String → Option ZammadEvent)
    (decode_nightowl : String → Option NightOwlEvent) where
  -- an error of the decoding or of the handler is only logged
  abbrev pub dispatch_zammad : Option ZammadEvent → S → S
  dispatch_zammad none s = s
  dispatch_zammad (some evt) s = (handler.handle_zammad_event evt s).1

  abbrev pub dispatch_nightowl : Option NightOwlEvent → S → S
  dispatch_nightowl none s = s
  dispatch_nightowl (some evt) s = (handler.handle_nightowl_event evt s).1

  unfoldable pub process_message : XMessage → S → S
  process_message msg s =
      let source = get_or msg.source "" in
      let json = get_or msg.data_json "" in
      if str_eq json ""
      then s
      else if str_eq source "zammad"
      then dispatch_zammad (decode_zammad json) s
      else if str_eq source "nightowl"
      then dispatch_nightowl (decode_nightowl json) s
      else s

  abbrev pub process_messages : List XMessage → LastId × S → LastId × S
  process_messages [] st = st
  process_messages (msg ∷ msgs) (last, s) =
      process_messages msgs (after msg.id, process_message msg s)

  abbrev pub read_round : ReadResult → LastId × S → LastId × S
  read_round timed_out st = st
  read_round read_error st = st
  read_round (entries msgs) st = process_messages msgs st

  -- `Run`, from a last id that is "$" at the start
  unfoldable pub run : List (LastId → ReadResult) → LastId × S → LastId × S
  run [] st = st
  run (xread ∷ rounds) st = run rounds (read_round (xread st.0) st)
