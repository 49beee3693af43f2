-- ===== src/Worker/Setup.antt =====
-- internal/worker/worker.go: `New`, and the start of `SLAPoller.Run`. The pause states that the poller
-- is given are not read by it.
mod Tests
use ticketowl.Base.{List, if◌then◌else◌, Result, String, ◌&&◌, err, panicked, ok}
use ticketowl.Base.Int.{ℤ, scale, wrap64, leb_ℤ, pos}
use ticketowl.Base.Text.{◌^^◌}
use ticketowl.Sla.Compute.{second}

pub record WorkerConfig : Type 0 where
  pub poll_interval_seconds : ℤ
  pub pause_states : List String
  pub tenant_slug : String

pub record Worker : Type 0 where
  pub poll_interval : ℤ
  pub pause_states : List String
  pub events_key : String

-- `pollInterval == 0`
abbrev pub or_minute : ℤ → ℤ
unfolding scale
or_minute d = if leb_ℤ d (pos 0) && leb_ℤ (pos 0) d then scale second (pos 60) else d

unfoldable pub new_worker : WorkerConfig → Worker
unfolding scale wrap64
new_worker cfg = record {
  poll_interval = or_minute (wrap64 (scale second cfg.poll_interval_seconds));
  pause_states = cfg.pause_states;
  events_key = "ticketowl:" ^^ cfg.tenant_slug ^^ ":events";
}

-- `time.NewTicker` panics on an interval that is not positive
unfoldable pub start_ticker : Worker → Result (Unit {0})
start_ticker w = if leb_ℤ w.poll_interval (pos 0) then err panicked else ok tt
