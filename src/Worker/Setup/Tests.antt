-- ===== src/Worker/Setup/Tests.antt =====
-- The interval and the stream of a worker.
use ticketowl.Base.{◌≡◌, [], refl, err, panicked}
use ticketowl.Worker.Setup.{WorkerConfig, new_worker, start_ticker}
use ticketowl.Webhook.Handler.{stream_key}
use ticketowl.Base.Int.{ℤ, scale, wrap64, pos, negsuc}

abbrev acme : ℤ → WorkerConfig
acme seconds = record { poll_interval_seconds = seconds; pause_states = []; tenant_slug = "acme" }

-- The worker reads the stream on which the webhooks queue.
reads_webhooks : (cfg : WorkerConfig) → (new_worker cfg).events_key ≡ stream_key cfg.tenant_slug
unfolding new_worker
reads_webhooks cfg = refl

no_interval_is_a_minute : (new_worker (acme (pos 0))).poll_interval ≡ pos 60_000_000_000
unfolding new_worker scale wrap64
no_interval_is_a_minute = refl

negative_panics : start_ticker (new_worker (acme (negsuc 4))) ≡ err panicked
unfolding new_worker start_ticker scale wrap64
negative_panics = refl
