-- ===== src/Lib.antt =====
-- ticketowl: a verification library for the ticket hub that fronts Zammad and links it to NightOwl
-- and BookOwl.
--
-- The program keeps SLA policies and states, ticket metadata, links, notes and configuration in a
-- tenant's database, and the tickets themselves stay in Zammad. The webhooks queue events on a Redis
-- stream; a worker handles them and polls the SLA states, and alerts NightOwl of breaches. Agents see
-- tickets with their metadata and threads, customers the tickets of their organisation.
--
--   Base          Boolean tests, lists, tables, sorting, integers with the int64 wrap-around, texts,
--                 and results with state (Base.Outcome): `Action S A` is a call against a state `S`
--   Db            the tenant database (migrations/tenant): a list of rows for a table, the queries
--                 that fail, fresh ids and the clock; Keys: the unique and the foreign keys of the
--                 tables that hang on a ticket, every statement that writes them, and the history of
--                 a ticket's row
--   Sla           internal/sla: Types (sla.go), Compute (ComputeState in service.go), Store (store.go),
--                 Service (the rest of service.go), Handler (handler.go)
--   Worker        internal/worker: Poller (slapoller.go), Store (store.go), World (the poller over the
--                 database and NightOwl), AutoTicket (autoticket.go), Clock and Handler (resolve.go:
--                 the pauses, and DefaultEventHandler), Events (eventprocessor.go; Delivery: from a
--                 webhook to the handler), Races (the poller and a handler on one row), Budget (the
--                 poller over many cycles), Setup (worker.go)
--   Notification  internal/notification/service.go
--   BookOwl       internal/bookowl: the types of articles.go, search.go and postmortems.go, and the
--                 Endpoints that they declare
--   ClientResolver internal/clientresolver/resolver.go
--   Auth          internal/authadapter/adapter.go on the queries of sqlc/queries
--   Seed          internal/seed: the development tenant (seed.go), Tenant (its rows) and Demo (demo.go)
--   App           cmd/ticketowl/main.go and internal/app/app.go: Settings (internal/config/config.go and
--                 the calls of the platform), Api (runAPI), Workers (runWorker)
--   Http          Respond: what a handler answers; Client: the retries of Client.do in
--                 internal/zammad/client.go, and its errors.go; Transport: its get, post, put and
--                 delete as the endpoints call them; the clients of internal/nightowl
--                 and internal/bookowl have the same loop
--   Zammad        internal/zammad: Types, Api (the operations that the worker calls), Endpoints
--                 (tickets.go, comments.go, users.go, orgs.go, states.go, tester.go), Signature
--                 (webhook.go)
--   NightOwl      internal/nightowl: Types, Api and Endpoints (alerts.go, incidents.go, oncall.go)
--   Webhook       internal/webhook: the two handlers
--   Ticket        internal/ticket: Types (ticket.go), Store (store.go), Service (service.go),
--                 Suggestions, PostMortem and Handler
--   Comment       internal/comment: Types (comment.go), Store (store.go), Service (service.go),
--                 Handler (handler.go)
--   Customer      internal/customer: Types (customer.go), Store (store.go), Service (service.go),
--                 Handler (handler.go)
--   Link          internal/link: Types (link.go), Store (store.go), Service (service.go),
--                 Handler (handler.go)
--   Admin         internal/admin: Types (admin.go), Store (store.go) and Handler (handler.go), each
--                 with Orgs, Rules and Rosters
--
-- A service of the source takes its stores and clients as interfaces; here they are records of actions
-- over any state, so a theorem about a service holds for every implementation of them. Worker.World
-- and Worker.Handler put the database of Db beside the remote services.
--
-- A time is an integer of nanoseconds, and the float64 seconds of the SLA computation are exact: the
-- rounding of float64 is not modelled. A warning threshold is a number of thousandths, as the
-- column NUMERIC(4,3) holds it. Durations wrap as int64 does and `time.Time.Sub` saturates. An id
-- that is only compared is a natural number. A query fails as a whole, or takes effect. The one loop
-- with a bound is the three attempts of Client.do, as in the source; the others run over a list.
--
-- Parameters, since they are other code or services: JSON, HMAC-SHA1, Redis, uuid.Parse, the packages
-- of core, an ORDER BY on a text, and what Zammad and NightOwl answer. Not modelled: logging, metrics,
-- and the matching of a request to its handler. A handler takes the path segments and the body as
-- parsed, none where the parse fails, and Redis answers an XREAD as a function of the last id, a list
-- of them being the rounds until the worker stops.
pub mod Base
pub mod Sla
pub mod Zammad
pub mod NightOwl
pub mod BookOwl
pub mod Notification
pub mod Ticket
pub mod Link
pub mod Comment
pub mod Admin
pub mod Db
pub mod Worker
pub mod Http
pub mod ClientResolver
pub mod Auth
pub mod Seed
pub mod App
pub mod Webhook
pub mod Customer
