-- ===== src/Zammad/Api.antt =====
-- internal/zammad: the operations of `Client` that the worker calls, against remote services with the
-- state `R`.
use ticketowl.Zammad.Types.{TicketCreateRequest, Ticket, TicketUpdateRequest, User}
use ticketowl.Base.{Action, ℕ, String, Option}

pub record ZammadClient (R : Type 0) : Type 0 where
  pub create_ticket : TicketCreateRequest → Action R Ticket
  pub update_ticket : ℕ → TicketUpdateRequest → Action R Ticket
  -- nil if no user has the address
  pub search_users_by_email : String → Action R (Option User)
