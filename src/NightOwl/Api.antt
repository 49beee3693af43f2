-- ===== src/NightOwl/Api.antt =====
-- internal/nightowl: the operation of `Client` that the worker calls, against remote services with the
-- state `R`.
use ticketowl.Base.{String, Action}
use ticketowl.NightOwl.Types.{OnCallInfo}

pub record NightOwlClient (R : Type 0) : Type 0 where
  pub get_on_call_for_service : String → Action R OnCallInfo
