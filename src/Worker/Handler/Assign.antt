-- ===== src/Worker/Handler/Assign.antt =====
-- internal/worker/resolve.go: `autoAssignTicket`.
use ticketowl.Admin.Store as AdminStore
use ticketowl.Base.{
  String, ℕ, Action, ◌>>=◌, if◌then◌else◌, str_eq, none, pure, some, ignore, not, Option,
}
use ticketowl.NightOwl.Api.{NightOwlClient}
use ticketowl.Zammad.Api.{ZammadClient}
use ticketowl.Worker.Handler.Context.{nightowl_client, on_remote, no_update, on_db}
use ticketowl.Admin.Types.{GroupRosterMapping}
use ticketowl.Db.{Db}
use ticketowl.NightOwl.Types.{OnCallInfo}
use ticketowl.Zammad.Types.{User}

module _ {R : Type 0} (nightowl : String → String → NightOwlClient R) where
  abbrev pub assign_user : ZammadClient R → ℕ → Option User → Action (Db × R) (Unit {0})
  assign_user client id none = pure tt
  assign_user client id (some u) =
      ignore (on_remote (client.update_ticket id (record no_update { owner_id = some u.id })))

  -- the ticket's owner becomes the user with the address of the person on call
  abbrev pub assign_owner : ZammadClient R → ℕ → OnCallInfo → Action (Db × R) (Unit {0})
  assign_owner client id oncall =
      on_remote (client.search_users_by_email oncall.user_email) >>= assign_user client id

  abbrev pub ask_on_call :
      ZammadClient R → ℕ → GroupRosterMapping → NightOwlClient R → Action (Db × R) (Unit {0})
  ask_on_call client id mapping no_client =
      on_remote (no_client.get_on_call_for_service mapping.roster_id) >>= assign_owner client id

  abbrev pub assign_mapped : ZammadClient R → ℕ → GroupRosterMapping → Action (Db × R) (Unit {0})
  assign_mapped client id mapping =
      if not mapping.auto_assign
      then pure tt
      else nightowl_client nightowl >>= ask_on_call client id mapping

  -- every error ends the assignment and is logged
  unfoldable pub auto_assign_ticket : ZammadClient R → ℕ → String → Action (Db × R) (Unit {0})
  auto_assign_ticket client id zammad_group =
      if str_eq zammad_group ""
      then pure tt
      else ignore (
          on_db (AdminStore.Rosters.get_group_roster_mapping_by_zammad_group zammad_group)
          >>= assign_mapped client id)
