-- ===== src/Sla/Handler/Tests.antt =====
-- The examples of internal/sla/handler.go.
use ticketowl.Base.{List, some, refl, ◌≡◌, ◌∷◌, [], All, true, find?}
use ticketowl.Base.Int.{pos, negsuc}
use ticketowl.Db.{Db, fits_int4, fits_numeric}
use ticketowl.Db.Sample.{empty_db}
use ticketowl.Sla.Types.{Policy, CreatePolicyRequest}
use ticketowl.Sla.Service.{sla_store}
use ticketowl.Sla.Handler.{handle_create_policy, handle_update_policy}
use ticketowl.Sla.Handler.Laws.{HasPositive, policies_stay_positive, here, next, created, updated}
use ticketowl.Sla.Handler.Minutes.{update_takes_any_minutes, response_only, with_minutes}
use ticketowl.Sla.Store.{has_policy_id}
use ticketowl.Http.Respond.{value}

abbrev urgent : Policy
urgent = record {
  id = 2;
  name = "urgent";
  priority = "high";
  response_minutes = pos 30;
  resolution_minutes = pos 240;
  warning_threshold = pos 200;
  is_default = true;
  created_at = pos 0;
  updated_at = pos 0;
}

abbrev one_policy : Db
one_policy = record empty_db { sla_policies = urgent ∷ [] }

abbrev slow : CreatePolicyRequest
slow = record {
  name = "slow";
  priority = "low";
  response_minutes = pos 480;
  resolution_minutes = pos 4800;
  warning_threshold = pos 100;
  is_default = true;
}

abbrev by_list : List Policy → List Policy
by_list ps = ps

policies_stay_positive_example :
    All HasPositive
      (handle_update_policy
        (sla_store by_list)
        (some 2)
        (some (response_only (pos 5)))
        (handle_create_policy (sla_store by_list) (some slow) one_policy).1).1.sla_policies
unfolding fits_int4 fits_numeric
policies_stay_positive_example =
    policies_stay_positive by_list one_policy _
      (next (next here (created (some slow) one_policy)) (
        updated (some 2) (some (response_only (pos 5)))
          (handle_create_policy (sla_store by_list) (some slow) one_policy).1 (refl, tt)))
      ((refl, refl), tt)

update_takes_any_minutes_example :
    ((req : CreatePolicyRequest)
      → req.response_minutes ≡ negsuc 4
      → ((handle_create_policy (sla_store by_list) (some req) one_policy).0.status ≡ 400)
        × ((handle_create_policy (sla_store by_list) (some req) one_policy).1 ≡ one_policy))
    × ((handle_update_policy
          (sla_store by_list)
          (some 2)
          (some (response_only (negsuc 4)))
          one_policy).0
        ≡ record { status = 200; body = value (with_minutes (negsuc 4) urgent one_policy) })
    × (let db' =
          (handle_update_policy
            (sla_store by_list)
            (some 2)
            (some (response_only (negsuc 4)))
            one_policy).1 in
        find? (has_policy_id 2) db'.sla_policies ≡ some (with_minutes (negsuc 4) urgent one_policy))
unfolding fits_int4 fits_numeric
update_takes_any_minutes_example =
    update_takes_any_minutes by_list (negsuc 4) 2 urgent one_policy refl refl refl refl refl refl
