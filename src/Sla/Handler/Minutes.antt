-- ===== src/Sla/Handler/Minutes.antt =====
-- internal/sla/handler.go: minutes that are not positive, in a new policy and in an update.
use ticketowl.Base.{
  List, some, none, ok, refl, true, false, ◌≡◌, Bool, arith, ap, ◌∙◌, any, find?, ◌||◌, ◌&&◌,
  str_eq, if◌then◌else◌, not, suc, ◌∷◌, Bool-cases, inl, ◌==◌, inr, [],
}
use ticketowl.Base.Table.{update, find?_sound}
use ticketowl.Worker.Handler.Queries.{eq_self, eq_sound}
use ticketowl.Base.Int.{ℤ}
use ticketowl.Db.{Db, query, fits_int4}
use ticketowl.Sla.Types.{Uuid, Policy, CreatePolicyRequest, UpdatePolicyRequest}
use ticketowl.Sla.Store.{update_policy, fits, has_policy_id, slot_taken}
use ticketowl.Sla.Service.{sla_store}
use ticketowl.Sla.Handler.{handle_create_policy, handle_update_policy, not_positive, or_not_found}
use ticketowl.Http.Respond.{Response, value, Handled, call-ok, respond}

-- an update of the response minutes only
abbrev pub response_only : ℤ → UpdatePolicyRequest
response_only minutes = record {
  name = none;
  response_minutes = some minutes;
  resolution_minutes = none;
  warning_threshold = none;
  is_default = none;
}

abbrev pub with_minutes : ℤ → Policy → Db → Policy
with_minutes minutes p db = record p { response_minutes = minutes; updated_at = db.clock }

-- the database once the policy is stored
abbrev stored : ℤ → Policy → Db → Db
stored minutes p db = record db {
  queries = suc db.queries;
  sla_policies = update (has_policy_id p.id) (λ _. with_minutes minutes p db) db.sla_policies;
}

-- A row that is written under its id is the one that is found.
find?-update_self :
    (id : Uuid) (r : Policy) (xs : List Policy) {x : Policy}
    → r.id ≡ id
    → find? (has_policy_id id) xs ≡ some x
    → find? (has_policy_id id) (update (has_policy_id id) (λ _. r) xs) ≡ some r
unfolding update
find?-update_self id r [] same h = cc
find?-update_self id r (y ∷ ys) same h = elim (Bool-cases (has_policy_id id y)) [
  | inl k ↦ rw k (rw (ap (λ i. i == id) same ∙ eq_self id) refl)
  | inr k ↦ rw k (rw k (find?-update_self id r ys same (rw k at h)))
]

-- The second of two guards.
guarded :
    {A : Type 0} (P : Response A × Db → Type 0) (b c : Bool) (x y z : Handled Db A) (db : Db)
    → P (x db)
    → P (y db)
    → c ≡ true
    → P ((if b then x else if c then y else z) db)
guarded P true c x y z db h k e = h
guarded P false true x y z db h k e = k
guarded P false false x y z db h k e = cc

update_ran :
    (minutes : ℤ) (id : Uuid) (p : Policy) (db : Db)
    → db.down db.queries ≡ false
    → find? (has_policy_id id) db.sla_policies ≡ some p
    → (fits (with_minutes minutes p db) && not (any (slot_taken p) db.sla_policies)) ≡ true
    → update_policy id (response_only minutes) db
      ≡ (ok (with_minutes minutes p db), stored minutes p db)
unfolding update_policy query
update_ran minutes id p db up found test = rw (up, found) (rw test refl)

fits_and :
    (minutes : ℤ) (p : Policy) (db : Db)
    → fits_int4 minutes ≡ true
    → fits p ≡ true
    → any (slot_taken p) db.sla_policies ≡ false
    → (fits (with_minutes minutes p db) && not (any (slot_taken p) db.sla_policies)) ≡ true
fits_and minutes p db h k free = ground (arith, h, k, free)

-- For minutes that are not positive but fit the column, POST answers 400 to every request with these
-- response minutes and leaves the database alone, while PUT on a policy that is found, fits and shares its
-- priority and default mark with no other answers 200 with the changed policy, if the query is answered,
-- and the table then has this policy under its id.
pub update_takes_any_minutes :
    (by_priority : List Policy → List Policy) (minutes : ℤ) (id : Uuid) (p : Policy) (db : Db)
    → not_positive minutes ≡ true
    → fits_int4 minutes ≡ true
    → db.down db.queries ≡ false
    → find? (has_policy_id id) db.sla_policies ≡ some p
    → fits p ≡ true
    → any (slot_taken p) db.sla_policies ≡ false
    → let store = sla_store by_priority in
      ((req : CreatePolicyRequest)
        → req.response_minutes ≡ minutes
        → ((handle_create_policy store (some req) db).0.status ≡ 400)
          × ((handle_create_policy store (some req) db).1 ≡ db))
      × ((handle_update_policy store (some id) (some (response_only minutes)) db).0
          ≡ record { status = 200; body = value (with_minutes minutes p db) })
      × (let db' = (handle_update_policy store (some id) (some (response_only minutes)) db).1 in
          find? (has_policy_id id) db'.sla_policies ≡ some (with_minutes minutes p db))
unfolding handle_create_policy handle_update_policy
update_takes_any_minutes by_priority minutes id p db bad fit up found ok_p free =
    let own = eq_sound p.id id (find?_sound (has_policy_id id) db.sla_policies found) in
    let put =
      call-ok (update_policy id (response_only minutes))
        (or_not_found "policy not found" "failed to update policy") (respond 200) db
        (update_ran minutes id p db up found (fits_and minutes p db fit ok_p free)) in
    let rows =
      ap
        (λ i.
          find? (has_policy_id id)
            (update (has_policy_id i) (λ _. with_minutes minutes p db) db.sla_policies))
        own in
    let found_again =
      rows ∙ find?-update_self id (with_minutes minutes p db) db.sla_policies own found in
    (
      λ req e.
          guarded (λ r. (r.0.status ≡ 400) × (r.1 ≡ db))
            (str_eq req.name "" || str_eq req.priority "")
            (not_positive req.response_minutes || not_positive req.resolution_minutes) _ _ _ db
            (refl, refl) (refl, refl)
            (ap (λ b. b || not_positive req.resolution_minutes) (ap not_positive e ∙ bad)),
      ap (λ x. x.0) put,
      ap (λ x. find? (has_policy_id id) x.1.sla_policies) put ∙ found_again,
    )
