-- ===== src/Sla/Handler/Laws.antt =====
-- internal/sla/handler.go: the policies that the API lets into the tenant's database.
use mathlib.Core.Path.{subst}
use ticketowl.Base.{
  List, [], ◌∷◌, Option, refl, true, false, ◌≡◌, Bool, Bool-cases, inl, inr, All, All-append,
  if◌then◌else◌, ◌&&◌, find?, suc, Option-cases, Result, Action, any, not, Error, String, some,
  str_eq, is_no_rows, ◌||◌, sym, none, get_or, some_inj,
}
use ticketowl.Base.Table.{update, delete}
use ticketowl.Db.{Db, query}
use ticketowl.Base.Int.{ℤ}
use ticketowl.Sla.Types.{Time, Uuid, Policy, CreatePolicyRequest, UpdatePolicyRequest}
use ticketowl.Sla.Store.{
  create_policy, update_policy, delete_policy, fits, has_policy_id, new_policy, same_slot,
  coalesce_policy, slot_taken,
}
use ticketowl.Sla.Service.{sla_store}
use ticketowl.Sla.Handler.{
  handle_create_policy, handle_update_policy, handle_delete_policy, or_not_found, not_positive,
}
use ticketowl.Http.Respond.{Handled, respond_error, respond, no_content, call_state}

-- Both numbers of minutes of a policy are positive.
abbrev pub HasPositive : Policy → Type 0
HasPositive p =
    (not_positive p.response_minutes ≡ false) × (not_positive p.resolution_minutes ≡ false)

-- The minutes that an update gives are positive, or it gives none.
abbrev pub Given : Option ℤ → Type 0
Given none = Unit {0}
Given (some minutes) = not_positive minutes ≡ false

abbrev pub GivesPositive : Option UpdatePolicyRequest → Type 0
GivesPositive none = Unit {0}
GivesPositive (some req) = Given req.response_minutes × Given req.resolution_minutes

get_or-Given :
    (o : Option ℤ) (old : ℤ)
    → Given o
    → not_positive old ≡ false
    → not_positive (get_or o old) ≡ false
get_or-Given none old h k = k
get_or-Given (some minutes) old h k = h

coalesce_policy-HasPositive :
    (req : UpdatePolicyRequest) (now : Time) (p : Policy)
    → GivesPositive (some req)
    → HasPositive p
    → HasPositive (coalesce_policy req now p)
coalesce_policy-HasPositive req now p (r, m) (h, k) = (
  get_or-Given req.response_minutes p.response_minutes r h,
  get_or-Given req.resolution_minutes p.resolution_minutes m k,
)

All-find? {ℓ κ} :
    {A : Type ℓ} (P : A → Type κ) (q : A → Bool) (xs : List A) {a : A}
    → find? q xs ≡ some a
    → All P xs
    → P a
All-find? P q [] e h = cc
All-find? P q (x ∷ xs) e h = elim (Bool-cases (q x)) [
  | inl k ↦ subst P (some_inj (rw k at e)) h.0
  | inr k ↦ All-find? P q xs (rw k at e) h.1
]

-- One request to the policy API, whose updates give positive minutes or none.
pub data PolicyStep (by_priority : List Policy → List Policy) : Db → Db → Type 0 where
  created :
      (body : Option CreatePolicyRequest) (db : Db)
      → PolicyStep by_priority db (handle_create_policy (sla_store by_priority) body db).1
  updated :
      (param : Option Uuid) (body : Option UpdatePolicyRequest) (db : Db)
      → GivesPositive body
      → PolicyStep by_priority db (handle_update_policy (sla_store by_priority) param body db).1
  deleted :
      (param : Option Uuid) (db : Db)
      → PolicyStep by_priority db (handle_delete_policy (sla_store by_priority) param db).1

pub data PolicySteps (by_priority : List Policy → List Policy) (db : Db) : Db → Type 0 where
  here : PolicySteps by_priority db db
  next :
      {db1 db2 : Db}
      → PolicySteps by_priority db db1
      → PolicyStep by_priority db1 db2
      → PolicySteps by_priority db db2

All-update {ℓ κ} :
    {A : Type ℓ} (P : A → Type κ) (q : A → Bool) (a : A) (xs : List A)
    → P a
    → All P xs
    → All P (update q (λ _. a) xs)
unfolding update
All-update P q a [] p h = h
All-update P q a (x ∷ xs) p h = elim (Bool-cases (q x)) [
  | inl k ↦ rw k (p, All-update P q a xs p h.1)
  | inr k ↦ rw k (h.0, All-update P q a xs p h.1)
]

All-delete {ℓ κ} :
    {A : Type ℓ} (P : A → Type κ) (q : A → Bool) (xs : List A) → All P xs → All P (delete q xs)
All-delete P q [] h = h
All-delete P q (x ∷ xs) h = elim (Bool-cases (q x)) [
  | inl k ↦ rw k (All-delete P q xs h.1)
  | inr k ↦ rw k (h.0, All-delete P q xs h.1)
]

abbrev Positive : Db → Type 0
Positive db = All HasPositive db.sla_policies

if-Positive :
    {A : Type 0} (b : Bool) (x y : A × Db)
    → (b ≡ true → Positive x.1)
    → Positive y.1
    → Positive (if b then x else y).1
if-Positive true x y h k = h refl
if-Positive false x y h k = k

handled-Positive :
    {A : Type 0} (b : Bool) (x y : Handled Db A) (db : Db)
    → Positive (x db).1
    → (b ≡ false → Positive (y db).1)
    → Positive ((if b then x else y) db).1
handled-Positive true x y db h k = h
handled-Positive false x y db h k = k refl

or_none : (a b : Bool) → (a || b) ≡ false → (a ≡ false) × (b ≡ false)
or_none true b h = cc
or_none false b h = (refl, h)

query-Positive :
    {A : Type 0} (run : Action Db A) (db : Db)
    → ((d : Db) → Positive d → Positive (run d).1)
    → Positive db
    → Positive (query run db).1
unfolding query
query-Positive run db keep h = elim (Bool-cases (db.down db.queries)) [
  | inl k ↦ rw k h
  | inr k ↦ rw k (keep (record db { queries = suc db.queries }) h)
]

create_policy-Positive :
    (req : CreatePolicyRequest) (db : Db)
    → not_positive req.response_minutes ≡ false
    → not_positive req.resolution_minutes ≡ false
    → Positive db
    → Positive (create_policy req db).1
unfolding create_policy
create_policy-Positive req db r m h =
    query-Positive _ db
      (λ d k.
        let p = new_policy req d in
        if-Positive {A = Result Policy}
          (fits p && not (any (same_slot p.priority p.is_default) d.sla_policies)) _ _
          (λ t. All-append HasPositive d.sla_policies (p ∷ []) k ((r, m), tt)) k)
      h

update_policy-Positive :
    (id : Uuid) (req : UpdatePolicyRequest) (db : Db)
    → GivesPositive (some req)
    → Positive db
    → Positive (update_policy id req db).1
unfolding update_policy
update_policy-Positive id req db given h =
    query-Positive _ db
      (λ d k. elim (Option-cases (find? (has_policy_id id) d.sla_policies)) [
        | inl e ↦ rw e k
        | inr (p, e) ↦
            let q = coalesce_policy req d.clock p in
            rw e (
              if-Positive {A = Result Policy} (fits q && not (any (slot_taken q) d.sla_policies)) _
                _
                (λ t.
                  All-update HasPositive (has_policy_id q.id) q d.sla_policies
                    (coalesce_policy-HasPositive req d.clock p given
                      (All-find? HasPositive (has_policy_id id) d.sla_policies e k))
                    k)
                k)
      ])
      h

delete_policy-Positive : (id : Uuid) (db : Db) → Positive db → Positive (delete_policy id db).1
unfolding delete_policy
delete_policy-Positive id db h =
    query-Positive _ db
      (λ d k.
        if-Positive {A = Result (Unit {0})} (any (has_policy_id id) d.sla_policies) _ _
          (λ t. All-delete HasPositive (has_policy_id id) d.sla_policies k) k)
      h

or_not_found_state :
    {S : Type 0} (A : Type 0) (what message : String) (e : Error) (t : S)
    → (or_not_found {S = S} {A = A} what message e t).1 ≡ t
or_not_found_state {S} A what message e t = elim (Bool-cases (is_no_rows e)) [
  | inl h ↦ rw h refl
  | inr h ↦ rw h refl
]

PolicyStep-Positive :
    {by_priority : List Policy → List Policy} {db db' : Db}
    → PolicyStep by_priority db db'
    → Positive db
    → Positive db'
unfolding handle_create_policy handle_update_policy handle_delete_policy
PolicyStep-Positive (created none db) h = h
PolicyStep-Positive (created (some req) db) h =
    handled-Positive (str_eq req.name "" || str_eq req.priority "") _ _ db h λ named.
      handled-Positive (not_positive req.response_minutes || not_positive req.resolution_minutes) _
        _ db h
        (λ guard.
          let (r, m) = or_none _ _ guard in
          subst Positive
            (sym (
              call_state (create_policy req)
                (λ e. respond_error 500 "internal_error" "failed to create policy") (respond 201) db
                (λ e t. refl) (λ p t. refl)))
            (create_policy-Positive req db r m h))
PolicyStep-Positive (updated none body db given) h = h
PolicyStep-Positive (updated (some id) none db given) h = h
PolicyStep-Positive (updated (some id) (some req) db given) h =
    subst Positive
      (sym (
        call_state (update_policy id req)
          (or_not_found "policy not found" "failed to update policy") (respond 200) db
          (or_not_found_state _ _ _) (λ p t. refl)))
      (update_policy-Positive id req db given h)
PolicyStep-Positive (deleted none db) h = h
PolicyStep-Positive (deleted (some id) db) h =
    subst Positive
      (sym (
        call_state (delete_policy id) (or_not_found "policy not found" "failed to delete policy")
          (λ done. no_content) db (or_not_found_state _ _ _) (λ p t. refl)))
      (delete_policy-Positive id db h)

-- However many requests the policy API answers, in whatever order and with whatever bodies and failing
-- queries, if the updates give positive minutes or none and all stored policies have a positive number
-- of minutes for the response and for the resolution before, all have them afterwards.
pub policies_stay_positive :
    (by_priority : List Policy → List Policy) (db db' : Db)
    → PolicySteps by_priority db db'
    → All HasPositive db.sla_policies
    → All HasPositive db'.sla_policies
policies_stay_positive by_priority db db' here h = h
policies_stay_positive by_priority db db' (next {db1} steps step) h =
    PolicyStep-Positive step (policies_stay_positive by_priority db db1 steps h)
