-- ===== src/Admin/Handler/Secrets.antt =====
-- internal/admin/handler.go: what an answer tells of the stored secrets.
use ticketowl.Base.{
  String, Option, none, some, Result, ok, err, Bool, not, str_eq, if◌then◌else◌, List, [], ◌∷◌, map,
  find?, ◌≡◌, refl, ap, Bool-cases, inl, inr, no_rows, suc, Action, or_raise, sym, ◌∙◌, is_no_rows,
}
use ticketowl.Db.{Db, query}
use ticketowl.Admin.Types.{
  ZammadConfig, IntegrationKey, ZammadConfigSummary, IntegrationKeySummary, ConfigOverview,
}
use ticketowl.Admin.Store.{get_zammad_config, get_integration_key, first_row, of_service}
use ticketowl.Admin.Handler.{optional_key, summary_of, with_zammad, handle_get_config, add_keys}
use ticketowl.Http.Respond.{respond}

-- A token that is set is replaced by one text, an empty one stays; the webhook's secret and the keys
-- are blanked.
abbrev pub redact_config : ZammadConfig → ZammadConfig
redact_config c = record c {
  api_token = if str_eq c.api_token "" then "" else "*";
  webhook_secret = "";
}

abbrev pub redact_key : IntegrationKey → IntegrationKey
redact_key k = record k { api_key = "" }

abbrev pub redact : Db → Db
redact db = record db {
  zammad_config = map redact_config db.zammad_config;
  integration_keys = map redact_key db.integration_keys;
}

abbrev map_option : {A B : Type 0} → (A → B) → Option A → Option B
map_option f none = none
map_option f (some a) = some (f a)

abbrev map_result : {A B : Type 0} → (A → B) → Result A → Result B
map_result f (ok a) = ok (f a)
map_result f (err e) = err e

row_map :
    {A : Type 0} (f : A → A) (o : Option A) (db db' : Db)
    → or_raise (map_option f o) no_rows db' ≡ (map_result f (or_raise o no_rows db).0, db')
row_map f none db db' = refl
row_map f (some a) db db' = refl

row_state : {A : Type 0} (o : Option A) (db : Db) → (or_raise o no_rows db).1 ≡ db
row_state none db = refl
row_state (some a) db = refl

find?-map :
    {A : Type 0} (p : A → Bool) (f : A → A)
    → ((a : A) → p (f a) ≡ p a)
    → (xs : List A) → find? p (map f xs) ≡ map_option f (find? p xs)
find?-map p f same [] = refl
find?-map p f same (x ∷ xs) = elim (Bool-cases (p x)) [
  | inl h ↦ rw (same x, h) refl
  | inr h ↦ rw (same x, h) (find?-map p f same xs)
]

-- A query whose answer on the redacted database is the redacted answer.
abbrev Redacts : {A : Type 0} → (A → A) → Action Db A → Type 0
Redacts f m = (db : Db) → (m (redact db) ≡ (map_result f (m db).0, redact (m db).1))

config-Redacts : Redacts redact_config get_zammad_config
unfolding get_zammad_config query
config-Redacts db = elim (Bool-cases (db.down db.queries)) [
  | inl h ↦ rw h refl
  | inr h ↦ rw h (go db.zammad_config)
]
  where
    go :
        (cs : List ZammadConfig)
        → let after = record db { queries = suc db.queries } in
          or_raise (first_row (map redact_config cs)) no_rows (redact after) ≡ (
            map_result redact_config (or_raise (first_row cs) no_rows after).0,
            redact (or_raise (first_row cs) no_rows after).1,
          )
    go [] = refl
    go (c ∷ cs) = refl

key-Redacts : (service : String) → Redacts redact_key (get_integration_key service)
unfolding get_integration_key query
key-Redacts service db = elim (Bool-cases (db.down db.queries)) [
  | inl h ↦ rw h refl
  | inr h ↦ rw h (
      rw (find?-map (of_service service) redact_key (λ k. refl) db.integration_keys)
        (go (find? (of_service service) db.integration_keys)))
]
  where
    go :
        (o : Option IntegrationKey)
        → let after = record db { queries = suc db.queries } in
          or_raise (map_option redact_key o) no_rows (redact after) ≡ (
            map_result redact_key (or_raise o no_rows after).0,
            redact (or_raise o no_rows after).1,
          )
    go none = refl
    go (some k) = refl

has_token_redacted :
    (token : String) → not (str_eq (if str_eq token "" then "" else "*") "") ≡ not (str_eq token "")
has_token_redacted token = elim (Bool-cases (str_eq token "")) [
  | inl h ↦ rw h refl
  | inr h ↦ rw h refl
]

summary_redacted : (c : ZammadConfig) → summary_of (redact_config c) ≡ summary_of c
summary_redacted c =
    ap (λ b. record (summary_of c) { has_token = b }) (has_token_redacted c.api_token)

optional_key_redacted :
    (r : Result IntegrationKey) → optional_key (map_result redact_key r) ≡ optional_key r
optional_key_redacted (ok k) = refl
optional_key_redacted (err e) = refl

add_keys_redacted :
    (managed : Bool) (zammad : Option ZammadConfigSummary) (db : Db)
    → (add_keys managed zammad (redact db)).0 ≡ (add_keys managed zammad db).0
add_keys_redacted managed zammad db =
    let db1 = (get_integration_key "nightowl" db).1 in
    let overview = λ (a b : Option IntegrationKeySummary) (d : Db).
      (respond {A = ConfigOverview} 200
        (record { managed = managed; zammad = zammad; nightowl = a; bookowl = b }) d).0 in
    ap
      (λ (x : Result IntegrationKey × Db).
        overview (optional_key x.0) (optional_key (get_integration_key "bookowl" x.1).0) x.1)
      (key-Redacts "nightowl" db)
    ∙ ap
        (λ (x : Result IntegrationKey × Db).
          overview (optional_key (map_result redact_key (get_integration_key "nightowl" db).0))
            (optional_key x.0) x.1)
        (key-Redacts "bookowl" db1)
    ∙ ap
        (λ a.
          overview a (optional_key (map_result redact_key (get_integration_key "bookowl" db1).0))
            db1)
        (optional_key_redacted (get_integration_key "nightowl" db).0)
    ∙ ap (λ b. overview (optional_key (get_integration_key "nightowl" db).0) b db1)
        (optional_key_redacted (get_integration_key "bookowl" db1).0)

with_zammad_redacted :
    (managed : Bool) (r : Result ZammadConfig) (db : Db)
    → (with_zammad (map_result redact_config r) (add_keys managed) (redact db)).0
      ≡ (with_zammad r (add_keys managed) db).0
with_zammad_redacted managed (ok c) db =
    ap (λ z. (add_keys managed (some z) (redact db)).0) (summary_redacted c)
    ∙ add_keys_redacted managed (some (summary_of c)) db
with_zammad_redacted managed (err e) db = elim (Bool-cases (is_no_rows e)) [
  | inl h ↦ rw h (add_keys_redacted managed none db)
  | inr h ↦ rw h refl
]

get_config_redacted :
    (managed : Bool) (db : Db)
    → (handle_get_config managed (redact db)).0 ≡ (handle_get_config managed db).0
unfolding handle_get_config
get_config_redacted managed db =
    ap (λ (x : Result ZammadConfig × Db). (with_zammad x.0 (add_keys managed) x.1).0)
      (config-Redacts db)
    ∙ with_zammad_redacted managed (get_zammad_config db).0 (get_zammad_config db).1

-- The overview of the configuration tells nothing of the stored secrets but whether the Zammad token
-- is set: two databases that are the same once the tokens that are set are replaced by one text and
-- the webhook secrets and integration keys are blanked get the same answer, failing queries included.
pub get_config_hides :
    (managed : Bool) (db db' : Db)
    → redact db ≡ redact db'
    → (handle_get_config managed db).0 ≡ (handle_get_config managed db').0
get_config_hides managed db db' same =
    sym (get_config_redacted managed db)
    ∙ ap (λ d. (handle_get_config managed d).0) same
    ∙ get_config_redacted managed db'
