-- ===== src/Worker/Handler/Incidents/Laws.antt =====
-- internal/worker/resolve.go: the tickets that `handleIncidentCreated` creates.
use ticketowl.Worker.Types.{AutoTicketRule, NightOwlEvent}
use ticketowl.Worker.Handler.Context.{on_db, on_remote, nightowl_client, ticket_request, no_update}
use ticketowl.Worker.Handler.Assign.{
  auto_assign_ticket, assign_owner, assign_user, ask_on_call, assign_mapped,
}
use ticketowl.Admin.Store as AdminStore
use ticketowl.Ticket.Store as TicketStore
use ticketowl.Link.Store as LinkStore
use ticketowl.Worker.Handler.Incidents.{
  assign_new, link_new, apply_rule, apply_rules, NightOwlClient, link_meta, title_of,
}
use mathlib.Core.List.{append-nil, append_assoc}
use mathlib.Core.Path.{subst}
use ticketowl.Base.{
  false, List, String, Action, Bool, ◌≡◌, ◌>>=◌, if◌then◌else◌, ◌++◌, ℕ, true, ◌∷◌, Option, [],
  none, pure, some, ignore, refl, ok, ◌∙◌, >>=-same, >>=-inv, str_eq, ok_inj, not, map, ap, sym,
}
use ticketowl.Zammad.Api.{ZammadClient}
use ticketowl.Db.{Db}
use ticketowl.Zammad.Types.{TicketCreateRequest, User, TicketUpdateRequest, Ticket}
use ticketowl.NightOwl.Types.{OnCallInfo}
use ticketowl.Admin.Types.{GroupRosterMapping, IntegrationKey}
use ticketowl.Sla.Types.{Uuid}

-- What is observed of the remote services by `titles`, such as the titles of the tickets created.
module _ {R : Type 0} (titles : R → List String) where
  -- A call after which the same titles are observed.
  abbrev pub Keeps : {A : Type 0} → Action (Db × R) A → Type 0
  Keeps m = (s : Db × R) → titles (m s).1.1 ≡ titles s.1

  bind-Keeps :
      {A B : Type 0} (m : Action (Db × R) A) (f : A → Action (Db × R) B)
      → Keeps m
      → ((a : A) → Keeps (f a))
      → Keeps (m >>= f)
  bind-Keeps m f h k s = >>=-same m f (λ x. titles x.1) s (h s) (λ a e. k a (m s).1)

  if-Keeps :
      {A : Type 0} (b : Bool) (m n : Action (Db × R) A)
      → Keeps m
      → Keeps n
      → Keeps (if b then m else n)
  if-Keeps true m n h k = h
  if-Keeps false m n h k = k

  -- The creation of a ticket adds its title, whether it succeeds or not; the other calls add none.
  pub record Observes (client : ZammadClient R) : Type 0 where
    pub creates :
        (req : TicketCreateRequest) (r : R)
        → titles (client.create_ticket req r).1 ≡ titles r ++ req.title ∷ []
    pub updates :
        (id : ℕ) (req : TicketUpdateRequest) (r : R)
        → titles (client.update_ticket id req r).1 ≡ titles r
    pub searches :
        (email : String) (r : R) → titles (client.search_users_by_email email r).1 ≡ titles r

  module _ (nightowl : String → String → NightOwlClient R) (client : ZammadClient R)
      (asks : (url key service : String) (r : R)
        → titles ((nightowl url key).get_on_call_for_service service r).1 ≡ titles r)
      (sees : Observes client) where
    assign_user-Keeps : (id : ℕ) (u : Option User) → Keeps (assign_user nightowl client id u)
    assign_user-Keeps id none s = refl
    assign_user-Keeps id (some u) s =
        sees.updates id (record no_update { owner_id = some u.id }) s.1

    assign_owner-Keeps : (id : ℕ) (o : OnCallInfo) → Keeps (assign_owner nightowl client id o)
    assign_owner-Keeps id o =
        bind-Keeps (on_remote (client.search_users_by_email o.user_email))
          (assign_user nightowl client id) (λ s. sees.searches o.user_email s.1)
          (assign_user-Keeps id)

    ask-Keeps :
        (url key : String) (id : ℕ) (mapping : GroupRosterMapping)
        → Keeps (ask_on_call nightowl client id mapping (nightowl url key))
    ask-Keeps url key id mapping =
        bind-Keeps (on_remote ((nightowl url key).get_on_call_for_service mapping.roster_id))
          (assign_owner nightowl client id) (λ s. asks url key mapping.roster_id s.1)
          (assign_owner-Keeps id)

    client_made :
        (s : Db × R) {c : NightOwlClient R}
        → (nightowl_client nightowl s).0 ≡ ok c
        → (url : String) × (key : String) × (nightowl url key ≡ c)
    unfolding nightowl_client
    client_made s {c} h =
        let get = on_db (AdminStore.get_integration_key "nightowl") in
        let make = λ (k : IntegrationKey). pure (nightowl k.api_url k.api_key) in
        let (k, found, run) = >>=-inv get make s h in
        (k.api_url, k.api_key, ok_inj (ap (λ x. x.0) (sym run) ∙ h))

    nightowl_client-Keeps : Keeps (nightowl_client nightowl)
    unfolding nightowl_client
    nightowl_client-Keeps =
        bind-Keeps (on_db (AdminStore.get_integration_key "nightowl"))
          (λ k. pure (nightowl k.api_url k.api_key)) (λ s. refl) (λ k s. refl)

    assign_mapped-Keeps :
        (id : ℕ) (mapping : GroupRosterMapping) → Keeps (assign_mapped nightowl client id mapping)
    assign_mapped-Keeps id mapping =
        if-Keeps (not mapping.auto_assign) (pure tt)
          (nightowl_client nightowl >>= ask_on_call nightowl client id mapping) (λ s. refl)
          (λ s.
            >>=-same (nightowl_client nightowl) (ask_on_call nightowl client id mapping)
              (λ x. titles x.1) s (nightowl_client-Keeps s)
              (λ c e.
                let (url, key, made) = client_made s e in
                subst (λ z. Keeps (ask_on_call nightowl client id mapping z)) made
                  (ask-Keeps url key id mapping) (nightowl_client nightowl s).1))

    auto_assign-Keeps :
        (id : ℕ) (group : String) → Keeps (auto_assign_ticket nightowl client id group)
    unfolding auto_assign_ticket
    auto_assign-Keeps id group =
        let lookup = on_db (AdminStore.Rosters.get_group_roster_mapping_by_zammad_group group) in
        if-Keeps (str_eq group "") (pure tt) (ignore (lookup >>= assign_mapped nightowl client id))
          (λ s. refl)
          (bind-Keeps lookup (assign_mapped nightowl client id) (λ s. refl)
            (assign_mapped-Keeps id))

    assign_new-Keeps :
        (rule : AutoTicketRule) (t : Ticket) → Keeps (assign_new nightowl client rule t)
    unfolding assign_new
    assign_new-Keeps rule t =
        let by_rule = auto_assign_ticket nightowl client t.id rule.default_group in
        if-Keeps (not (str_eq t.group "")) (auto_assign_ticket nightowl client t.id t.group)
          (if not (str_eq rule.default_group "") then by_rule else pure tt)
          (auto_assign-Keeps t.id t.group)
          (if-Keeps (not (str_eq rule.default_group "")) by_rule (pure tt)
            (auto_assign-Keeps t.id rule.default_group) (λ s. refl))

    link_new-Keeps :
        (evt : NightOwlEvent) (id : Uuid) (rule : AutoTicketRule) (t : Ticket)
        → Keeps (link_new nightowl client evt id rule t)
    unfolding link_new
    link_new-Keeps evt id rule t =
        bind-Keeps (on_db (TicketStore.upsert t.id t.number none))
          (link_meta nightowl client evt id rule t) (λ s. refl)
          (λ m.
            bind-Keeps (ignore (on_db (LinkStore.create_incident_link m.id id 0 evt.slug)))
              (λ _. assign_new nightowl client rule t) (λ s. refl) (λ _. assign_new-Keeps rule t))

    apply_rule_titles :
        (evt : NightOwlEvent) (id : Uuid) (rule : AutoTicketRule) (s : Db × R)
        → titles (apply_rule nightowl client evt id rule s).1.1
          ≡ titles s.1 ++ title_of evt rule ∷ []
    unfolding apply_rule
    apply_rule_titles evt id rule s =
        let call = on_remote (client.create_ticket (ticket_request (title_of evt rule))) in
        let next = link_new nightowl client evt id rule in
        >>=-same call next (λ x. titles x.1) s
          (sees.creates (ticket_request (title_of evt rule)) s.1)
          (λ t e. link_new-Keeps evt id rule t (call s).1)

    -- For each rule that matched, in order, one ticket with the rule's title is asked for, whatever
    -- fails for another rule: the creation, the database or the assignment.
    pub rules_create_each :
        (evt : NightOwlEvent) (id : Uuid) (rules : List AutoTicketRule) (s : Db × R)
        → titles (apply_rules nightowl client evt id rules s).1.1
          ≡ titles s.1 ++ map (title_of evt) rules
    unfolding apply_rules
    rules_create_each evt id [] s = sym (append-nil (titles s.1))
    rules_create_each evt id (rule ∷ rules) s =
        rules_create_each evt id rules (apply_rule nightowl client evt id rule s).1
        ∙ ap (λ x. x ++ map (title_of evt) rules) (apply_rule_titles evt id rule s)
        ∙ append_assoc (titles s.1) (title_of evt rule ∷ []) (map (title_of evt) rules)
