-- ===== src/Worker/AutoTicket/Laws.antt =====
-- internal/worker/autoticket.go: what it means that a rule matches.
use ticketowl.Worker.AutoTicket
use ticketowl.Base.{
  String, ◌≡◌, ◌≤◌, true, List, ℕ, ◌++◌, false, Bool-cases, arith, refl, ◌↔◌, str_eq, eq_iff, inl,
  inr, [], ◌∷◌,
}
use ticketowl.Worker.Types.{AutoTicketRule, NightOwlEvent}
use ticketowl.Base.Text.{ends_with, codes, has_prefix_sound, has_prefix_of}

-- The texts that a rule's alert group accepts: any for an empty group, the extensions of a group that
-- ends in a dash, and the group itself otherwise.
pub data GroupAccepts (group service : String) : Type 0 where
  any_service : group ≡ "" → GroupAccepts group service
  extends :
      ends_with AutoTicket.dash group ≡ true
      → (rest : List ℕ) → codes service ≡ codes group ++ rest
      → GroupAccepts group service
  exactly : ends_with AutoTicket.dash group ≡ false → service ≡ group → GroupAccepts group service

-- A rule without a severity accepts each; one with a severity accepts a rank at least its own.
pub data SeverityAccepts (min severity : String) : Type 0 where
  no_minimum : min ≡ "" → SeverityAccepts min severity
  ranked :
      AutoTicket.severity_rank min ≤ AutoTicket.severity_rank severity
      → SeverityAccepts min severity

pub record Matches (rule : AutoTicketRule) (incident : NightOwlEvent) : Type 0 where
  pub enabled : rule.enabled ≡ true
  pub group : GroupAccepts rule.alert_group incident.service
  pub severity : SeverityAccepts rule.min_severity incident.severity

group_matches_sound :
    (group service : String)
    → AutoTicket.group_matches group service ≡ true
    → GroupAccepts group service
unfolding AutoTicket.group_matches
group_matches_sound group service h = elim (Bool-cases (str_eq group "")) [
  | inl k ↦ any_service ((eq_iff group "").0 k)
  | inr k ↦ elim (Bool-cases (ends_with AutoTicket.dash group)) [
    | inl d ↦
        let (rest, e) = has_prefix_sound service group (ground (arith, h, k, d)) in extends d rest e
    | inr d ↦ exactly d ((eq_iff service group).0 (ground (arith, h, k, d)))
  ]
]

severity_matches_sound :
    (min severity : String)
    → AutoTicket.severity_matches min severity ≡ true
    → SeverityAccepts min severity
unfolding AutoTicket.severity_matches
severity_matches_sound min severity h = elim (Bool-cases (str_eq min "")) [
  | inl k ↦ no_minimum ((eq_iff min "").0 k)
  | inr k ↦ ranked (ground (arith, k, h))
]

group_matches_of :
    {group service : String}
    → GroupAccepts group service
    → AutoTicket.group_matches group service ≡ true
unfolding AutoTicket.group_matches
group_matches_of (any_service h) = rw h
group_matches_of {group} {service} (extends d rest h) =
    ground (arith, d, has_prefix_of service group rest h)
group_matches_of {group} {service} (exactly d h) = ground (arith, d, eq_iff service group, h)

severity_matches_of :
    {min severity : String}
    → SeverityAccepts min severity
    → AutoTicket.severity_matches min severity ≡ true
unfolding AutoTicket.severity_matches
severity_matches_of (no_minimum h) = rw h
severity_matches_of (ranked h) = ground (arith, h)

match_rule_sound :
    (rule : AutoTicketRule) (incident : NightOwlEvent)
    → AutoTicket.match_rule rule incident ≡ true
    → Matches rule incident
unfolding AutoTicket.match_rule
match_rule_sound rule incident h = record {
  enabled = ground (arith, h);
  group = group_matches_sound rule.alert_group incident.service (ground (arith, h));
  severity = severity_matches_sound rule.min_severity incident.severity (ground (arith, h));
}

match_rule_complete :
    {rule : AutoTicketRule} {incident : NightOwlEvent}
    → Matches rule incident
    → AutoTicket.match_rule rule incident ≡ true
unfolding AutoTicket.match_rule
match_rule_complete m =
    rw m.enabled (rw (group_matches_of m.group) (rw (severity_matches_of m.severity) refl))

-- `MatchRule` answers true exactly when the rule is enabled, its alert group accepts the incident's
-- service and its minimum severity accepts the incident's severity.
match_rule_iff :
    (rule : AutoTicketRule) (incident : NightOwlEvent)
    → (AutoTicket.match_rule rule incident ≡ true) ↔ Matches rule incident
match_rule_iff rule incident = (match_rule_sound rule incident, match_rule_complete)

-- `ys` are the elements of `xs` that satisfy `P`, in their order.
pub data Selected {ℓ} {A : Type ℓ} (P : A → Type 0) : List A → List A → Type ℓ where
  none_left : Selected P [] []
  keep : (x : A) → P x → (xs ys : List A) → Selected P xs ys → Selected P (x ∷ xs) (x ∷ ys)
  drop : (x : A) → ¬ (P x) → (xs ys : List A) → Selected P xs ys → Selected P (x ∷ xs) ys

-- `FindMatchingRules` returns exactly the rules that match the incident, in the order of the list.
find_matching_rules_selects :
    (incident : NightOwlEvent) (rules : List AutoTicketRule)
    → Selected (λ rule. Matches rule incident) rules (AutoTicket.find_matching_rules rules incident)
unfolding AutoTicket.find_matching_rules
find_matching_rules_selects incident [] = none_left
find_matching_rules_selects incident (r ∷ rules) =
    elim (Bool-cases (AutoTicket.match_rule r incident)) [
      | inl h ↦ rw h (
          keep r (match_rule_sound r incident h) rules _
            (find_matching_rules_selects incident rules))
      | inr h ↦ rw h (
          drop r (λ m. cc (h, match_rule_complete m)) rules _
            (find_matching_rules_selects incident rules))
    ]

-- A rule that matches an incident matches it at any higher severity too.
match_rule_raised :
    (rule : AutoTicketRule) (incident : NightOwlEvent) (severity : String)
    → AutoTicket.match_rule rule incident ≡ true
    → AutoTicket.severity_rank incident.severity ≤ AutoTicket.severity_rank severity
    → AutoTicket.match_rule rule (record incident { severity = severity }) ≡ true
match_rule_raised rule incident severity h raised =
    let m = match_rule_sound rule incident h in
    match_rule_complete
      (record { enabled = m.enabled; group = m.group; severity = raise m.severity })
  where
    raise :
        SeverityAccepts rule.min_severity incident.severity
        → SeverityAccepts rule.min_severity severity
    raise (no_minimum e) = no_minimum e
    raise (ranked e) = ranked (omega (arith, e, raised))
