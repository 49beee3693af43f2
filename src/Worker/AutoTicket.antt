-- ===== src/Worker/AutoTicket.antt =====
-- internal/worker/autoticket.go: which rules an incident matches, and the title of the ticket.
pub mod Laws
mod Tests
use ticketowl.Base.Text.{has_prefix, ends_with, replace_all, codes}
use ticketowl.Base.{
  ℕ, String, List, if◌then◌else◌, map, Bool, leb, not, ◌∷◌, ◌&&◌, str_eq, false, [], ◌+◌, true, ltb,
  ◌==◌,
}
use ticketowl.Worker.Types.{AutoTicketRule}
use ticketowl.Worker.Types.{NightOwlEvent}

-- `unicode.ToLower`, exact where the result is a letter from a to z: capitals, U+0130 and U+212A.
-- Any other character stays, and no key of `severityRank` has one.
unfoldable pub lower_code : ℕ → ℕ
lower_code c =
    if leb 65 c && leb c 90 then c + 32 else if c == 304 then 105 else if c == 8490 then 107 else c

abbrev lower : String → List ℕ
unfolding lower_code
lower s = map lower_code (codes s)

abbrev same_codes : List ℕ → List ℕ → Bool
same_codes [] [] = true
same_codes [] (y ∷ ys) = false
same_codes (x ∷ xs) [] = false
same_codes (x ∷ xs) (y ∷ ys) = (x == y) && same_codes xs ys

-- `severityRank[strings.ToLower(s)]`, 0 for a text that is not a key
unfoldable pub severity_rank : String → ℕ
unfolding lower_code
severity_rank s =
    if same_codes (lower s) (codes "low")
    then 1
    else if same_codes (lower s) (codes "medium")
    then 2
    else if same_codes (lower s) (codes "high")
    then 3
    else if same_codes (lower s) (codes "critical")
    then 4
    else 0

-- the code of `-`
abbrev pub dash : ℕ
dash = 45

-- the test of the alert group, true where the source goes on
unfoldable pub group_matches : String → String → Bool
group_matches alert_group service =
    if not (str_eq alert_group "")
    then (if ends_with dash alert_group
        then has_prefix service alert_group
        else str_eq service alert_group)
    else true

-- the test of the severity, true where the source goes on
unfoldable pub severity_matches : String → String → Bool
severity_matches min_severity severity =
    if not (str_eq min_severity "")
    then not (ltb (severity_rank severity) (severity_rank min_severity))
    else true

unfoldable pub match_rule : AutoTicketRule → NightOwlEvent → Bool
match_rule rule incident =
    if not rule.enabled
    then false
    else if not (group_matches rule.alert_group incident.service)
    then false
    else if not (severity_matches rule.min_severity incident.severity)
    then false
    else true

unfoldable pub find_matching_rules : List AutoTicketRule → NightOwlEvent → List AutoTicketRule
find_matching_rules [] incident = []
find_matching_rules (r ∷ rules) incident =
    let rest = find_matching_rules rules incident in
    if match_rule r incident then r ∷ rest else rest

unfoldable pub render_title : String → NightOwlEvent → String
unfolding replace_all
render_title template incident =
    let title = replace_all template "{{.AlertName}}" incident.slug in
    let title' = replace_all title "{{.Summary}}" incident.summary in
    let title'' = replace_all title' "{{.Service}}" incident.service in
    replace_all title'' "{{.Severity}}" incident.severity
