-- ===== src/Http/Client/Tests.antt =====
-- Runs of internal/zammad/client.go.
use ticketowl.Http.Client.{Reply, Net, do_request, do_call, answered, no_answer}
use ticketowl.Http.Client.Laws.{first_final, do_first_final}
use ticketowl.Http.Client.Bodies.{AlwaysAnswers, no_answer_resends_rest}
use ticketowl.Base.{
  ℕ, Option, ◌≡◌, failed, List, some, String, ok, length, [], ◌+◌, err, ◌≤◌, refl, ◌++◌, api, ◌∷◌,
  suc, zero, true, false, none,
}

-- two server errors, then a success
abbrev flaky : ℕ → Reply
flaky zero = answered 502 ""
flaky (suc zero) = answered 500 ""
flaky (suc (suc _)) = answered 200 "{}"

abbrev net : (ℕ → Reply) → Net
net replies = record { replies = replies; left = λ n body. some ""; sent = [] }

abbrev payload : Option String
payload = some "{\"title\":\"disk full\"}"

test-do_request :
    ((do_request payload (net flaky)).0 ≡ (ok "{}", 200))
    × ((do_request payload (net (λ k. answered 404 "no"))).0 ≡ (err (api 404), 404))
    × (length (do_request payload (net (λ k. answered 404 "no"))).1.sent ≡ 1)
    × ((do_request payload (net (λ k. answered 503 "busy"))).0 ≡ (err (api 503), 0))
    × (length (do_request payload (net (λ k. no_answer))).1.sent ≡ 3)
unfolding do_request
test-do_request = (refl, refl, refl, refl, refl)

do_first_final_example :
    ((body : Option String)
      → some payload ≡ some body
      → let expected = first_final flaky 3 0 failed in
        let result = do_call true (some payload) (net flaky) in
        (result.0 ≡ expected.0) × (length result.1.sent ≡ 0 + expected.1) × (expected.1 ≤ 3))
    × (do_call false (some payload) (net flaky) ≡ ((err failed, 0), net flaky))
    × (do_call true none (net flaky) ≡ ((err failed, 0), net flaky))
do_first_final_example = do_first_final (some payload) (net flaky)

flaky-AlwaysAnswers : AlwaysAnswers flaky
flaky-AlwaysAnswers zero = (502, "", refl)
flaky-AlwaysAnswers (suc zero) = (500, "", refl)
flaky-AlwaysAnswers (suc (suc k)) = (200, "{}", refl)

no_answer_resends_rest_example :
    (more : List (Option String)) × ((do_request payload (net (λ k. no_answer))).1.sent
      ≡ ([] ++ payload ∷ []) ++ some "" ∷ more)
no_answer_resends_rest_example = no_answer_resends_rest payload (net (λ k. no_answer)) refl
