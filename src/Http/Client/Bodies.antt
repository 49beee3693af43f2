-- ===== src/Http/Client/Bodies.antt =====
-- internal/zammad/client.go: the bodies that the attempts of `Client.do` send.
use ticketowl.Http.Client.{
  Reply, Net, judge, attempts, do_request, current, record_sent, rest_of, is_client_error, Answer,
  answered, no_answer, stop, retry, is_success,
}
use mathlib.Core.List.{append_assoc}
use ticketowl.Base.{
  ℕ, Option, String, ◌≡◌, Error, All, [], List, suc, ◌++◌, ◌⊎◌, All-append, ◌∷◌, length, Bool-cases,
  inl, inr, ok, zero, err, refl, api, failed, ◌∙◌,
}
use ticketowl.Http.Client.Laws.{judge_cases, error_of}

-- Every attempt gets an answer whose body can be read.
abbrev pub AlwaysAnswers : (ℕ → Reply) → Type 0
AlwaysAnswers replies =
    (k : ℕ) → (status : ℕ) × (text : String) × (replies k ≡ answered status text)

answered-judge :
    (body rest : Option String) (status : ℕ) (text : String)
    → ((a : Answer) × (judge body rest (answered status text) ≡ stop a))
      ⊎ ((e : Error) × (judge body rest (answered status text) ≡ retry body e))
unfolding judge
answered-judge body rest status text = elim (Bool-cases (is_success status)) [
  | inl h ↦ inl ((ok text, status), rw h refl)
  | inr h ↦ elim (Bool-cases (is_client_error status)) [
    | inl k ↦ inl ((err (api status), status), rw h (rw k refl))
    | inr k ↦ inr (api status, rw h (rw k refl))
  ]
]

attempts_whole :
    (n : ℕ) (body : Option String) (last : Error) (net : Net)
    → AlwaysAnswers net.replies
    → All (λ b. b ≡ body) net.sent
    → All (λ b. b ≡ body) (attempts n body body last net).1.sent
unfolding attempts
attempts_whole zero body last net answers sent = sent
attempts_whole (suc n) body last net answers sent =
    let net' = record_sent body net in
    let sent' = All-append (λ b. b ≡ body) net.sent (body ∷ []) sent (refl, tt) in
    let later = λ (e : Error). attempts_whole n body e net' answers sent' in
    let (status, text, r) = answers (length net.sent) in
    rw r (elim (answered-judge body (rest_of body net) status text) [
      | inl (a, j) ↦ rw j sent'
      | inr (e, j) ↦ rw j (later e)
    ])

-- As long as every attempt gets an answer, each attempt sends the whole body of the request.
answers_send_whole :
    (body : Option String) (net : Net)
    → AlwaysAnswers net.replies
    → net.sent ≡ []
    → All (λ b. b ≡ body) (do_request body net).1.sent
unfolding do_request
answers_send_whole body net answers none_sent =
    attempts_whole 3 body failed net answers (rw none_sent tt)

attempts_first :
    (n : ℕ) (body reader : Option String) (last : Error) (net : Net)
    → (more : List (Option String)) × ((attempts (suc n) body reader last net).1.sent
        ≡ net.sent ++ reader ∷ more)
unfolding attempts
attempts_first zero body reader last net =
    elim (judge_cases body (rest_of reader net) (current net)) [
      | inl (a, f, j) ↦ ([], rw j refl)
      | inr (r, f, j) ↦ ([], rw j refl)
    ]
attempts_first (suc n) body reader last net =
    let later =
      λ (r : Option String) (e : Error). attempts_first n body r e (record_sent reader net) in
    elim (judge_cases body (rest_of reader net) (current net)) [
      | inl (a, f, j) ↦ ([], rw j refl)
      | inr (r, f, j) ↦
          let (more, e) = later r (error_of (current net)) in
          (r ∷ more, rw j (e ∙ append_assoc net.sent (reader ∷ []) (r ∷ more)))
    ]

-- An attempt that gets no answer leaves the reader of the body where it stopped, so the next attempt
-- sends only the rest.
pub no_answer_resends_rest :
    (body : Option String) (net : Net)
    → current net ≡ no_answer
    → (more : List (Option String)) × ((do_request body net).1.sent
        ≡ (net.sent ++ body ∷ []) ++ rest_of body net ∷ more)
unfolding do_request attempts judge
no_answer_resends_rest body net lost =
    let (more, e) = attempts_first 1 body (rest_of body net) failed (record_sent body net) in
    (more, rw lost e)
