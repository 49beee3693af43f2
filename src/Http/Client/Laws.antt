-- ===== src/Http/Client/Laws.antt =====
-- internal/zammad/client.go: what `Client.do` answers, and what it sends.
use ticketowl.Http.Client.{
  do_call, Reply, Net, Answer, judge, attempts, do_request, current, record_sent, rest_of,
  max_retries, is_client_error, answered, unreadable, is_success, no_answer, stop, retry,
}
use ticketowl.Base.{
  Option, Error, ℕ, none, err, String, api, suc, length, some, failed, ◌≡◌, if◌then◌else◌, zero,
  ◌+◌, arith, ok, refl, inl, ◌⊎◌, length-append, ◌∷◌, inr, [], Bool-cases, ◌++◌, ◌≤◌, Option-cases,
  List, any, sym, true, ◌==◌, ◌∙◌, false,
}

-- The statuses that are not worth another attempt.
abbrev pub refusals : List ℕ
refusals = 400 ∷ 401 ∷ 403 ∷ 404 ∷ 422 ∷ []

-- An answer that ends the loop: a success, a refusal, or an answer whose body cannot be read.
unfoldable pub final : Reply → Option Answer
final no_answer = none
final (unreadable status) = some (err failed, status)
final (answered status text) =
    if is_success status
    then some (ok text, status)
    else if any (λ refusal. refusal == status) refusals
    then some (err (api status), status)
    else none

is_client_error_lem :
    (status : ℕ) → is_client_error status ≡ any (λ refusal. refusal == status) refusals
unfolding is_client_error
is_client_error_lem status = ground arith

-- the error of a reply after which the loop goes on
abbrev pub error_of : Reply → Error
error_of (answered status text) = api status
error_of _ = failed

abbrev pub earlier : Option Answer → Answer × ℕ → Answer × ℕ
earlier none (a, tries) = (a, suc tries)
earlier (some answer) later = (answer, 1)

-- The first final reply of the `n` replies from number `k` on decides, or else the error of the last,
-- beside the number of the attempts made.
unfoldable pub first_final : (ℕ → Reply) → ℕ → ℕ → Error → Answer × ℕ
unfolding final
first_final replies zero k last = ((err last, 0), 0)
first_final replies (suc n) k last =
    earlier (final (replies k)) (first_final replies n (suc k) (error_of (replies k)))

pub judge_cases :
    (body rest : Option String) (r : Reply)
    → ((a : Answer) × (final r ≡ some a) × (judge body rest r ≡ stop a))
      ⊎ ((reader : Option String) × (final r ≡ none)
          × (judge body rest r ≡ retry reader (error_of r)))
unfolding judge final
judge_cases body rest no_answer = inr (rest, refl, refl)
judge_cases body rest (unreadable status) = inl ((err failed, status), refl, refl)
judge_cases body rest (answered status text) = elim (Bool-cases (is_success status)) [
  | inl h ↦ inl ((ok text, status), rw h refl, rw h refl)
  | inr h ↦ elim (Bool-cases (is_client_error status)) [
    | inl k ↦
        let r = sym (is_client_error_lem status) ∙ k in
        inl ((err (api status), status), rw h (rw r refl), rw h (rw k refl))
    | inr k ↦
        let r = sym (is_client_error_lem status) ∙ k in
        inr (body, rw h (rw r refl), rw h (rw k refl))
  ]
]

attempts_lem :
    (n : ℕ) (body reader : Option String) (last : Error) (net : Net)
    → let expected = first_final net.replies n (length net.sent) last in
      let result = attempts n body reader last net in
      (result.0 ≡ expected.0) × (length result.1.sent ≡ length net.sent + expected.1)
unfolding attempts first_final
attempts_lem zero body reader last net = (refl, ground arith)
attempts_lem (suc n) body reader last net =
    let first = current net in
    let rest = rest_of reader net in
    let net' = record_sent reader net in
    let grown : length (net.sent ++ reader ∷ []) ≡ suc (length net.sent) =
      omega (arith, length-append net.sent (reader ∷ [])) in
    let later = λ (r : Option String). attempts_lem n body r (error_of first) net' in
    elim (judge_cases body rest first) [
      | inl (a, f, j) ↦ rw f (rw j (refl, length-append net.sent (reader ∷ [])))
      | inr (reader', f, j) ↦
          let ih = rw grown at later reader' in rw f (rw j (ih.0, omega (arith, ih.1)))
    ]

first_final_bound :
    (replies : ℕ → Reply) (n k : ℕ) (last : Error) → (first_final replies n k last).1 ≤ n
unfolding first_final
first_final_bound replies zero k last = ground arith
first_final_bound replies (suc n) k last =
    let later = first_final_bound replies n (suc k) (error_of (replies k)) in
    elim (Option-cases (final (replies k))) [
      | inl h ↦ rw h (omega (arith, later))
      | inr (a, h) ↦ rw h (omega arith)
    ]

-- `Client.do` makes at most three attempts. The first success, refusal (400, 401, 403, 404 or 422) or
-- unreadable answer decides and is the last attempt; without one the error is the one of the third
-- attempt. A body without JSON, or a method and URL that make no request, fails without an attempt.
pub do_first_final :
    (marshalled : Option (Option String)) (net : Net)
    → ((body : Option String)
        → marshalled ≡ some body
        → let expected = first_final net.replies 3 (length net.sent) failed in
          let result = do_call true marshalled net in
          (result.0 ≡ expected.0)
          × (length result.1.sent ≡ length net.sent + expected.1)
          × (expected.1 ≤ 3))
      × (do_call false marshalled net ≡ ((err failed, 0), net))
      × (do_call true none net ≡ ((err failed, 0), net))
unfolding do_call do_request
do_first_final none net = (λ body h. cc, refl, refl)
do_first_final (some sent) net =
    let run = attempts_lem max_retries sent sent failed net in
    (λ body h. (run.0, run.1, first_final_bound net.replies 3 (length net.sent) failed), refl, refl)
