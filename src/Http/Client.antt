-- ===== src/Http/Client.antt =====
-- internal/zammad/client.go and errors.go: the retries of `Client.do`. The clients of
-- internal/nightowl and internal/bookowl have the same loop. The pauses between two attempts and the
-- tracing are left out.
pub mod Laws
pub mod Bodies
mod Tests
use ticketowl.Base.{
  ℕ, Error, Result, Option, length, String, Bool, List, ◌==◌, leb, api, failed, ◌++◌, err, Action,
  ◌||◌, ◌&&◌, false, if◌then◌else◌, ◌∷◌, suc, ltb, ok, [], zero, some, none,
}

-- What an attempt meets: `httpClient.Do` fails, the body of the answer cannot be read, or there is an
-- answer with a status and a body.
pub data Reply : Type 0 where
  no_answer : Reply
  unreadable : ℕ → Reply
  answered : ℕ → String → Reply

-- The network. `replies n` is what the attempt with number `n` meets, and `left n` what an attempt that
-- fails leaves unread of the reader of the request's body. `sent` are the bodies that were sent.
pub record Net : Type 0 where
  pub replies : ℕ → Reply
  pub left : ℕ → Option String → Option String
  pub sent : List (Option String)

unfoldable pub is_client_error : ℕ → Bool
is_client_error status =
    status == 400 || status == 401 || status == 403 || status == 404 || status == 422

abbrev pub is_success : ℕ → Bool
is_success status = leb 200 status && ltb status 300

-- `IsNotFound`
unfoldable pub is_not_found : Error → Bool
is_not_found (api status) = status == 404
is_not_found _ = false

-- `IsUnauthorised`
unfoldable pub is_unauthorised : Error → Bool
is_unauthorised (api status) = status == 401 || status == 403
is_unauthorised _ = false

-- the body of the answer, the status and the error
abbrev pub Answer : Type 0
Answer = Result String × ℕ

-- What the loop does with a reply: it answers, or it goes on with the reader and the last error.
pub data Verdict : Type 0 where
  stop : Answer → Verdict
  retry : Option String → Error → Verdict

-- `body` is the whole body of the request, `rest` what is left of its reader
unfoldable pub judge : Option String → Option String → Reply → Verdict
unfolding is_client_error
judge body rest no_answer = retry rest failed
judge body rest (unreadable status) = stop (err failed, status)
judge body rest (answered status text) =
    if is_success status
    then stop (ok text, status)
    else if is_client_error status
    then stop (err (api status), status)
    else retry body (api status)

abbrev pub record_sent : Option String → Net → Net
record_sent reader net = record net { sent = net.sent ++ reader ∷ [] }

abbrev pub current : Net → Reply
current net = net.replies (length net.sent)

abbrev pub rest_of : Option String → Net → Option String
rest_of reader net = net.left (length net.sent) reader

abbrev pub after : Verdict → (Option String → Error → Net → Answer × Net) → Net → Answer × Net
after (stop a) again net = (a, net)
after (retry reader last) again net = again reader last net

-- `for attempt := range maxRetries`
unfoldable pub attempts : ℕ → Option String → Option String → Error → Net → Answer × Net
unfolding judge
attempts zero body reader last net = ((err last, 0), net)
attempts (suc n) body reader last net =
    after (judge body (rest_of reader net) (current net)) (λ r e s. attempts n body r e s)
      (record_sent reader net)

abbrev pub max_retries : ℕ
max_retries = 3

-- the loop of `Client.do`, on the marshalled body
unfoldable pub do_request : Option String → Net → Answer × Net
unfolding attempts
do_request body net = attempts max_retries body body failed net

-- `Client.do`: `marshalled` is none if the body has no JSON, and `creatable` says that the method and
-- the URL make a request
unfoldable pub do_call : Bool → Option (Option String) → Net → Answer × Net
do_call creatable none net = ((err failed, 0), net)
do_call creatable (some body) net =
    if creatable then do_request body net else ((err failed, 0), net)

-- `get`, `post`, `put` and `delete` drop the status
unfoldable pub request : Option String → Action Net String
unfolding do_request
request body net = let (answer, net') = do_request body net in (answer.0, net')
