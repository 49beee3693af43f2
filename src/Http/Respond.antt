-- ===== src/Http/Respond.antt =====
-- What an HTTP handler answers, by `httpserver.Respond` and `httpserver.RespondError` of the core
-- module: a status with a JSON value, with an error's code and message, or with no body.
use ticketowl.Base.{ℕ, String, Option, none, some, ok, err, Error, Action, ◌≡◌, ap, Result}

pub data Body {ℓ} (A : Type ℓ) : Type ℓ where
  value : A → Body A
  failure : String → String → Body A
  empty : Body A

pub record Response {ℓ} (A : Type ℓ) : Type ℓ where
  pub status : ℕ
  pub body : Body A

-- A handler of one request, against a state `S`.
abbrev pub Handled {ℓ} : Type ℓ → Type ℓ → Type ℓ
Handled S A = S → Response A × S

module _ {ℓ} {S A : Type ℓ} where
  abbrev pub respond : ℕ → A → Handled S A
  respond status a s = (record { status = status; body = value a }, s)

  abbrev pub respond_error : ℕ → String → String → Handled S A
  respond_error status code message s = (record { status = status; body = failure code message }, s)

  abbrev pub no_content : Handled S A
  no_content s = (record { status = 204; body = empty }, s)

module _ {ℓ} {S A B : Type ℓ} where
  -- `if err != nil { …; return }` after a call
  abbrev pub call : Action S B → (Error → Handled S A) → (B → Handled S A) → Handled S A
  call m otherwise k s = let (r, s') = m s in elim r [ ok b ↦ k b s' | err e ↦ otherwise e s' ]

  -- the same after a parse, which has no state
  abbrev pub parsed : Option B → Handled S A → (B → Handled S A) → Handled S A
  parsed none otherwise k = otherwise
  parsed (some b) otherwise k = k b

  pub call-ok :
      (m : Action S B) (otherwise : Error → Handled S A) (k : B → Handled S A) (s : S) {b : B}
      {s' : S}
      → m s ≡ (ok b, s')
      → call m otherwise k s ≡ k b s'
  call-ok m otherwise k s h =
      ap
        (λ (x : Result B × S).
          let y : Response A × S = elim x.0 [ ok b ↦ k b x.1 | err e ↦ otherwise e x.1 ] in y)
        h

  pub call-err :
      (m : Action S B) (otherwise : Error → Handled S A) (k : B → Handled S A) (s : S) {e : Error}
      {s' : S}
      → m s ≡ (err e, s')
      → call m otherwise k s ≡ otherwise e s'
  call-err m otherwise k s h =
      ap
        (λ (x : Result B × S).
          let y : Response A × S = elim x.0 [ ok b ↦ k b x.1 | err e ↦ otherwise e x.1 ] in y)
        h

  -- Answers that leave the state alone end where the call ended.
  pub call_state :
      (m : Action S B) (otherwise : Error → Handled S A) (k : B → Handled S A) (s : S)
      → ((e : Error) (t : S) → (otherwise e t).1 ≡ t)
      → ((b : B) (t : S) → (k b t).1 ≡ t)
      → (call m otherwise k s).1 ≡ (m s).1
  call_state m otherwise k s hf hk = go (m s)
    where
      go :
          (x : Result B × S)
          → (let y : Response A × S = elim x.0 [ ok b ↦ k b x.1 | err e ↦ otherwise e x.1 ] in
              y.1 ≡ x.1)
      go (ok b, t) = hk b t
      go (err e, t) = hf e t
