-- ===== src/Base/Outcome.antt =====
-- Go's `(value, error)` results and the calls that may change a state. What was written before an
-- error stays written, so the state comes back beside the error too.
use mathlib.Core.Path.{◌≡◌, refl}
use mathlib.Core.Bool.{Bool, true, false}
use mathlib.Core.Option.{Option, none, some}
use Prim.Native.Nat.{ℕ}
use Prim.Native.String.{String}
use mathlib.Core.Path.{ap, ◌∙◌}
use mathlib.Core.Logic.{◌⊎◌, inl, inr}

-- The errors that the code tells apart by `errors.Is` and `errors.As`; wrapping by `%w` keeps the
-- error, so the text that a wrapper adds is left out. `failed` stands for every other error, and
-- `panicked` for a nil dereference.
pub data Error : Type 0 where
  no_rows forbidden not_configured mismatch invalid failed panicked : Error
  exists : String → Error
  api : ℕ → Error

pub data Result {ℓ} (A : Type ℓ) : Type ℓ where
  ok : A → Result A
  err : Error → Result A

-- A call against a store or a remote service with state `S`.
abbrev pub Action {ℓ} : Type ℓ → Type ℓ → Type ℓ
Action S A = S → Result A × S

abbrev pub is_ok {ℓ} : {A : Type ℓ} → Result A → Bool
is_ok (ok _) = true
is_ok (err _) = false

-- `errors.Is(err, pgx.ErrNoRows)`
abbrev pub is_no_rows : Error → Bool
is_no_rows no_rows = true
is_no_rows _ = false

module _ {ℓ} {S A : Type ℓ} where
  abbrev pub pure : A → Action S A
  pure a s = (ok a, s)

  abbrev pub raise : Error → Action S A
  raise e s = (err e, s)

  -- The outcome of a call as a value, for the code that inspects `err` and goes on.
  abbrev pub attempt : Action S A → Action S (Result A)
  attempt m s = let (r, s') = m s in (ok r, s')

  -- A call whose error is only logged.
  abbrev pub ignore : Action S A → Action S (Unit {ℓ})
  ignore m s = (ok tt, (m s).1)

  abbrev pub or_raise : Option A → Error → Action S A
  or_raise none e = raise e
  or_raise (some a) _ = pure a

  abbrev pub lift : Result A → Action S A
  lift r s = (r, s)

infixl 5 ◌>>=◌ ◌>>◌
abbrev pub ◌>>=◌ {ℓ} : {S A B : Type ℓ} → Action S A → (A → Action S B) → Action S B
◌>>=◌ m f s = let (r, s') = m s in elim r [ ok a ↦ f a s' | err e ↦ (err e, s') ]

abbrev pub ◌>>◌ {ℓ} : {S A B : Type ℓ} → Action S A → Action S B → Action S B
m >> k = m >>= λ _. k

-- Inversion of a successful sequence, for proofs where the parts stay shut.
pub >>=-eq-ok {ℓ} :
    {S A B : Type ℓ} (m : Action S A) (f : A → Action S B) (s : S) {b : B}
    → ((m >>= f) s).0 ≡ ok b
    → (a : A) × ((m s).0 ≡ ok a) × ((f a (m s).1).0 ≡ ok b)
>>=-eq-ok {S} {A} {B} m f s {b} h = go (m s).0 (m s).1 refl h
  where
    go :
        (r : Result A) (s' : S)
        → (m s).0 ≡ r
        → (let x : Result B × S = elim r [ ok a ↦ f a s' | err e ↦ (err e, s') ] in x.0 ≡ ok b)
        → (a : A) × ((m s).0 ≡ ok a) × ((f a s').0 ≡ ok b)
    go (ok a) s' e k = (a, e, k)
    go (err x) s' e k = cc

module _ {ℓ} {S A B : Type ℓ} (m : Action S A) (f : A → Action S B) where
  resume_with : Result A × S → Result B × S
  resume_with (r, s) = elim r [ ok a ↦ f a s | err e ↦ (err e, s) ]

  pub >>=-ok : (s : S) {a : A} {s' : S} → m s ≡ (ok a, s') → (m >>= f) s ≡ f a s'
  unfolding resume_with
  >>=-ok s h = ap resume_with h

  pub >>=-err : (s : S) {e : Error} {s' : S} → m s ≡ (err e, s') → (m >>= f) s ≡ (err e, s')
  unfolding resume_with
  >>=-err s h = ap resume_with h

  -- A sequence that succeeds went through a first call that succeeded.
  pub >>=-inv :
      (s : S) {b : B}
      → ((m >>= f) s).0 ≡ ok b
      → (a : A) × (m s ≡ (ok a, (m s).1)) × ((m >>= f) s ≡ f a (m s).1)
  unfolding resume_with
  >>=-inv s {b} h = go (m s) h
    where
      go :
          (x : Result A × S)
          → (resume_with x).0 ≡ ok b
          → (a : A) × (x ≡ (ok a, x.1)) × (resume_with x ≡ f a x.1)
      go (ok a, s') k = (a, refl, refl)
      go (err e, s') k = cc

  -- What is observed after the first call is observed after both, if the second leaves it.
  pub >>=-same :
      {O : Type ℓ} (o : S → O) (s : S) {v : O}
      → o (m s).1 ≡ v
      → ((a : A) → (m s).0 ≡ ok a → o (f a (m s).1).1 ≡ o (m s).1)
      → o ((m >>= f) s).1 ≡ v
  unfolding resume_with
  >>=-same {O} o s {v} h k = go (m s) h k
    where
      go :
          (x : Result A × S)
          → o x.1 ≡ v
          → ((a : A) → x.0 ≡ ok a → o (f a x.1).1 ≡ o x.1)
          → o (resume_with x).1 ≡ v
      go (ok a, s') e next = next a refl ∙ e
      go (err x, s') e next = e

pub Result-cases {ℓ} :
    {A : Type ℓ} (r : Result A) → ((a : A) × (r ≡ ok a)) ⊎ ((e : Error) × (r ≡ err e))
Result-cases (ok a) = inl (a, refl)
Result-cases (err e) = inr (e, refl)

pub ok_inj {ℓ} : {A : Type ℓ} {a b : A} → ok a ≡ ok b → a ≡ b
ok_inj h = cc

pub some_inj {ℓ} : {A : Type ℓ} {a b : A} → some a ≡ some b → a ≡ b
some_inj h = cc

pub attempt_ran {ℓ} :
    {S A : Type ℓ} (m : Action S A) (s : S) {r : Result A} {s' : S}
    → m s ≡ (r, s')
    → attempt m s ≡ (ok r, s')
attempt_ran m s h = ap (λ x. (ok x.0, x.1)) h
