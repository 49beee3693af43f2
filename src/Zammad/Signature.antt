-- ===== src/Zammad/Signature.antt =====
-- internal/zammad/webhook.go: the signature of a webhook. `hmac secret body` is the HMAC-SHA1 in
-- hexadecimal digits, computed by Go's crypto packages.
use Prim.Native.Char.{Char, code}
use text.Mathlib.TextEquality.{Char-path}
use ticketowl.Base.Text.{◌^^◌}
use ticketowl.Base.{
  String, Option, Result, ◌≡◌, some, none, ok, if◌then◌else◌, err, arith, ◌↔◌, invalid, refl, not,
  str_eq, mismatch, ◌==◌, Bool-cases, Option-cases, eq_iff, ap, true, inl, ◌∙◌, inr, sym,
}

abbrev scheme : String
scheme = "sha1="

-- what follows a prefix, if the text has it
abbrev pub strip : String → String → Option String
strip String.[] s = some s
strip (String.◌∷◌ d p) String.[] = none
strip (String.◌∷◌ d p) (String.◌∷◌ c s) =
    let rest = strip p s in if code c == code d then rest else none

module _ (hmac : String → String → String) where
  unfoldable pub validate_webhook_signature : String → String → String → Result (Unit {0})
  validate_webhook_signature body secret signature = elim (strip scheme signature) [
    | none ↦ err invalid
    | some expected ↦ if not (str_eq (hmac secret body) expected) then err mismatch else ok tt
  ]

  unfoldable pub compute_webhook_signature : String → String → String
  compute_webhook_signature body secret = scheme ^^ hmac secret body

code_sound : (c d : Char) → (code c == code d) ≡ true → c ≡ d
code_sound c d h = Char-path c d (ground (arith, h))

strip_sound : (p s : String) {rest : String} → strip p s ≡ some rest → s ≡ p ^^ rest
strip_sound String.[] s h = ground (arith, h)
strip_sound (String.◌∷◌ d p) String.[] h = cc
strip_sound (String.◌∷◌ d p) (String.◌∷◌ c s) {rest} h = elim (Bool-cases (code c == code d)) [
  | inl k ↦ cc (code_sound c d k, strip_sound p s (rw k at h))
  | inr k ↦ ground (arith, k, h)
]

accepted_sound :
    (hmac : String → String → String) (body secret signature : String)
    → validate_webhook_signature hmac body secret signature ≡ ok tt
    → signature ≡ compute_webhook_signature hmac body secret
unfolding validate_webhook_signature compute_webhook_signature
accepted_sound hmac body secret signature h = elim (Option-cases (strip scheme signature)) [
  | inl n ↦ ground (arith, n, h)
  | inr (rest, e) ↦ elim (Bool-cases (str_eq (hmac secret body) rest)) [
    | inl k ↦
        strip_sound scheme signature e
        ∙ ap (λ x. scheme ^^ x) (sym ((eq_iff (hmac secret body) rest).0 k))
    | inr k ↦ ground (arith, e, k, h)
  ]
]

computed_accepted :
    (hmac : String → String → String) (body secret : String)
    → validate_webhook_signature hmac body secret (compute_webhook_signature hmac body secret)
      ≡ ok tt
unfolding validate_webhook_signature compute_webhook_signature
computed_accepted hmac body secret = rw ((eq_iff (hmac secret body) (hmac secret body)).1 refl) refl

-- A signature is accepted exactly if it is the one that `ComputeWebhookSignature` gives for the body
-- and the secret.
pub validate_iff_compute :
    (hmac : String → String → String) (body secret signature : String)
    → (validate_webhook_signature hmac body secret signature ≡ ok tt)
      ↔ (signature ≡ compute_webhook_signature hmac body secret)
validate_iff_compute hmac body secret signature = (
  accepted_sound hmac body secret signature,
  λ e. ap (validate_webhook_signature hmac body secret) e ∙ computed_accepted hmac body secret,
)
