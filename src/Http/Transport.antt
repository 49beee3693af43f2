-- ===== src/Http/Transport.antt =====
-- `get`, `post`, `put` and `delete` of the REST clients, and the decoding of what they return. `get path`
-- and so on stand for the calls of `Client.do` on a base address and a key.
use ticketowl.Base.{
  String, List, [], ◌∷◌, Option, Action, ◌>>=◌, or_raise, failed, ℕ, if◌then◌else◌, ltb, str_eq,
}
use ticketowl.Base.Text.{◌^^◌, itoa}

pub record Transport (S : Type 0) : Type 0 where
  pub get : String → Action S String
  pub post : String → String → Action S String
  pub put : String → String → Action S String
  pub delete : String → Action S (Unit {0})

-- `json.Unmarshal` on the body of the answer
abbrev pub decoded : {S A : Type 0} → (String → Option A) → Action S String → Action S A
decoded decode m = m >>= λ text. or_raise (decode text) failed

abbrev pub join : String → List String → String
join sep [] = ""
join sep (x ∷ []) = x
join sep (x ∷ y ∷ xs) = x ^^ sep ^^ join sep (y ∷ xs)

-- `url.Values.Encode` on one value for a key, with the keys in their order
abbrev pub encode_values : (String → String) → List (String × String) → String
encode_values escape [] = ""
encode_values escape ((k, v) ∷ []) = escape k ^^ "=" ^^ escape v
encode_values escape ((k, v) ∷ p ∷ ps) =
    escape k ^^ "=" ^^ escape v ^^ "&" ^^ encode_values escape (p ∷ ps)

-- a parameter of a query that is set when it is positive, or not empty
abbrev pub positive : String → ℕ → List (String × String)
positive key n = if ltb 0 n then (key, itoa n) ∷ [] else []

abbrev pub filled : String → String → List (String × String)
filled key text = if str_eq text "" then [] else (key, text) ∷ []
