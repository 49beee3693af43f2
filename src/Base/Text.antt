-- ===== src/Base/Text.antt =====
-- The functions of Go's package strings that the code calls, on texts as lists of characters.
use Prim.Native.Nat.{ℕ, zero, suc, ◌-◌}
use Prim.Native.Char.{Char, code}
use Prim.Native.String.{String}
use mathlib.Core.Bool.{Bool, true, false, ◌&&◌}
use mathlib.Core.List.{List, [], ◌∷◌, append_cancel_left, append_cancel_right}
use ticketowl.Base.Tests.{◌==◌, if◌then◌else◌}
use ticketowl.Base.{◌/◌, ◌≡◌, ◌%◌, ltb, refl, ◌++◌, arith, ap, ◌∙◌, sym}

-- The characters of a text.
abbrev pub chars : String → List Char
chars String.[] = []
chars (String.◌∷◌ c s) = c ∷ chars s

abbrev pub codes : String → List ℕ
codes String.[] = []
codes (String.◌∷◌ c s) = code c ∷ codes s

infixr 67 ◌^^◌
abbrev pub ◌^^◌ : String → String → String
String.[] ^^ t = t
(String.◌∷◌ c s) ^^ t = String.◌∷◌ c (s ^^ t)

-- `strings.HasPrefix(s, p)`, on characters.
unfoldable pub has_prefix : String → String → Bool
has_prefix s String.[] = true
has_prefix String.[] (String.◌∷◌ d p) = false
has_prefix (String.◌∷◌ c s) (String.◌∷◌ d p) = (code c == code d) && has_prefix s p

-- `strings.HasSuffix(s, x)` for a text `x` of one character.
unfoldable pub ends_with : ℕ → String → Bool
ends_with x String.[] = false
ends_with x (String.◌∷◌ c String.[]) = code c == x
ends_with x (String.◌∷◌ c (String.◌∷◌ d s)) = ends_with x (String.◌∷◌ d s)

abbrev count : String → ℕ
count String.[] = 0
count (String.◌∷◌ c s) = suc (count s)

-- `skip` characters belong to an occurrence that has been replaced.
replace_from : String → String → ℕ → String → String
replace_from old new skip String.[] = String.[]
replace_from old new (suc skip) (String.◌∷◌ c s) = replace_from old new skip s
replace_from old new zero (String.◌∷◌ c s) =
    let hit = new ^^ replace_from old new (count old - 1) s in
    let miss = String.◌∷◌ c (replace_from old new zero s) in
    if has_prefix (String.◌∷◌ c s) old then hit else miss

-- `strings.ReplaceAll(s, old, new)` for a text `old` that is not empty.
unfoldable pub replace_all : String → String → String → String
unfolding replace_from has_prefix
replace_all s old new = replace_from old new zero s

digit : ℕ → String
digit n =
    if n == 0
    then "0"
    else if n == 1
    then "1"
    else if n == 2
    then "2"
    else if n == 3
    then "3"
    else if n == 4
    then "4"
    else if n == 5
    then "5"
    else if n == 6
    then "6"
    else if n == 7
    then "7"
    else if n == 8
    then "8"
    else "9"

-- one digit for each unit of fuel
itoa_fuel : ℕ → ℕ → String
itoa_fuel zero n = ""
itoa_fuel (suc f) n =
    let more = itoa_fuel f (n / 10) ^^ digit (n % 10) in if ltb n 10 then digit n else more

-- `strconv.Itoa` of a number that is not negative; a number has fewer digits than its successor.
unfoldable pub itoa : ℕ → String
unfolding itoa_fuel digit
itoa n = itoa_fuel (suc n) n

pub has_prefix_sound :
    (s p : String) → has_prefix s p ≡ true → (rest : List ℕ) × (codes s ≡ codes p ++ rest)
unfolding has_prefix
has_prefix_sound s String.[] h = (codes s, refl)
has_prefix_sound String.[] (String.◌∷◌ d p) h = cc
has_prefix_sound (String.◌∷◌ c s) (String.◌∷◌ d p) h =
    let (rest, e) = has_prefix_sound s p (ground (arith, h)) in (rest, ground (arith, h, e))

pub has_prefix_of :
    (s p : String) (rest : List ℕ) → codes s ≡ codes p ++ rest → has_prefix s p ≡ true
unfolding has_prefix
has_prefix_of s String.[] rest h = refl
has_prefix_of String.[] (String.◌∷◌ d p) rest h = cc
has_prefix_of (String.◌∷◌ c s) (String.◌∷◌ d p) rest h = ground (arith, has_prefix_of s p rest, h)

abbrev of_chars : List Char → String
of_chars [] = String.[]
of_chars (c ∷ cs) = String.◌∷◌ c (of_chars cs)

of_chars-chars : (s : String) → of_chars (chars s) ≡ s
of_chars-chars String.[] = refl
of_chars-chars (String.◌∷◌ c s) = ap (String.◌∷◌ c) (of_chars-chars s)

chars-append : (s t : String) → chars (s ^^ t) ≡ chars s ++ chars t
chars-append String.[] t = refl
chars-append (String.◌∷◌ c s) t = ap (λ l. c ∷ l) (chars-append s t)

-- Texts that are equal with the same text before them and the same text behind them are equal.
pub cancel_around : (p s : String) {a b : String} → p ^^ a ^^ s ≡ p ^^ b ^^ s → a ≡ b
cancel_around p s {a} {b} h =
    let spread =
      λ (x : String). chars-append p (x ^^ s) ∙ ap (λ l. chars p ++ l) (chars-append x s) in
    let same = sym (spread a) ∙ ap chars h ∙ spread b in
    let inner = append_cancel_right _ _ (chars s) (append_cancel_left (chars p) _ _ same) in
    sym (of_chars-chars a) ∙ ap of_chars inner ∙ of_chars-chars b

test-itoa : (itoa 0 ≡ "0") × (itoa 407 ≡ "407")
unfolding itoa
test-itoa = (refl, refl)

test-replace_all : replace_all "{{.A}}: x{{.A}}" "{{.A}}" "db" ≡ "db: xdb"
unfolding replace_all
test-replace_all = refl
