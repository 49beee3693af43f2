-- ===== src/Worker/Events/Order.antt =====
-- The entries of a stream that are newer than an id.
use ticketowl.Base.{
  ℕ, List, [], ◌∷◌, ◌++◌, Bool-cases, inl, inr, ◌<◌, ◌≡◌, refl, ltb, filter, All, arith, Bool, ap,
  ◌∙◌, sym,
}
use ticketowl.Worker.Events.{XMessage}

-- The ids grow.
abbrev pub IsStream : List XMessage → Type 0
IsStream [] = Unit {0}
IsStream (m ∷ ms) = All (λ (x : XMessage). m.id < x.id) ms × IsStream ms

abbrev pub is_newer : ℕ → XMessage → Bool
is_newer i m = ltb i m.id

abbrev pub newer : ℕ → List XMessage → List XMessage
newer i = filter (is_newer i)

abbrev pub last_id : ℕ → List XMessage → ℕ
last_id i [] = i
last_id i (m ∷ ms) = last_id m.id ms

newer_beyond :
    (i k : ℕ) (ms : List XMessage) → i < k → All (λ (x : XMessage). k < x.id) ms → newer i ms ≡ ms
newer_beyond i k [] lt h = refl
newer_beyond i k (m ∷ ms) lt h = ground (arith, newer_beyond i k ms lt h.1)

newer_same : (k : ℕ) (ms : List XMessage) → All (λ (x : XMessage). k < x.id) ms → newer k ms ≡ ms
newer_same k [] h = refl
newer_same k (m ∷ ms) h = ground (arith, newer_same k ms h.1)

newer_head :
    (i : ℕ) (log : List XMessage) {m : XMessage} {rest : List XMessage}
    → newer i log ≡ m ∷ rest
    → i < m.id
newer_head i [] h = cc
newer_head i (x ∷ xs) h = elim (Bool-cases (is_newer i x)) [
  | inl k ↦ ground (arith, rw k at h)
  | inr k ↦ newer_head i xs (rw k at h)
]

cons_head : {A : Type 0} {x y : A} {xs ys : List A} → x ∷ xs ≡ y ∷ ys → x ≡ y
cons_head e = cc

cons_tail : {A : Type 0} {x y : A} {xs ys : List A} → x ∷ xs ≡ y ∷ ys → xs ≡ ys
cons_tail e = cc

newer_own :
    (i : ℕ) (x : XMessage) (xs : List XMessage)
    → i < x.id
    → All (λ (y : XMessage). x.id < y.id) xs
    → newer x.id (x ∷ xs) ≡ newer i xs
newer_own i x xs lt h = ground (arith, newer_same x.id xs h, newer_beyond i x.id xs lt h)

-- One entry further.
newer_next :
    (i : ℕ) (log : List XMessage) {m : XMessage} {rest : List XMessage}
    → IsStream log
    → newer i log ≡ m ∷ rest
    → newer m.id log ≡ rest
newer_next i [] s h = cc
newer_next i (x ∷ xs) {m} {rest} s h = elim (Bool-cases (is_newer i x)) [
  | inl k ↦
      let e : x ∷ newer i xs ≡ m ∷ rest = rw k at h in
      ap (λ (y : XMessage). newer y.id (x ∷ xs)) (sym (cons_head e))
      ∙ newer_own i x xs (ground (arith, k)) s.0
      ∙ cons_tail e
  | inr k ↦
      let e : newer i xs ≡ m ∷ rest = rw k at h in
      let lt = newer_head i xs e in ground (arith, newer_next i xs s.1 e, k, lt)
]

-- After a batch the newer entries are those that follow it.
pub newer_batch :
    (i : ℕ) (log batch rest : List XMessage)
    → IsStream log
    → newer i log ≡ batch ++ rest
    → newer (last_id i batch) log ≡ rest
newer_batch i log [] rest s h = h
newer_batch i log (m ∷ batch) rest s h = newer_batch m.id log batch rest s (newer_next i log s h)
