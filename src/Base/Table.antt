-- ===== src/Base/Table.antt =====
-- The rows of a table: insert-or-update on a unique key, update and delete by a test.
use ticketowl.Base.Tests.{if◌then◌else◌, Bool-cases}
use ticketowl.Base.Lists.{find?, filter, any}
use mathlib.Core.Path.{◌≡◌, refl}
use mathlib.Core.Logic.{inl, inr}
use mathlib.Core.Bool.{Bool, true, false, not}
use mathlib.Core.Option.{Option, none, some}
use mathlib.Core.List.{List, [], ◌∷◌}
use native.Mathlib.Omega.{arith}
use ticketowl.Base.{ap, ◌++◌}

module _ {ℓ} {A : Type ℓ} where
  -- INSERT … ON CONFLICT DO UPDATE: `same` finds the row with the key of `fresh`.
  unfoldable pub upsert : (A → Bool) → (A → A) → A → List A → List A
  upsert same merge fresh [] = fresh ∷ []
  upsert same merge fresh (x ∷ xs) = if same x then merge x ∷ xs else x ∷ upsert same merge fresh xs

  -- UPDATE … WHERE
  unfoldable pub update : (A → Bool) → (A → A) → List A → List A
  update p f [] = []
  update p f (x ∷ xs) = (if p x then f x else x) ∷ update p f xs

  -- DELETE … WHERE
  abbrev pub delete : (A → Bool) → List A → List A
  delete p = filter (λ x. not (p x))

  -- The row that an upsert leaves under its key.
  abbrev pub upserted : (A → A) → A → Option A → A
  upserted merge fresh none = fresh
  upserted merge fresh (some x) = merge x

module _ {ℓ} {A : Type ℓ} (same : A → Bool) (merge : A → A) (fresh : A) where
  pub find?-upsert_self :
      same fresh ≡ true
      → ((x : A) → same x ≡ true → same (merge x) ≡ true)
      → (xs : List A)
      → find? same (upsert same merge fresh xs) ≡ some (upserted merge fresh (find? same xs))
  unfolding upsert
  find?-upsert_self key kept [] = rw key
  find?-upsert_self key kept (x ∷ xs) = elim (Bool-cases (same x)) [
    | inl h ↦ rw h (rw (kept x h))
    | inr h ↦ rw h (rw h (find?-upsert_self key kept xs))
  ]

  -- A search that neither the row nor its update answers goes as before.
  pub find?-upsert_other :
      (q : A → Bool)
      → q fresh ≡ false
      → ((x : A) → same x ≡ true → q x ≡ false)
      → ((x : A) → same x ≡ true → q (merge x) ≡ false)
      → (xs : List A) → find? q (upsert same merge fresh xs) ≡ find? q xs
  unfolding upsert
  find?-upsert_other q new old merged [] = rw new
  find?-upsert_other q new old merged (x ∷ xs) = elim (Bool-cases (same x)) [
    | inl h ↦ rw h (rw (merged x h, old x h))
    | inr h ↦
        rw h (
          ap (λ (r : Option A). if q x then some x else r) (find?-upsert_other q new old merged xs))
  ]

module _ {ℓ} {A : Type ℓ} where
  -- Nothing is found by a test that a delete has removed.
  pub find?-delete : (p : A → Bool) (xs : List A) → find? p (delete p xs) ≡ none
  find?-delete p [] = refl
  find?-delete p (x ∷ xs) = elim (Bool-cases (p x)) [
    | inl h ↦ rw h (find?-delete p xs)
    | inr h ↦ rw h (rw h (find?-delete p xs))
  ]

  pub any-find? : (p : A → Bool) (xs : List A) → any p xs ≡ false → find? p xs ≡ none
  any-find? p [] h = refl
  any-find? p (x ∷ xs) h = ground (arith, any-find? p xs)

  -- What a search finds passes its test.
  pub find?_sound : (p : A → Bool) (xs : List A) {a : A} → find? p xs ≡ some a → p a ≡ true
  find?_sound p [] h = cc
  find?_sound p (x ∷ xs) h = elim (Bool-cases (p x)) [
    | inl k ↦ ground (arith, k)
    | inr k ↦ find?_sound p xs (rw k at h)
  ]

  -- An upsert replaces the one row with its key where it stands.
  pub upsert-append :
      (same : A → Bool) (merge : A → A) (fresh : A) (ys : List A) (x : A) (xs : List A)
      → any same ys ≡ false
      → same x ≡ true
      → upsert same merge fresh (ys ++ x ∷ xs) ≡ ys ++ merge x ∷ xs
  unfolding upsert
  upsert-append same merge fresh [] x xs h k = rw k
  upsert-append same merge fresh (y ∷ ys) x xs h k =
      ground (arith, upsert-append same merge fresh ys x xs)
