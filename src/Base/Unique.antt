-- ===== src/Base/Unique.antt =====
-- Rows no two of which hold the same key, and references to rows of another table. `same x y` says
-- that `y` has the key of `x`.
use ticketowl.Base.{
  arith, Bool, List, ◌≡◌, any, false, ◌∷◌, filter, ◌++◌, [], true, Bool-cases, ◌∙◌, refl, inl, ap,
  inr, All,
}
use ticketowl.Base.Table.{upsert, update}

module _ {A : Type 0} (p : A → Bool) where
  -- a row more that does not pass
  any-append_false :
      (xs : List A) (x : A) → any p xs ≡ false → p x ≡ false → any p (xs ++ x ∷ []) ≡ false
  any-append_false [] x h k = rw k
  any-append_false (y ∷ ys) x h k = ground (arith, any-append_false ys x)

  any-filter-false : (q : A → Bool) (xs : List A) → any p xs ≡ false → any p (filter q xs) ≡ false
  any-filter-false q [] h = refl
  any-filter-false q (x ∷ xs) h = ground (arith, any-filter-false q xs)

  any-upsert_false :
      (same : A → Bool) (merge : A → A) (fresh : A)
      → ((x : A) → same x ≡ true → p (merge x) ≡ p x)
      → p fresh ≡ false
      → (xs : List A) → any p xs ≡ false
      → any p (upsert same merge fresh xs) ≡ false
  unfolding upsert
  any-upsert_false same merge fresh kept new [] h = rw new
  any-upsert_false same merge fresh kept new (x ∷ xs) h = elim (Bool-cases (same x)) [
    | inl k ↦ rw k (ground (arith, kept x k, h))
    | inr k ↦ rw k (ground (arith, any-upsert_false same merge fresh kept new xs, h))
  ]

  pub any-upsert_true :
      (same : A → Bool) (merge : A → A) (fresh : A)
      → ((x : A) → p (merge x) ≡ p x)
      → (xs : List A) → any p xs ≡ true
      → any p (upsert same merge fresh xs) ≡ true
  unfolding upsert
  any-upsert_true same merge fresh kept [] h = cc
  any-upsert_true same merge fresh kept (x ∷ xs) h =
      ground (arith, kept x, any-upsert_true same merge fresh kept xs)

  -- an update that keeps what the test reads
  pub any-update :
      (q : A → Bool) (f : A → A)
      → ((x : A) → p (f x) ≡ p x)
      → (xs : List A) → any p (update q f xs) ≡ any p xs
  unfolding update
  any-update q f kept [] = refl
  any-update q f kept (x ∷ xs) = elim (Bool-cases (q x)) [
    | inl h ↦ rw h (rw (kept x) (rw (any-update q f kept xs) refl))
    | inr h ↦ rw h (rw (any-update q f kept xs) refl)
  ]

module _ {A : Type 0} (same : A → A → Bool) where
  abbrev pub Unique : List A → Type 0
  Unique [] = Unit {0}
  Unique (x ∷ xs) = (any (same x) xs ≡ false) × Unique xs

  pub Unique-append :
      ((x y : A) → same x y ≡ same y x)
      → (xs : List A) (x : A) → any (same x) xs ≡ false
      → Unique xs
      → Unique (xs ++ x ∷ [])
  Unique-append sym [] x h u = (refl, tt)
  Unique-append sym (y ∷ ys) x h (fresh, u) = elim (Bool-cases (same x y)) [
    | inl k ↦ ground (arith, k, h)
    | inr k ↦
        (any-append_false (same y) ys x fresh (sym y x ∙ k), Unique-append sym ys x (rw k at h) u)
  ]

  pub Unique-filter : (q : A → Bool) (xs : List A) → Unique xs → Unique (filter q xs)
  Unique-filter q [] u = tt
  Unique-filter q (x ∷ xs) (fresh, u) = elim (Bool-cases (q x)) [
    | inl h ↦ rw h (any-filter-false (same x) q xs fresh, Unique-filter q xs u)
    | inr h ↦ rw h (Unique-filter q xs u)
  ]

  -- An upsert on the key of its row, whose update keeps the key.
  pub Unique-upsert :
      ((x y : A) → same x y ≡ same y x)
      → (merge : A → A) (fresh : A) → ((x : A) → same fresh x ≡ true → same (merge x) ≡ same x)
      → (xs : List A) → Unique xs
      → Unique (upsert (same fresh) merge fresh xs)
  unfolding upsert
  Unique-upsert sym merge fresh kept [] u = (refl, tt)
  Unique-upsert sym merge fresh kept (x ∷ xs) (alone, u) = elim (Bool-cases (same fresh x)) [
    | inl h ↦ rw h (ap (λ p. any p xs) (kept x h) ∙ alone, u)
    | inr h ↦ rw h (
      any-upsert_false (same x) (same fresh) merge fresh
          (λ y k. sym x (merge y) ∙ ap (λ p. p x) (kept y k) ∙ sym y x) (sym x fresh ∙ h) xs alone,
      Unique-upsert sym merge fresh kept xs u,
    )
  ]

  pub Unique-update :
      ((x y : A) → same x y ≡ same y x)
      → (q : A → Bool) (f : A → A) → ((x : A) → same (f x) ≡ same x)
      → (xs : List A) → Unique xs
      → Unique (update q f xs)
  unfolding update
  Unique-update sym q f kept [] u = tt
  Unique-update sym q f kept (x ∷ xs) (alone, u) =
      let rest =
        any-update (same x) q f (λ y. sym x (f y) ∙ ap (λ p. p x) (kept y) ∙ sym y x) xs ∙ alone in
      elim (Bool-cases (q x)) [
        | inl h ↦
            rw h (ap (λ p. any p (update q f xs)) (kept x) ∙ rest, Unique-update sym q f kept xs u)
        | inr h ↦ rw h (rest, Unique-update sym q f kept xs u)
      ]

module _ {A : Type 0} (P : A → Type 0) where
  pub All-kept : (q : A → Bool) (xs : List A) → All P xs → All P (filter q xs)
  All-kept q [] all = tt
  All-kept q (x ∷ xs) (h, all) = elim (Bool-cases (q x)) [
    | inl k ↦ rw k (h, All-kept q xs all)
    | inr k ↦ rw k (All-kept q xs all)
  ]

  pub All-upsert :
      (same : A → Bool) (merge : A → A) (fresh : A)
      → P fresh
      → ((x : A) → P x → P (merge x))
      → (xs : List A) → All P xs
      → All P (upsert same merge fresh xs)
  unfolding upsert
  All-upsert same merge fresh new step [] all = (new, tt)
  All-upsert same merge fresh new step (x ∷ xs) (h, all) = elim (Bool-cases (same x)) [
    | inl k ↦ rw k (step x h, all)
    | inr k ↦ rw k (h, All-upsert same merge fresh new step xs all)
  ]

pub All-map :
    {A : Type 0} (P Q : A → Type 0) → ((x : A) → P x → Q x) → (xs : List A) → All P xs → All Q xs
All-map P Q f [] all = tt
All-map P Q f (x ∷ xs) (h, all) = (f x h, All-map P Q f xs all)
