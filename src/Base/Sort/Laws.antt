-- ===== src/Base/Sort/Laws.antt =====
-- What `sort_by` gives: the same elements, in the order of their keys.
use ticketowl.Base.Sort.{insert_by, sort_by}
use ticketowl.Base.Int.{ℤ, leb_ℤ, ◌≤ℤ◌}
use ticketowl.Base.{All, List, ◌≡◌, ◌∷◌, false, true, [], Bool-cases, arith, inl, inr}
use mathlib.Core.List.Perm
use mathlib.Core.List.{Perm}

module _ {A : Type 0} (key : A → ℤ) where
  -- Each key is at most every later one.
  unfoldable pub IsSorted : List A → Type 0
  IsSorted [] = Unit
  IsSorted (x ∷ xs) = All (λ y. key x ≤ℤ key y) xs × IsSorted xs

  All-insert_by :
      (P : A → Type 0) (x : A) (ys : List A) → P x → All P ys → All P (insert_by key x ys)
  unfolding insert_by
  All-insert_by P x [] h k = (h, tt)
  All-insert_by P x (y ∷ ys) h (k, ks) = elim (Bool-cases (leb_ℤ (key x) (key y))) [
    | inl e ↦ rw e (h, (k, ks))
    | inr e ↦ rw e (k, All-insert_by P x ys h ks)
  ]

  All-later : (a b : ℤ) (ys : List A) → a ≤ℤ b → All (λ y. b ≤ℤ key y) ys → All (λ y. a ≤ℤ key y) ys
  All-later a b [] h k = tt
  All-later a b (y ∷ ys) h (k, ks) = (omega (arith, h, k), All-later a b ys h ks)

  not_before : (a b : ℤ) → leb_ℤ a b ≡ false → b ≤ℤ a
  not_before a b h = ground (arith, h)

  is_before : (a b : ℤ) → leb_ℤ a b ≡ true → a ≤ℤ b
  is_before a b h = ground (arith, h)

  insert_by-IsSorted : (x : A) (ys : List A) → IsSorted ys → IsSorted (insert_by key x ys)
  unfolding insert_by IsSorted
  insert_by-IsSorted x [] h = (tt, tt)
  insert_by-IsSorted x (y ∷ ys) (h, hs) = elim (Bool-cases (leb_ℤ (key x) (key y))) [
    | inl e ↦
        let before = is_before (key x) (key y) e in
        rw e ((before, All-later (key x) (key y) ys before h), (h, hs))
    | inr e ↦ rw e (
      All-insert_by (λ z. key y ≤ℤ key z) x ys (not_before (key x) (key y) e) h,
      insert_by-IsSorted x ys hs,
    )
  ]

  pub sort_by-IsSorted : (xs : List A) → IsSorted (sort_by key xs)
  unfolding sort_by IsSorted
  sort_by-IsSorted [] = tt
  sort_by-IsSorted (x ∷ xs) = insert_by-IsSorted x (sort_by key xs) (sort_by-IsSorted xs)

  insert_by_perm : (x : A) (ys : List A) → Perm (insert_by key x ys) (x ∷ ys)
  unfolding insert_by
  insert_by_perm x [] = Perm.refl (x ∷ [])
  insert_by_perm x (y ∷ ys) = elim (Bool-cases (leb_ℤ (key x) (key y))) [
    | inl e ↦ rw e (Perm.refl (x ∷ y ∷ ys))
    | inr e ↦ rw e (Perm.trans (Perm.cons y (insert_by_perm x ys)) (Perm.swap x y ys))
  ]

  pub sort_by_perm : (xs : List A) → Perm (sort_by key xs) xs
  unfolding sort_by
  sort_by_perm [] = Perm.refl []
  sort_by_perm (x ∷ xs) =
      Perm.trans (insert_by_perm x (sort_by key xs)) (Perm.cons x (sort_by_perm xs))
