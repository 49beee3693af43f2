-- ===== src/Base/Sort.antt =====
-- `ORDER BY` and `sort.Slice` on a time: insertion sort, where equal keys keep their order.
pub mod Laws
use ticketowl.Base.Int.{ℤ, leb_ℤ}
use ticketowl.Base.{List, ◌∷◌, if◌then◌else◌, []}

module _ {ℓ} {A : Type ℓ} (key : A → ℤ) where
  unfoldable pub insert_by : A → List A → List A
  insert_by x [] = x ∷ []
  insert_by x (y ∷ ys) =
      let rest = y ∷ insert_by x ys in if leb_ℤ (key x) (key y) then x ∷ y ∷ ys else rest

  unfoldable pub sort_by : List A → List A
  unfolding insert_by
  sort_by [] = []
  sort_by (x ∷ xs) = insert_by x (sort_by xs)
