-- ===== src/Db/Keys/Numbers.antt =====
-- The numbers of the tickets under internal/ticket's upsert.
use ticketowl.Base.{
  String, ℕ, str_eq, ◌≡◌, List, Bool, Bool-cases, any, false, inl, ◌∷◌, arith, ap, [], inr, ◌∙◌,
  refl, sym, eq_iff,
}
use ticketowl.Base.Table.{upsert}
use ticketowl.Base.Unique.{Unique}
use ticketowl.Ticket.Store.{has_number, number_taken}
use ticketowl.Sla.Store.{has_zammad_id}
use ticketowl.Db.Keys.{same_ticket, same_number}
use ticketowl.Ticket.Types.{Meta}
use ticketowl.Worker.Handler.Queries.{eq_sound}

str_eq_comm : (a b : String) → str_eq a b ≡ str_eq b a
str_eq_comm a b = elim (Bool-cases (str_eq a b)) [
  | inl h ↦ h ∙ sym ((eq_iff b a).1 (sym ((eq_iff a b).0 h)))
  | inr h ↦ elim (Bool-cases (str_eq b a)) [
    | inl k ↦ h ∙ sym (ground (arith, h, (eq_iff a b).1 (sym ((eq_iff b a).0 k))))
    | inr k ↦ h ∙ sym k
  ]
]

pub numbers_sym : (x y : Meta) → same_number x y ≡ same_number y x
numbers_sym x y = str_eq_comm y.zammad_number x.zammad_number

-- the tickets with another id do not have the number
free_elsewhere :
    (n : ℕ) (number : String) (xs : List Meta)
    → any (number_taken n number) xs ≡ false
    → any (has_zammad_id n) xs ≡ false
    → any (has_number number) xs ≡ false
free_elsewhere n number [] h k = refl
free_elsewhere n number (x ∷ xs) h k = ground (arith, h, k, free_elsewhere n number xs)

any-upsert_new :
    (p same : Meta → Bool) (merge : Meta → Meta) (fresh : Meta)
    → ((x : Meta) → p (merge x) ≡ false)
    → p fresh ≡ false
    → (xs : List Meta) → any p xs ≡ false
    → any p (upsert same merge fresh xs) ≡ false
unfolding upsert
any-upsert_new p same merge fresh merged new [] h = rw new
any-upsert_new p same merge fresh merged new (x ∷ xs) h = elim (Bool-cases (same x)) [
  | inl k ↦ rw k (ground (arith, merged x, h))
  | inr k ↦ rw k (ground (arith, any-upsert_new p same merge fresh merged new xs, h))
]

module _ (n : ℕ) (number : String) (merge : Meta → Meta) (fresh : Meta) where
  pub numbers-upsert :
      fresh.zammad_id ≡ n
      → fresh.zammad_number ≡ number
      → ((x : Meta) → (merge x).zammad_number ≡ number)
      → (xs : List Meta) → any (number_taken n number) xs ≡ false
      → Unique same_ticket xs
      → Unique same_number xs
      → Unique same_number (upsert (has_zammad_id n) merge fresh xs)
  unfolding upsert
  numbers-upsert e f m [] free ids numbers = (refl, tt)
  numbers-upsert e f m (x ∷ xs) free (alone, ids) (other, numbers) =
      elim (Bool-cases (has_zammad_id n x)) [
        | inl h ↦ rw h (
          ap (λ t. any (has_number t) xs) (m x)
              ∙ free_elsewhere n number xs (ground (arith, h, free))
                  (ap (λ k. any (has_zammad_id k) xs) (sym (eq_sound x.zammad_id n h)) ∙ alone),
          numbers,
        )
        | inr h ↦ elim (Bool-cases (has_number number x)) [
          | inl k ↦ ground (arith, h, k, free)
          | inr k ↦
              let apart = str_eq_comm number x.zammad_number ∙ k in
              rw h (
                any-upsert_new (same_number x) (has_zammad_id n) merge fresh
                    (λ y. ap (λ t. str_eq t x.zammad_number) (m y) ∙ apart)
                    (ap (λ t. str_eq t x.zammad_number) f ∙ apart) xs other,
                numbers-upsert e f m xs (ground (arith, h, k, free)) ids numbers,
              )
        ]
      ]
