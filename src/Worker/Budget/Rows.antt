-- ===== src/Worker/Budget/Rows.antt =====
-- internal/worker: the rows of sla_states that still may ask for an alert, under the upsert of a row.
use ticketowl.Base.{
  ℕ, List, ◌≡◌, ◌==◌, if◌then◌else◌, ◌∷◌, find?, true, false, Bool-cases, ap, All, any, is_some,
  ◌+◌, some, ◌∙◌, inr, sym, inl, [], some_inj, arith, refl,
}
use ticketowl.Base.Unique.{Unique, Unique-upsert, All-upsert}
use ticketowl.Base.Table.{upsert, upserted, find?-upsert_self, find?-upsert_other}
use ticketowl.Sla.Store.{of_ticket, keep_id}
use ticketowl.Sla.Types.{State, Uuid}
use ticketowl.Db.{fits_int4}
use ticketowl.Db.Keys.{same_state}
use ticketowl.Db.Keys.Owners.{states_sym}
use ticketowl.Worker.Handler.Queries.{eq_self, eq_sound}

abbrev pub cost : State → ℕ
cost s = if is_some s.first_breach_alerted_at then 0 else 1

-- what the ticket with the id `k` has to spend on the row
abbrev pub share : Uuid → State → ℕ
share k s = if s.ticket_meta_id == k then cost s else 0

-- how many rows of the ticket were not alerted
abbrev pub unalerted : Uuid → List State → ℕ
unalerted k [] = 0
unalerted k (s ∷ rows) = share k s + unalerted k rows

abbrev pub written : State → List State → List State
written s rows = upsert (of_ticket s.ticket_meta_id) (keep_id s) s rows

-- The row of the ticket was alerted exactly if `s` was.
abbrev pub Agrees : List State → State → Type 0
Agrees rows s = (x : State) × (find? (of_ticket s.ticket_meta_id) rows ≡ some x) × (cost x ≡ cost s)

abbrev pub Fits : State → Type 0
Fits s = fits_int4 s.accumulated_pause_secs ≡ true

pub unalerted-written :
    (k : Uuid) (s x : State) (rows : List State)
    → find? (of_ticket s.ticket_meta_id) rows ≡ some x
    → unalerted k (written s rows) + share k x ≡ unalerted k rows + share k s
unfolding upsert
unalerted-written k s x [] h = cc
unalerted-written k s x (y ∷ rows) h = elim (Bool-cases (of_ticket s.ticket_meta_id y)) [
  | inl same ↦ let e = ap (share k) (some_inj (rw same at h)) in rw same (omega (arith, e))
  | inr other ↦ rw other (omega (arith, unalerted-written k s x rows (rw other at h)))
]

-- rows of one ticket cost the same to it if they cost the same
pub share_same :
    (k : Uuid) (s x : State)
    → of_ticket s.ticket_meta_id x ≡ true
    → cost x ≡ cost s
    → share k x ≡ share k s
share_same k s x own same =
    let key = eq_sound x.ticket_meta_id s.ticket_meta_id own in
    ap (λ i. if i == k then cost x else 0) key
    ∙ ap (λ c. if s.ticket_meta_id == k then c else 0) same

other_key :
    (s t x : State)
    → (s.ticket_meta_id == t.ticket_meta_id) ≡ false
    → of_ticket s.ticket_meta_id x ≡ true
    → of_ticket t.ticket_meta_id x ≡ false
other_key s t x apart same =
    ap (λ i. i == t.ticket_meta_id) (eq_sound x.ticket_meta_id s.ticket_meta_id same) ∙ apart

pub Agrees-other :
    (s t : State) (rows : List State)
    → (s.ticket_meta_id == t.ticket_meta_id) ≡ false
    → Agrees rows t
    → Agrees (written s rows) t
Agrees-other s t rows apart (x, found, same) = (
  x,
  find?-upsert_other (of_ticket s.ticket_meta_id) (keep_id s) s (of_ticket t.ticket_meta_id) apart
        (λ y. other_key s t y apart) (λ y k. apart) rows
      ∙ found,
  same,
)

-- A write that says of its row what the table says keeps what others say.
pub Agrees-written :
    (s t : State) (rows : List State) → Agrees rows s → Agrees rows t → Agrees (written s rows) t
Agrees-written s t rows (x, found, says) (y, got, same) =
    elim (Bool-cases (s.ticket_meta_id == t.ticket_meta_id)) [
      | inr apart ↦ Agrees-other s t rows apart (y, got, same)
      | inl own ↦
          let key = eq_sound s.ticket_meta_id t.ticket_meta_id own in
          let again = sym found ∙ ap (λ i. find? (of_ticket i) rows) key ∙ got in
          let kept =
            find?-upsert_self (of_ticket s.ticket_meta_id) (keep_id s) s (eq_self s.ticket_meta_id)
              (λ z h. eq_self s.ticket_meta_id) rows in
          (
            upserted (keep_id s) s (some x),
            ap (λ i. find? (of_ticket i) (written s rows)) (sym key)
                ∙ kept
                ∙ ap (λ r. some (upserted (keep_id s) s r)) found,
            sym says ∙ ap cost (some_inj again) ∙ same,
          )
    ]

pub Unique-written :
    (s : State) (rows : List State) → Unique same_state rows → Unique same_state (written s rows)
Unique-written s rows =
    Unique-upsert same_state states_sym (keep_id s) s
      (λ x same.
        ap (λ id y. of_ticket id y) (sym (eq_sound x.ticket_meta_id s.ticket_meta_id same)))
      rows

pub Fits-written :
    (s : State) (rows : List State) → Fits s → All Fits rows → All Fits (written s rows)
Fits-written s rows fit =
    All-upsert Fits (of_ticket s.ticket_meta_id) (keep_id s) s fit (λ x k. fit) rows

-- with unique keys, every row is the one that is found for its ticket
Agrees-later :
    (x : State) (rows xs : List State)
    → any (same_state x) xs ≡ false
    → All (Agrees rows) xs
    → All (Agrees (x ∷ rows)) xs
Agrees-later x rows [] h all = tt
Agrees-later x rows (y ∷ xs) h ((z, found, same), all) = elim (Bool-cases (same_state x y)) [
  | inl k ↦ ground (arith, k, h)
  | inr k ↦ ((z, rw (states_sym y x ∙ k) found, same), Agrees-later x rows xs (rw k at h) all)
]

pub Agrees-All : (rows : List State) → Unique same_state rows → All (Agrees rows) rows
Agrees-All [] unique = tt
Agrees-All (x ∷ rows) (alone, unique) = (
  (x, rw (eq_self x.ticket_meta_id) refl, refl),
  Agrees-later x rows rows alone (Agrees-All rows unique),
)
