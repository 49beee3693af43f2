-- ===== src/Ticket/Service/Laws.antt =====
-- internal/ticket/service.go: the tickets that are created and listed.
use ticketowl.Ticket.Types.{
  ListOptions, CreateRequest, EnrichedTicket, Meta, enrich_from_zammad, meta_id_of, policy_id_of,
}
use ticketowl.Ticket.Service.{
  TicketZammad, TicketStore, to_option, meta_of, enrich_all, or_no_rows, zammad_request, fetch,
  enrich_listed, list, after_retry, after_create_user, after_search, find_user, find_customer,
  customer_for, record_ticket, create_for, create, user_id,
}
use ticketowl.Sla.Store.{has_zammad_id}
use ticketowl.Worker.Handler.Queries.{eq_sound}
use ticketowl.Base.{
  ℕ, List, ◌≡◌, some, none, [], Option-cases, ◌∷◌, inl, ◌⊎◌, arith, inr, ◌∙◌, refl, ap, ok, String,
  ok_inj, ◌≢◌, map, Bool-cases, >>=-inv, Error, sym, ◌==◌, str_eq, false, err, panicked, ◌&&◌, not,
  true, >>=-ok, attempt, attempt_ran, >>=-err, ◌++◌, any, if◌then◌else◌, Result, some_inj, Option,
}
use ticketowl.Zammad.Types.{Ticket, User}

-- The last row of the ticket in what the store answered.
abbrev pub LastRow : ℕ → List Meta → Meta → Type 0
LastRow id metas m =
    (before : List Meta) × (after : List Meta) × (metas ≡ before ++ m ∷ after)
    × (m.zammad_id ≡ id)
    × (any (has_zammad_id id) after ≡ false)

meta_of-none :
    (id : ℕ) (metas : List Meta) → meta_of id metas ≡ none → any (has_zammad_id id) metas ≡ false
meta_of-none id [] h = refl
meta_of-none id (x ∷ metas) h = elim (Option-cases (meta_of id metas)) [
  | inl n ↦ ground (arith, n, h, meta_of-none id metas n)
  | inr (y, e) ↦ ground (arith, e, h)
]

meta_of-LastRow :
    (id : ℕ) (metas : List Meta) {m : Meta} → meta_of id metas ≡ some m → LastRow id metas m
meta_of-LastRow id [] h = cc
meta_of-LastRow id (x ∷ metas) {m} h = elim (Option-cases (meta_of id metas)) [
  | inr (y, e) ↦
      let (before, after, split, own, last) = meta_of-LastRow id metas (e ∙ (rw e at h)) in
      (x ∷ before, after, ap (λ l. x ∷ l) split, own, last)
  | inl n ↦
      let (same, own) = head_row id x (rw n at h) in
      (
        [],
        metas,
        ap (λ y. y ∷ metas) same,
        ap (λ (y : Meta). y.zammad_id) (sym same) ∙ own,
        meta_of-none id metas n,
      )
]
  where
    head_row :
        (id : ℕ) (x : Meta) {m : Meta}
        → (if x.zammad_id == id then some x else none) ≡ some m
        → (x ≡ m) × (x.zammad_id ≡ id)
    head_row id x k = elim (Bool-cases (x.zammad_id == id)) [
      | inl t ↦ (some_inj (rw t at k), eq_sound x.zammad_id id t)
      | inr t ↦ ground (arith, t, k)
    ]

-- what an enriched ticket says of the ticket
abbrev pub ticket_in : EnrichedTicket → Ticket
ticket_in e = record {
  id = e.id;
  number = e.number;
  title = e.title;
  state_id = e.state_id;
  state = e.state;
  priority_id = e.priority_id;
  priority = e.priority;
  group_id = e.group_id;
  group = e.group;
  owner_id = e.owner_id;
  owner = e.owner;
  customer_id = e.customer_id;
  organisation_id = e.organisation_id;
  tags = e.tags;
  created_at = e.created_at;
  updated_at = e.updated_at;
  close_at = e.close_at;
}

-- `e` shows the ticket `t` in every field, with the metadata of its last row among `metas`, or with none if there is
-- no row of the ticket.
pub record Shows (metas : List Meta) (t : Ticket) (e : EnrichedTicket) : Type 0 where
  pub ticket : ticket_in e ≡ t
  pub meta :
      ((any (has_zammad_id t.id) metas ≡ false) × (e.meta_id ≡ none))
      ⊎ ((m : Meta) × LastRow t.id metas m
          × (e.meta_id ≡ some m.id)
          × (e.sla_policy_id ≡ m.sla_policy_id))

pub data EachShown (metas : List Meta) : List Ticket → List EnrichedTicket → Type 0 where
  no_ticket : EachShown metas [] []
  ticket_shown :
      (t : Ticket) (e : EnrichedTicket) (ts : List Ticket) (es : List EnrichedTicket)
      → Shows metas t e
      → EachShown metas ts es
      → EachShown metas (t ∷ ts) (e ∷ es)

enriched-Shows :
    (metas : List Meta) (t : Ticket) → Shows metas t (enrich_from_zammad t (meta_of t.id metas))
unfolding enrich_from_zammad
enriched-Shows metas t = record {
  ticket = refl;
  meta = elim (Option-cases (meta_of t.id metas)) [
    | inl n ↦ inl (meta_of-none t.id metas n, ap meta_id_of n)
    | inr (m, e) ↦ inr (m, meta_of-LastRow t.id metas e, ap meta_id_of e, ap policy_id_of e)
  ];
}

enrich_all-EachShown :
    (metas : List Meta) (ts : List Ticket) → EachShown metas ts (enrich_all metas ts)
enrich_all-EachShown metas [] = no_ticket
enrich_all-EachShown metas (t ∷ ts) =
    ticket_shown t (enrich_from_zammad t (meta_of t.id metas)) ts (enrich_all metas ts)
      (enriched-Shows metas t) (enrich_all-EachShown metas ts)

module _ {S : Type 0} (zammad : TicketZammad S) (store : TicketStore S) where
  -- what the store answers about the tickets, or nothing if the query fails
  abbrev pub metas_for : List Ticket → S → List Meta
  metas_for ts s = or_no_rows (store.list_by_zammad_ids (map (λ (x : Ticket). x.id) ts) s).0

  -- If the tickets can be fetched, the list succeeds, also when the metadata query fails, and shows
  -- exactly these tickets, in their order, each with the metadata of the last row of the ticket that
  -- the store answered, or with none if there is no such row; if they cannot, it fails with the same
  -- error.
  pub list_shows_each :
      (opts : ListOptions) (s : S)
      → ((tickets : List Ticket) (s1 : S)
          → fetch zammad store opts s ≡ (ok tickets, s1)
          → (shown : List EnrichedTicket) × ((list zammad store opts s).0 ≡ ok shown)
            × EachShown (metas_for tickets s1) tickets shown)
        × ((failure : Error) (s1 : S)
            → fetch zammad store opts s ≡ (err failure, s1)
            → list zammad store opts s ≡ (err failure, s1))
  unfolding list
  list_shows_each opts s = (
    λ tickets s1 fetched.
        let shown = enrich_all (metas_for tickets s1) tickets in
        (
          shown,
          ap (λ x. x.0) (>>=-ok (fetch zammad store opts) (enrich_listed zammad store) s fetched)
              ∙ listed tickets s1,
          enrich_all-EachShown (metas_for tickets s1) tickets,
        ),
    λ failure s1 failed. >>=-err (fetch zammad store opts) (enrich_listed zammad store) s failed,
  )
    where
      listed :
          (ts : List Ticket) (s1 : S)
          → (enrich_listed zammad store ts s1).0 ≡ ok (enrich_all (metas_for ts s1) ts)
      listed [] s1 = refl
      listed (t ∷ ts) s1 = refl

  create_for-inv :
      (req : CreateRequest) (customer : ℕ) (s : S) {e : EnrichedTicket}
      → (create_for zammad store req customer s).0 ≡ ok e
      → (customer ≢ 0)
        × (t : Ticket) × ((zammad.create_ticket (zammad_request req customer) s).0 ≡ ok t)
        × (e
            ≡ enrich_from_zammad t (
                to_option
                  (store.upsert t.id t.number none
                    (zammad.create_ticket (zammad_request req customer) s).1).0))
        × ((create_for zammad store req customer s).1
            ≡ (store.upsert t.id t.number none
                (zammad.create_ticket (zammad_request req customer) s).1).1)
  unfolding create_for record_ticket
  create_for-inv req customer s {e} h = elim (Bool-cases (customer == 0)) [
    | inl z ↦ ground (arith, rw (z, create_for) at h)
    | inr z ↦
        let call = zammad.create_ticket (zammad_request req customer) in
        let (t, made, run) =
          >>=-inv call (record_ticket zammad store) s (rw (z, create_for) at h) in
        let h' = rw (z, create_for) at h in
        (
          λ k. ground (arith, z, k),
          t,
          ap (λ x. x.0) made,
          sym (ok_inj (ap (λ x. x.0) (sym run) ∙ h')),
          rw (z, create_for) (ap (λ x. x.1) run),
        )
  ]

  -- The first search finds the user, or the user is made.
  find_user-inv :
      (email : String) (s : S) {u : User} {s' : S}
      → find_user zammad store email s ≡ (ok (some u), s')
      → (zammad.search_users_by_email email s ≡ (ok (some u), s'))
        ⊎ ((s1 : S) × (zammad.search_users_by_email email s ≡ (ok none, s1))
            × (zammad.create_user email "" "" s1 ≡ (ok u, s')))
  unfolding find_user
  find_user-inv email s {u} {s'} h = searched (zammad.search_users_by_email email s) refl
    where
      retried :
          (e : Error) (x : Result (Option User) × S)
          → after_retry zammad store none e x.0 x.1 ≡ (ok (some u), s')
          → ⊥
      retried e (ok none, t) k = cc
      retried e (ok (some v), t) k = cc
      retried e (err e', t) k = cc

      made :
          (s1 : S) (x : Result User × S)
          → zammad.create_user email "" "" s1 ≡ x
          → after_create_user zammad store email x.0 x.1 ≡ (ok (some u), s')
          → x ≡ (ok u, s')
      made s1 (ok v, t) e k = cc
      made s1 (err e', t) e k = absurd (retried e' (zammad.search_users_by_email email t) k)

      searched :
          (x : Result (Option User) × S)
          → zammad.search_users_by_email email s ≡ x
          → (zammad.search_users_by_email email s ≡ (ok (some u), s'))
            ⊎ ((s1 : S) × (zammad.search_users_by_email email s ≡ (ok none, s1))
                × (zammad.create_user email "" "" s1 ≡ (ok u, s')))
      searched (err e', t) e = cc (
          sym h
          ∙ >>=-err (zammad.search_users_by_email email) (after_search zammad store email) s e)
      searched (ok (some v), t) e =
          let k =
            sym (>>=-ok (zammad.search_users_by_email email) (after_search zammad store email) s e)
            ∙ h in
          inl (e ∙ k)
      searched (ok none, t) e =
          let k =
            sym (>>=-ok (zammad.search_users_by_email email) (after_search zammad store email) s e)
            ∙ h in
          inr (t, e, made t (zammad.create_user email "" "" t) refl k)

  -- The customer is the one of the request, with nothing called, or the user whom the first search
  -- for the caller's address finds, or the user who is made when it finds nobody.
  abbrev pub CustomerOf : CreateRequest → String → S → ℕ → S → Type 0
  CustomerOf req email s customer s' =
      ((customer ≡ req.customer_id) × (s' ≡ s))
      ⊎ ((u : User) × (req.customer_id ≡ 0)
          × (customer ≡ u.id)
          × (zammad.search_users_by_email email s ≡ (ok (some u), s')))
      ⊎ ((u : User) × (s1 : S) × (req.customer_id ≡ 0)
          × (customer ≡ u.id)
          × (zammad.search_users_by_email email s ≡ (ok none, s1))
          × (zammad.create_user email "" "" s1 ≡ (ok u, s')))

  customer_for-inv :
      (req : CreateRequest) (email : String) (s : S) {customer : ℕ} {s' : S}
      → customer_for zammad store req email s ≡ (ok customer, s')
      → CustomerOf req email s customer s'
  unfolding customer_for find_customer
  customer_for-inv req email s {customer} {s'} h =
      elim (Bool-cases (req.customer_id == 0 && not (str_eq email ""))) [
        | inr given ↦
            let k : ◌≡◌ {A = Result ℕ × S} (ok req.customer_id, s) (ok customer, s') =
              rw (given, customer_for) at h in
            inl (sym (ok_inj (ap (λ x. x.0) k)), sym (ap (λ x. x.1) k))
        | inl asked ↦
            let k : find_customer zammad store email s ≡ (ok customer, s') =
              rw (asked, customer_for) at h in
            let zero : req.customer_id ≡ 0 = ground (arith, asked) in
            go zero (find_user zammad store email s) refl k
      ]
    where
      go :
          req.customer_id ≡ 0
          → (x : Result (Option User) × S) → find_user zammad store email s ≡ x
          → find_customer zammad store email s ≡ (ok customer, s')
          → CustomerOf req email s customer s'
      go zero (err e, t) found k =
          cc (sym k ∙ >>=-err (find_user zammad store email) (user_id zammad store) s found)
      go zero (ok none, t) found k =
          cc (sym k ∙ >>=-ok (find_user zammad store email) (user_id zammad store) s found)
      go zero (ok (some u), t) found k =
          let same = sym k ∙ >>=-ok (find_user zammad store email) (user_id zammad store) s found in
          let id = ok_inj (ap (λ x. x.0) same) in
          let at = found ∙ ap (λ y. (ok (some u), y)) (sym (ap (λ x. x.1) same)) in
          elim (find_user-inv email s at) [
            | inl first ↦ inr (inl (u, zero, id, first))
            | inr (s1, nobody, made) ↦ inr (inr (u, s1, zero, id, nobody, made))
          ]

  -- A create that succeeds has called Zammad's creation of a ticket once, for a customer whose id is
  -- not 0: the one of the request, or the user whom the first search for the caller's address finds,
  -- or who is made when it finds nobody. It shows the ticket that this call made, with the metadata
  -- that was recorded, or none if recording it failed, and the state left is the one of the recording.
  pub create_makes_ticket :
      (req : CreateRequest) (email : String) (s : S) (e : EnrichedTicket)
      → (create zammad store req email s).0 ≡ ok e
      → (customer : ℕ) × (t : Ticket) × (s1 : S) × (s2 : S) × CustomerOf req email s customer s1
        × (customer ≢ 0)
        × (zammad.create_ticket (zammad_request req customer) s1 ≡ (ok t, s2))
        × (e ≡ enrich_from_zammad t (to_option (store.upsert t.id t.number none s2).0))
        × ((create zammad store req email s).1 ≡ (store.upsert t.id t.number none s2).1)
  unfolding create
  create_makes_ticket req email s e h =
      let (customer, found, run) =
        >>=-inv (customer_for zammad store req email) (create_for zammad store req) s h in
      let s1 = (customer_for zammad store req email s).1 in
      let (nonzero, t, made, shown, left) =
        create_for-inv req customer s1 (ap (λ x. x.0) (sym run) ∙ h) in
      let call = zammad.create_ticket (zammad_request req customer) s1 in
      (
        customer,
        t,
        s1,
        call.1,
        customer_for-inv req email s found,
        nonzero,
        ap (λ (r : Result Ticket). (r, call.1)) made,
        shown,
        ap (λ x. x.1) run ∙ left,
      )

  -- For a request without a customer and a caller with an address: when the address is not found, the
  -- user cannot be created and a second search finds it, the creation of the ticket panics before
  -- Zammad is asked for the ticket.
  pub retry_panics :
      (req : CreateRequest) (email : String) (u : User) (failure : Error) (s s1 s2 s3 : S)
      → req.customer_id ≡ 0
      → str_eq email "" ≡ false
      → zammad.search_users_by_email email s ≡ (ok none, s1)
      → zammad.create_user email "" "" s1 ≡ (err failure, s2)
      → zammad.search_users_by_email email s2 ≡ (ok (some u), s3)
      → create zammad store req email s ≡ (err panicked, s3)
  unfolding create find_user find_customer customer_for
  retry_panics req email u failure s s1 s2 s3 zero given absent refused found =
      let search = zammad.search_users_by_email email in
      let make = zammad.create_user email "" "" in
      let asks : (req.customer_id == 0 && not (str_eq email "")) ≡ true =
        ground (arith, zero, given) in
      let nobody : find_user zammad store email s ≡ (ok none, s3) =
        >>=-ok search (after_search zammad store email) s absent
        ∙ >>=-ok (attempt make) (after_create_user zammad store email) s1
            (attempt_ran make s1 refused)
        ∙ >>=-ok (attempt search) (after_retry zammad store none failure) s2
            (attempt_ran search s2 found) in
      let customer : customer_for zammad store req email s ≡ (err panicked, s3) =
        rw (asks, customer_for)
          (>>=-ok (find_user zammad store email) (user_id zammad store) s nobody) in
      >>=-err (customer_for zammad store req email) (create_for zammad store req) s customer
