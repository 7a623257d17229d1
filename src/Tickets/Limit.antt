-- ===== src/Tickets/Limit.antt =====
-- How many tickets of a user are open at once (server/controllers/depositTicketController.js).
use support_block_miner.Tickets.State.{
  DepositTicket, Desk, DeskDb, IsDeskDb, is_unresolved, is_paid, is_rejected,
}
use support_block_miner.Tickets.Open.{
  TicketBody, open_ticket, new_ticket, is_open_ticket_of, is_duplicate, is_amount, max_tickets_open,
  create_ticket,
}
use support_block_miner.Base.{
  true, [], ◌∷◌, inl, inr, suc, ◌+◌, ◌≤◌, ◌≡◌, ◌++◌, if◌then◌else◌, arith, ℕ, Bool, length, List,
  keep, All, String, map, Bool-cases, leb, none, some, ◌==◌, ◌||◌, Option-cases, Option, All-imp,
  sym,
}
use support_block_miner.Engine.Numbers.{Numbers}
use support_block_miner.Base.Int.{ℤ, pos, leb_ℤ}
use mathlib.Core.Path.{subst}
use support_block_miner.Tickets.Resolve.{
  admin_get_ticket, admin_reject_ticket, admin_approve_ticket, credit_ticket, mark_credited,
  mark_rejected,
}
use support_block_miner.Base.Table.{HasUnique, same-by-key}
use support_block_miner.Base.Text.{is_hex_text}

length-keep-append :
    {A : Type 0} (p : A → Bool) (xs : List A) (x : A)
    → length (keep p (xs ++ x ∷ [])) ≡ length (keep p xs) + (if p x then 1 else 0)
length-keep-append p [] x = ground arith
length-keep-append p (y ∷ xs) x = ground (arith, length-keep-append p xs x)

-- A change that opens no ticket does not raise their number.
length-keep-updated :
    {A : Type 0} (p q : A → Bool) (f : A → A) (xs : List A)
    → All (λ x. q x ≡ true → p (f x) ≡ true → p x ≡ true) xs
    → length (keep p (map (λ x. if q x then f x else x) xs)) ≤ length (keep p xs)
length-keep-updated p q f [] h = omega arith
length-keep-updated p q f (x ∷ xs) h =
    let rest = length-keep-updated p q f xs h.1 in
    elim (Bool-cases (q x)) [
      | inr off ↦ rw off (ground (arith, rest))
      | inl on ↦ elim (Bool-cases (p (f x))) [
        | inl hit ↦ rw (on, hit, h.0 on hit) (omega (arith, rest))
        | inr missed ↦ rw (on, missed) (ground (arith, rest))
      ]
    ]

All-always {κ} : {A : Type 0} (P : A → Type κ) (xs : List A) → ((x : A) → P x) → All P xs
All-always P [] h = tt
All-always P (x ∷ xs) h = (h x, All-always P xs h)

abbrev pub open_tickets : ℕ → Desk → ℕ
open_tickets u d = length (keep (is_open_ticket_of u) d.tickets)

abbrev pub IsLimited : Desk → Type 0
IsLimited d = (u : ℕ) → open_tickets u d ≤ max_tickets_open

module _ (n : Numbers ℤ) (db : DeskDb) (laws : IsDeskDb db) where
  open_ticket-IsLimited :
      (is_decimal : String → Bool) (id u : ℕ) (address : List ℕ) (body : TicketBody) (d : Desk)
      → IsLimited d
      → IsLimited (open_ticket db is_decimal id u address body d).1
  unfolding open_ticket
  open_ticket-IsLimited is_decimal id u address body d h v =
      let counted = laws.tickets.find_many_rows (is_open_ticket_of u) d.tickets in
      elim (Bool-cases
        (leb max_tickets_open (length (db.tickets.find_many (is_open_ticket_of u) d.tickets)))) [
          | inl full ↦ rw (full, open_ticket) (h v)
          | inr free ↦ elim (Bool-cases (is_duplicate db is_decimal u body.tx_hash d)) [
            | inl twice ↦ rw (free, twice, open_ticket) (h v)
            | inr once ↦ elim (Bool-cases (is_amount db is_decimal body.amount_claimed)) [
              | inr bad ↦ rw (free, once, bad, open_ticket) (h v)
              | inl good ↦
                  let t = new_ticket id u address body in
                  let more = length-keep-append (is_open_ticket_of v) d.tickets t in
                  let before = h v in
                  let room : (u ≡ v) → suc (open_tickets v d) ≤ max_tickets_open = λ e.
                    subst (λ k. suc (open_tickets k d) ≤ max_tickets_open) e
                      (subst (λ (l : List DepositTicket). suc (length l) ≤ max_tickets_open) counted
                        (ground arith)) in
                  rw (free, once, good, open_ticket, laws.tickets.create_rows t d.tickets)
                    (ground (arith, more, before, room))
            ]
          ]
        ]

  pub create_ticket-IsLimited :
      (is_decimal : String → Bool) (id u : ℕ) (body : TicketBody) (d : Desk)
      → IsLimited d
      → IsLimited (create_ticket db is_decimal id u body d).1
  unfolding create_ticket
  create_ticket-IsLimited is_decimal id u body d h = elim (Option-cases body.wallet_address) [
    | inl missing ↦ rw (missing, create_ticket) h
    | inr (address, given) ↦ elim (Bool-cases (is_hex_text 40 address)) [
      | inr bad ↦ rw (given, bad, create_ticket) h
      | inl hex ↦
          rw (given, hex, create_ticket) (open_ticket-IsLimited is_decimal id u address body d h)
    ]
  ]

  -- A change of the rows with a key, which opens no ticket.
  update-open_tickets :
      (id v : ℕ) (f : DepositTicket → DepositTicket) (d : Desk)
      → IsLimited d
      → All
          (λ r.
            (r.id == id) ≡ true → is_open_ticket_of v (f r) ≡ true → is_open_ticket_of v r ≡ true)
          d.tickets
      → length (keep (is_open_ticket_of v) (db.tickets.update (λ r. r.id == id) f d.tickets))
        ≤ max_tickets_open
  update-open_tickets id v f d h closed =
      let less = length-keep-updated (is_open_ticket_of v) (λ r. r.id == id) f d.tickets closed in
      let before = h v in
      rw (laws.tickets.update_rows (λ r. r.id == id) f d.tickets) (omega (arith, less, before))

  pub admin_get_ticket-IsLimited :
      (address_text : List ℕ → String) (analyze : DepositTicket → String) (id : ℕ) (d : Desk)
      → HasUnique (λ (t : DepositTicket). t.id) d.tickets
      → IsLimited d
      → IsLimited (admin_get_ticket n db address_text analyze id d).1
  unfolding admin_get_ticket
  admin_get_ticket-IsLimited address_text analyze id d ids h =
      elim (Option-cases (db.tickets.find (λ r. r.id == id) d.tickets)) [
        | inl gone ↦ rw (gone, admin_get_ticket) h
        | inr (t, there) ↦ elim (Bool-cases (is_unresolved t.status)) [
          | inr done ↦ rw (there, done, admin_get_ticket) h
          | inl on ↦
              let member = (laws.tickets.find_some _ _ _ there).1 in
              rw (there, on, admin_get_ticket)
                (λ v. update-open_tickets t.id v _ d h (
                  All-imp (λ r. r.id ≡ t.id → r ≡ t) _ d.tickets
                    (λ r same q p.
                      let e = same (ground arith) in
                      let on' = subst (λ x. is_unresolved x.status ≡ true) (sym e) on in
                      ground arith)
                    (same-by-key (λ r. r.id) t d.tickets ids member)))
        ]
      ]

  pub admin_reject_ticket-IsLimited :
      (address_text : List ℕ → String) (now id : ℕ) (remark : Option String) (d : Desk)
      → IsLimited d
      → IsLimited (admin_reject_ticket n db address_text now id remark d).1
  unfolding admin_reject_ticket
  admin_reject_ticket-IsLimited address_text now id remark d h =
      elim (Option-cases (db.tickets.find (λ r. r.id == id) d.tickets)) [
        | inl gone ↦ rw (gone, admin_reject_ticket) h
        | inr (t, there) ↦ elim (Bool-cases (is_paid t.status || is_rejected t.status)) [
          | inl done ↦ rw (there, done, admin_reject_ticket) h
          | inr on ↦
              rw (there, on, admin_reject_ticket)
                (λ v.
                  update-open_tickets t.id v (mark_rejected n db address_text now remark) d h
                    (All-always _ d.tickets (λ r q p. absurd (ground arith))))
        ]
      ]

  pub admin_approve_ticket-IsLimited :
      (address_text : List ℕ → String) (key now id : ℕ) (amount : Option ℤ) (remark : Option String)
      (d : Desk)
      → IsLimited d
      → IsLimited (admin_approve_ticket n db address_text key now id amount remark d).1
  unfolding admin_approve_ticket credit_ticket
  admin_approve_ticket-IsLimited address_text key now id none remark d h = h
  admin_approve_ticket-IsLimited address_text key now id (some amount) remark d h =
      elim (Bool-cases (leb_ℤ amount (pos 0))) [
        | inl bad ↦ rw (bad, admin_approve_ticket) h
        | inr good ↦ elim (Option-cases (db.tickets.find (λ r. r.id == id) d.tickets)) [
          | inl gone ↦ rw (good, gone, admin_approve_ticket) h
          | inr (t, there) ↦ elim (Bool-cases (is_paid t.status)) [
            | inl done ↦ rw (good, there, done, admin_approve_ticket) h
            | inr on ↦
                elim (Option-cases (db.wallet.users.find (λ r. r.id == t.user_id) d.wallet.users)) [
                  | inl nobody ↦ rw (good, there, on, nobody, admin_approve_ticket, credit_ticket) h
                  | inr (user, known) ↦
                      rw (good, there, on, known, admin_approve_ticket, credit_ticket)
                        (λ v.
                          update-open_tickets t.id v
                            (mark_credited n db address_text now amount remark) d h
                            (All-always _ d.tickets (λ r q p. absurd (ground arith))))
                ]
          ]
        ]
      ]
