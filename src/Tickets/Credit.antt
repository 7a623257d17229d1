-- ===== src/Tickets/Credit.antt =====
-- The money that the tickets bring in, and the ways in which tickets change
-- (server/controllers/depositTicketController.js).
use support_block_miner.Tickets.State.{
  DepositTicket, Desk, DeskDb, IsDeskDb, is_unresolved, is_paid, is_rejected, TicketStatus,
  ticket_credited, ticket_approved, ticket_open, ticket_analyzing, ticket_rejected, Notice,
}
use support_block_miner.Tickets.Open.{
  TicketBody, create_ticket, open_ticket, new_ticket, is_open_ticket_of, is_duplicate,
  max_tickets_open, is_amount,
}
use support_block_miner.Tickets.Resolve.{
  admin_get_ticket, admin_approve_ticket, admin_reject_ticket, credit_ticket, credit_wallet,
  mark_credited, mark_rejected,
}
use support_block_miner.Wallet.Funds.{balances, balances-add_to_balance}
use support_block_miner.Base.{
  some, true, false, inl, inr, refl, ◌==◌, ◌≡◌, ◌≢◌, ◌||◌, arith, ℕ, Option, String, List, Bool,
  Option-cases, All, Bool-cases, ap, sym, none, leb, length,
}
use support_block_miner.Base.Int.{pos, ◌+ℤ◌, ℤ, int_laws, pos_part, neg_part, leb_ℤ}
use support_block_miner.Base.Table.{
  HasUnique, sum_by, sum_by-update_found, update-HasUnique, sum_by-create, create-HasUnique,
}
use support_block_miner.Engine.Numbers.{Numbers}
use support_block_miner.Database.{User}
use mathlib.Core.Path.{subst}
use support_block_miner.Base.Text.{is_hex_text}

-- What a ticket has credited.
abbrev pub paid_by : TicketStatus → Option ℤ → ℤ
paid_by ticket_credited (some amount) = amount
paid_by _ _ = pos 0

abbrev pub paid : DepositTicket → ℤ
paid t = paid_by t.status t.credited_amount

abbrev pub paid_out : Desk → ℤ
paid_out d = sum_by paid d.tickets

paid_by-unpaid : (s : TicketStatus) (a : Option ℤ) → is_paid s ≡ false → paid_by s a ≡ pos 0
paid_by-unpaid ticket_open a h = refl
paid_by-unpaid ticket_analyzing a h = refl
paid_by-unpaid ticket_approved a h = refl
paid_by-unpaid ticket_rejected a h = refl
paid_by-unpaid ticket_credited a h = absurd (ground arith)

unresolved-unpaid : (s : TicketStatus) → is_unresolved s ≡ true → is_paid s ≡ false
unresolved-unpaid ticket_open h = refl
unresolved-unpaid ticket_analyzing h = refl
unresolved-unpaid ticket_approved h = absurd (ground arith)
unresolved-unpaid ticket_rejected h = absurd (ground arith)
unresolved-unpaid ticket_credited h = absurd (ground arith)

abbrev pub HasKeys : Desk → Type 0
HasKeys d =
    HasUnique (λ (t : DepositTicket). t.id) d.tickets
    × HasUnique (λ (u : User). u.id) d.wallet.users

module _ (n : Numbers ℤ) (db : DeskDb) (laws : IsDeskDb db) where
  -- The keys stay unique, and the balances grow by what the tickets have credited since.
  abbrev pub Accounted : Desk → Desk → Type 0
  Accounted d d' =
      HasKeys d' × (balances d'.wallet +ℤ paid_out d ≡ balances d.wallet +ℤ paid_out d')

  kept-Accounted : (d : Desk) → HasKeys d → Accounted d d
  kept-Accounted d ids = (ids, refl)

  -- A change of one ticket that leaves the wallet alone.
  change_ticket-Accounted :
      (f : DepositTicket → DepositTicket) (t : DepositTicket) (d : Desk) (ns : List Notice)
      → HasKeys d
      → db.tickets.find (λ r. r.id == t.id) d.tickets ≡ some t
      → ((r : DepositTicket) → (f r).id ≡ r.id)
      → paid (f t) ≡ paid t
      → Accounted d (record {
        tickets = db.tickets.update (λ r. r.id == t.id) f d.tickets;
        wallet = d.wallet;
        notices = ns;
      })
  change_ticket-Accounted f t d ns ids there same level =
      let change =
        sum_by-update_found db.tickets laws.tickets (λ r. r.id) t.id f d.tickets paid ids.0 there in
      (
        (
          update-HasUnique db.tickets laws.tickets (λ r. r.id) (λ r. r.id == t.id) f d.tickets same
              ids.0,
          ids.1,
        ),
        omega (
          int_laws,
          ap pos_part change,
          ap neg_part change,
          ap pos_part level,
          ap neg_part level,
        ),
      )

  -- The search by the key of the ticket that was found.
  find-again :
      (id : ℕ) (t : DepositTicket) (d : Desk)
      → db.tickets.find (λ r. r.id == id) d.tickets ≡ some t
      → db.tickets.find (λ r. r.id == t.id) d.tickets ≡ some t
  find-again id t d there =
      let hit = (laws.tickets.find_some _ _ _ there).0 in
      let key : id ≡ t.id = ground arith in
      subst (λ k. db.tickets.find (λ r. r.id == k) d.tickets ≡ some t) key there

  open_ticket-Accounted :
      (is_decimal : String → Bool) (id u : ℕ) (address : List ℕ) (body : TicketBody) (d : Desk)
      → All (λ t. t.id ≢ id) d.tickets
      → HasKeys d
      → Accounted d (open_ticket db is_decimal id u address body d).1
  unfolding open_ticket
  open_ticket-Accounted is_decimal id u address body d new ids =
      elim (Bool-cases
        (leb max_tickets_open (length (db.tickets.find_many (is_open_ticket_of u) d.tickets)))) [
          | inl full ↦ rw (full, open_ticket) (ids, refl)
          | inr free ↦ elim (Bool-cases (is_duplicate db is_decimal u body.tx_hash d)) [
            | inl twice ↦ rw (free, twice, open_ticket) (ids, refl)
            | inr once ↦ elim (Bool-cases (is_amount db is_decimal body.amount_claimed)) [
              | inr bad ↦ rw (free, once, bad, open_ticket) (ids, refl)
              | inl good ↦
                  let t = new_ticket id u address body in
                  let more = sum_by-create db.tickets laws.tickets paid t d.tickets in
                  rw (free, once, good, open_ticket)
                    (
                      (
                        create-HasUnique db.tickets laws.tickets (λ r. r.id) t d.tickets ids.0 new,
                        ids.1,
                      ),
                      omega (int_laws, ap pos_part more, ap neg_part more),
                    )
            ]
          ]
        ]

  pub create_ticket-Accounted :
      (is_decimal : String → Bool) (id u : ℕ) (body : TicketBody) (d : Desk)
      → All (λ t. t.id ≢ id) d.tickets
      → HasKeys d
      → Accounted d (create_ticket db is_decimal id u body d).1
  unfolding create_ticket open_ticket
  create_ticket-Accounted is_decimal id u body d new ids = elim (Option-cases body.wallet_address) [
    | inl none_given ↦ rw (none_given, create_ticket) (ids, refl)
    | inr (address, given) ↦ elim (Bool-cases (is_hex_text 40 address)) [
      | inr bad ↦ rw (given, bad, create_ticket) (ids, refl)
      | inl hex ↦
          rw (given, hex, create_ticket)
            (open_ticket-Accounted is_decimal id u address body d new ids)
    ]
  ]

  pub admin_get_ticket-Accounted :
      (address_text : List ℕ → String) (analyze : DepositTicket → String) (id : ℕ) (d : Desk)
      → HasKeys d
      → Accounted d (admin_get_ticket n db address_text analyze id d).1
  unfolding admin_get_ticket
  admin_get_ticket-Accounted address_text analyze id d ids =
      elim (Option-cases (db.tickets.find (λ r. r.id == id) d.tickets)) [
        | inl gone ↦ rw (gone, admin_get_ticket) (ids, refl)
        | inr (t, there) ↦ elim (Bool-cases (is_unresolved t.status)) [
          | inr done ↦ rw (there, done, admin_get_ticket) (ids, refl)
          | inl on ↦
              rw (there, on, admin_get_ticket)
                (change_ticket-Accounted _ t d d.notices ids (find-again id t d there) (λ r. refl)
                  (sym (paid_by-unpaid t.status t.credited_amount (unresolved-unpaid t.status on))))
        ]
      ]

  pub admin_reject_ticket-Accounted :
      (address_text : List ℕ → String) (now id : ℕ) (remark : Option String) (d : Desk)
      → HasKeys d
      → Accounted d (admin_reject_ticket n db address_text now id remark d).1
  unfolding admin_reject_ticket
  admin_reject_ticket-Accounted address_text now id remark d ids =
      elim (Option-cases (db.tickets.find (λ r. r.id == id) d.tickets)) [
        | inl gone ↦ rw (gone, admin_reject_ticket) (ids, refl)
        | inr (t, there) ↦ elim (Bool-cases (is_paid t.status || is_rejected t.status)) [
          | inl done ↦ rw (there, done, admin_reject_ticket) (ids, refl)
          | inr on ↦
              rw (there, on, admin_reject_ticket)
                (change_ticket-Accounted (mark_rejected n db address_text now remark) t d d.notices
                  ids (find-again id t d there) (λ r. refl)
                  (sym (paid_by-unpaid t.status t.credited_amount (ground arith))))
        ]
      ]

  credit_ticket-Accounted :
      (address_text : List ℕ → String) (key now : ℕ) (amount : ℤ) (remark : Option String)
      (t : DepositTicket) (d : Desk)
      → HasKeys d
      → db.tickets.find (λ r. r.id == t.id) d.tickets ≡ some t
      → is_paid t.status ≡ false
      → Accounted d (credit_ticket n db address_text key now amount remark t d).1
  unfolding credit_ticket credit_wallet
  credit_ticket-Accounted address_text key now amount remark t d ids there unpaid =
      elim (Option-cases (db.wallet.users.find (λ r. r.id == t.user_id) d.wallet.users)) [
        | inl nobody ↦ rw (nobody, credit_ticket) (ids, refl)
        | inr (user, known) ↦
            let mark = mark_credited n db address_text now amount remark in
            let change =
              sum_by-update_found db.tickets laws.tickets (λ r. r.id) t.id mark d.tickets paid ids.0
                there in
            let before = paid_by-unpaid t.status t.credited_amount unpaid in
            let more =
              balances-add_to_balance n db.wallet laws.wallet t.user_id amount d.wallet ids.1
                known in
            rw (known, credit_ticket, credit_wallet)
              (
                (
                  update-HasUnique db.tickets laws.tickets (λ r. r.id) (λ r. r.id == t.id) mark
                      d.tickets (λ r. refl) ids.0,
                  update-HasUnique db.wallet.users laws.wallet.users (λ r. r.id)
                      (λ r. r.id == t.user_id)
                      (λ r. record r { pol_balance = r.pol_balance +ℤ amount }) d.wallet.users
                      (λ r. refl) ids.1,
                ),
                omega (
                  int_laws,
                  ap pos_part change,
                  ap neg_part change,
                  ap pos_part before,
                  ap neg_part before,
                  ap pos_part more,
                  ap neg_part more,
                ),
              )
      ]

  pub admin_approve_ticket-Accounted :
      (address_text : List ℕ → String) (key now id : ℕ) (amount : Option ℤ) (remark : Option String)
      (d : Desk)
      → HasKeys d
      → Accounted d (admin_approve_ticket n db address_text key now id amount remark d).1
  unfolding admin_approve_ticket
  admin_approve_ticket-Accounted address_text key now id none remark d ids = (ids, refl)
  admin_approve_ticket-Accounted address_text key now id (some amount) remark d ids =
      elim (Bool-cases (leb_ℤ amount (pos 0))) [
        | inl bad ↦ rw (bad, admin_approve_ticket) (ids, refl)
        | inr good ↦ elim (Option-cases (db.tickets.find (λ r. r.id == id) d.tickets)) [
          | inl gone ↦ rw (good, gone, admin_approve_ticket) (ids, refl)
          | inr (t, there) ↦ elim (Bool-cases (is_paid t.status)) [
            | inl done ↦ rw (good, there, done, admin_approve_ticket) (ids, refl)
            | inr on ↦
                rw (good, there, on, admin_approve_ticket)
                  (credit_ticket-Accounted address_text key now amount remark t d ids
                    (find-again id t d there) on)
          ]
        ]
      ]
