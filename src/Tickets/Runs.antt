-- ===== src/Tickets/Runs.antt =====
-- The desk over its life: the requests of the users and of the administrators, in any order
-- (server/controllers/depositTicketController.js).
use support_block_miner.Tickets.State.{DepositTicket, Desk, DeskDb, IsDeskDb}
use support_block_miner.Tickets.Credit.{
  HasKeys, Accounted, create_ticket-Accounted, admin_get_ticket-Accounted,
  admin_reject_ticket-Accounted, admin_approve_ticket-Accounted,
}
use support_block_miner.Tickets.Limit.{
  IsLimited, create_ticket-IsLimited, admin_get_ticket-IsLimited, admin_reject_ticket-IsLimited,
  admin_approve_ticket-IsLimited, open_tickets,
}
use support_block_miner.Base.{refl, ◌≤◌, ◌≢◌, ℕ, String, Bool, List, All, Option, ap}
use support_block_miner.Engine.Numbers.{Numbers}
use support_block_miner.Base.Int.{ℤ, int_laws, pos_part, neg_part}
use support_block_miner.Tickets.Open.{TicketBody, create_ticket}
use support_block_miner.Tickets.Resolve.{
  admin_get_ticket, admin_approve_ticket, admin_reject_ticket,
}

module _ (n : Numbers ℤ) (db : DeskDb) (is_decimal : String → Bool) (address_text : List ℕ → String)
    (analyze : DepositTicket → String) where
  -- One request. The key of a new ticket is that of no other.
  pub data Step : Desk → Desk → Type 0 where
    creates :
        (id u : ℕ) (body : TicketBody) (d : Desk)
        → All (λ t. t.id ≢ id) d.tickets
        → Step d (create_ticket db is_decimal id u body d).1
    looks : (id : ℕ) (d : Desk) → Step d (admin_get_ticket n db address_text analyze id d).1
    approves :
        (key now id : ℕ) (amount : Option ℤ) (remark : Option String) (d : Desk)
        → Step d (admin_approve_ticket n db address_text key now id amount remark d).1
    rejects :
        (now id : ℕ) (remark : Option String) (d : Desk)
        → Step d (admin_reject_ticket n db address_text now id remark d).1

  pub data Reach : Desk → Desk → Type 0 where
    start : (d : Desk) → Reach d d
    then_step : (d d' d'' : Desk) → Reach d d' → Step d' d'' → Reach d d''

  module _ (laws : IsDeskDb db) where
    Step-Accounted : (d d' : Desk) → Step d d' → HasKeys d → Accounted n db laws d d'
    Step-Accounted _ _ (creates id u body d fresh) ids =
        create_ticket-Accounted n db laws is_decimal id u body d fresh ids
    Step-Accounted _ _ (looks id d) ids =
        admin_get_ticket-Accounted n db laws address_text analyze id d ids
    Step-Accounted _ _ (approves key now id amount remark d) ids =
        admin_approve_ticket-Accounted n db laws address_text key now id amount remark d ids
    Step-Accounted _ _ (rejects now id remark d) ids =
        admin_reject_ticket-Accounted n db laws address_text now id remark d ids

    Step-IsLimited : (d d' : Desk) → Step d d' → HasKeys d → IsLimited d → IsLimited d'
    Step-IsLimited _ _ (creates id u body d fresh) ids h =
        create_ticket-IsLimited n db laws is_decimal id u body d h
    Step-IsLimited _ _ (looks id d) ids h =
        admin_get_ticket-IsLimited n db laws address_text analyze id d ids.0 h
    Step-IsLimited _ _ (approves key now id amount remark d) ids h =
        admin_approve_ticket-IsLimited n db laws address_text key now id amount remark d h
    Step-IsLimited _ _ (rejects now id remark d) ids h =
        admin_reject_ticket-IsLimited n db laws address_text now id remark d h

    pub reach-Accounted : (d d' : Desk) → Reach d d' → HasKeys d → Accounted n db laws d d'
    reach-Accounted _ _ (start d) ids = (ids, refl)
    reach-Accounted _ _ (then_step d d' d'' before step) ids =
        let (ids', grown) = reach-Accounted d d' before ids in
        let (ids'', more) = Step-Accounted d' d'' step ids' in
        (
          ids'',
          omega
              (int_laws, ap pos_part grown, ap neg_part grown, ap pos_part more, ap neg_part more),
        )

    pub reach-IsLimited :
        (d d' : Desk) → Reach d d' → HasKeys d → IsLimited d → (u : ℕ) → open_tickets u d' ≤ 3
    reach-IsLimited _ _ (start d) ids h = h
    reach-IsLimited _ _ (then_step d d' d'' before step) ids h =
        Step-IsLimited d' d'' step (reach-Accounted d d' before ids).0
          (reach-IsLimited d d' before ids h)
