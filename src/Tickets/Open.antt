-- ===== src/Tickets/Open.antt =====
-- `createTicket` (server/controllers/depositTicketController.js).
use support_block_miner.Tickets.State.{DepositTicket, Desk, DeskDb, ticket_open, is_unresolved}
use support_block_miner.Base.Http.{Response, accepted, rejected}
use support_block_miner.Base.Text.{is_hex_text, same_text}
use support_block_miner.Base.{
  none, some, true, false, ◌==◌, ◌+◌, ◌&&◌, if◌then◌else◌, ℕ, is_some, Option, leb, Bool, String,
  List, take, map, length,
}

-- The body of the request: texts as code units where the handler looks into them, the hash as `trim`
-- leaves it; none where a field is missing or falsy.
pub record TicketBody : Type 0 where
  pub wallet_address : Option (List ℕ)
  pub tx_hash : Option String
  pub amount_claimed : Option String
  pub description : Option (List ℕ)

abbrev pub max_tickets_open : ℕ
max_tickets_open = 3

-- `toLowerCase()` of an address, which has no other letters.
abbrev pub lower_letter : ℕ → ℕ
lower_letter c = if leb b'A' c && leb c b'Z' then c + 32 else c

abbrev pub cut_description : Option (List ℕ) → Option (List ℕ)
cut_description none = none
cut_description (some d) = some (take 1000 d)

abbrev pub is_open_ticket_of : ℕ → DepositTicket → Bool
is_open_ticket_of u t = t.user_id == u && is_unresolved t.status

abbrev pub is_ticket_for : ℕ → String → DepositTicket → Bool
is_ticket_for u hash t = same_text t.tx_hash (some hash) && t.user_id == u

abbrev pub new_ticket : ℕ → ℕ → List ℕ → TicketBody → DepositTicket
new_ticket id u address body = record {
  id = id;
  user_id = u;
  wallet_address = map lower_letter address;
  tx_hash = body.tx_hash;
  amount_claimed = body.amount_claimed;
  description = cut_description body.description;
  status = ticket_open;
  onchain_data_json = none;
  admin_action = none;
  admin_note = none;
  credited_amount = none;
  resolved_at = none;
}

-- `is_decimal` says which texts the database takes as a `Decimal`; with another one `create` throws.
module _ (db : DeskDb) (is_decimal : String → Bool) where
  abbrev pub is_amount : Option String → Bool
  is_amount none = true
  is_amount (some a) = is_decimal a

  -- `if (txHash) { … findFirst … }`
  abbrev pub is_duplicate : ℕ → Option String → Desk → Bool
  is_duplicate u none d = false
  is_duplicate u (some hash) d = is_some (db.tickets.find (is_ticket_for u hash) d.tickets)

  -- From the address on.
  unfoldable pub open_ticket : ℕ → ℕ → List ℕ → TicketBody → Desk → Response DepositTicket × Desk
  open_ticket id u address body d =
      if leb max_tickets_open (length (db.tickets.find_many (is_open_ticket_of u) d.tickets))
      then (rejected 429 "Você já tem tickets abertos em análise. Aguarde a resolução.", d)
      else if is_duplicate u body.tx_hash d
      then (rejected 409 "Já existe um ticket para esta transação.", d)
      else if is_amount body.amount_claimed
      then (
        accepted (new_ticket id u address body),
        record d { tickets = db.tickets.create (new_ticket id u address body) d.tickets },
      )
      else (rejected 500 "Erro ao abrir ticket.", d)

  -- `createTicket(req, res)`
  unfoldable pub create_ticket : ℕ → ℕ → TicketBody → Desk → Response DepositTicket × Desk
  unfolding open_ticket
  create_ticket id u body d = elim body.wallet_address [
    | none ↦ (rejected 400 "Endereço de carteira inválido.", d)
    | some address ↦
        if is_hex_text 40 address
        then open_ticket id u address body d
        else (rejected 400 "Endereço de carteira inválido.", d)
  ]
