-- ===== src/Rooms/Buy.antt =====
-- `buyRoom` (server/controllers/roomsController.js). The keys of the new rows and the time are
-- arguments; the notification changes nothing of the tables.
use support_block_miner.Base.{
  none, some, [], ◌∷◌, zero, suc, ◌==◌, ◌+◌, ◌-◌, if◌then◌else◌, ℕ, List, Option, length, ltb, ◌&&◌,
  Bool,
}
use support_block_miner.Base.Int.{pos, ◌+ℤ◌, ℤ, ltb_ℤ, neg}
use support_block_miner.Base.Http.{accepted, rejected, Response}
use support_block_miner.Engine.Numbers.{Numbers}
use support_block_miner.Rooms.State.{RoomSettings, HouseDb, House}
use support_block_miner.Database.{UserRack, UserRoom}
use support_block_miner.Engine.Miners.{apply_user_balance_delta}

-- `prices[i] ?? 0`
abbrev pub price_at : List (Option ℤ) → ℕ → Option ℤ
price_at [] i = some (pos 0)
price_at (p ∷ ps) zero = p
price_at (p ∷ ps) (suc i) = price_at ps i

module _ (n : Numbers ℤ) (settings : RoomSettings) (db : HouseDb) where
  abbrev pub new_rack : ℕ → ℕ → ℕ → ℕ → UserRack
  new_rack id u room_id position = record {
    id = id;
    user_id = u;
    room_id = room_id;
    position = position;
    user_miner_id = none;
    blocked_by_miner_id = none;
    installed_at = none;
  }

  -- `createMany` of the racks at the positions from `i` on; the first has the key `id`.
  unfoldable pub create_racks : ℕ → ℕ → ℕ → ℕ → ℕ → List UserRack → List UserRack
  create_racks zero id u room_id i racks = racks
  create_racks (suc count) id u room_id i racks =
      create_racks count (id + 1) u room_id (i + 1)
        (db.racks.create (new_rack id u room_id i) racks)

  -- The `$transaction`, and the change in memory after it.
  unfoldable pub unlock_room : ℕ → ℕ → ℕ → ℕ → ℤ → House → House
  unfolding create_racks
  unlock_room room_id rack_id u number price h =
      let unlocked = record h {
        rooms =
            db.rooms.create
              (record { id = room_id; user_id = u; room_number = number; price_paid = price })
              h.rooms;
        racks = create_racks settings.racks_per_room rack_id u room_id 0 h.racks;
      } in
      if ltb_ℤ (pos 0) price
      then record unlocked {
        users =
            db.users.update (λ r. r.id == u)
              (λ r. record r { pol_balance = r.pol_balance +ℤ neg price }) h.users;
        engine = apply_user_balance_delta n u (neg price) h.engine;
      }
      else unlocked

  -- The rooms of a user have different numbers, by `@@unique([userId, roomNumber])`.
  abbrev pub is_room_of : ℕ → ℕ → UserRoom → Bool
  is_room_of u number r = r.user_id == u && r.room_number == number

  -- The number of the next room of a user.
  abbrev pub next_room : ℕ → House → ℕ
  next_room u h = length (db.rooms.find_many (λ r. r.user_id == u) h.rooms) + 1

  unfoldable pub pay_room : ℕ → ℕ → ℕ → ℕ → ℤ → House → Response ℕ × House
  unfolding unlock_room
  pay_room room_id rack_id u number price h = elim (db.users.find (λ r. r.id == u) h.users) [
    | none ↦ (rejected 404 "Usuário não encontrado.", h)
    | some user ↦
        if ltb_ℤ user.pol_balance price
        then (rejected 400 "INSUFFICIENT_BALANCE", h)
        else elim (db.rooms.find (is_room_of u number) h.rooms) [
          | some _ ↦ (rejected 500 "Erro ao comprar sala.", h)
          | none ↦ (accepted number, unlock_room room_id rack_id u number price h)
        ]
  ]

  -- `buyRoom(req, res)`: an accepted request answers the number of the room.
  unfoldable pub buy_room : ℕ → ℕ → ℕ → House → Response ℕ × House
  unfolding pay_room
  buy_room room_id rack_id u h =
      let number = next_room u h in
      if ltb settings.room_max number
      then (rejected 400 "MAX_ROOMS_REACHED", h)
      else elim (price_at settings.room_prices (number - 1)) [
        | none ↦ (rejected 500 "Configuração de preço inválida.", h)
        | some price ↦
            if ltb_ℤ price (pos 0)
            then (rejected 500 "Configuração de preço inválida.", h)
            else pay_room room_id rack_id u number price h
      ]
