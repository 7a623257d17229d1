-- ===== src/Rooms/Purchases.antt =====
-- What buying a room costs and gives (`buyRoom`, server/controllers/roomsController.js).
use support_block_miner.Rooms.Buy.{
  buy_room, create_racks, price_at, next_room, unlock_room, new_rack, pay_room, is_room_of,
}
use support_block_miner.Base.{
  some, [], ◌∷◌, inl, inr, zero, suc, ◌+◌, ◌≤◌, ◌-◌, ◌≡◌, arith, ℕ, List, length, Bool-cases, ap,
  ◌∙◌, length-append, true, refl, ◌==◌, ◌++◌, Bool, keep, ltb, Option-cases,
}
use support_block_miner.Base.Int.{pos, ◌+ℤ◌, ℤ, ltb_ℤ, ◌≤ℤ◌, int_laws, not-ltb_ℤ→le}
use support_block_miner.Base.Http.{accepted, rejected, Response}
use support_block_miner.Engine.Numbers.{Numbers}
use support_block_miner.Rooms.State.{RoomSettings, HouseDb, IsHouseDb, House}
use support_block_miner.Database.{User, UserRack, UserRoom}
use support_block_miner.Accounts.{pol_of, IsSolvent, update-charge}

module _ (n : Numbers ℤ) (settings : RoomSettings) (db : HouseDb) (laws : IsHouseDb db) where
  length-create_racks :
      (count id u room_id i : ℕ) (racks : List UserRack)
      → length (create_racks n settings db count id u room_id i racks) ≡ length racks + count
  unfolding create_racks
  length-create_racks zero id u room_id i racks = omega arith
  length-create_racks (suc count) id u room_id i racks =
      let rest =
        length-create_racks count (id + 1) u room_id (i + 1)
          (db.racks.create (new_rack n settings db id u room_id i) racks) in
      let one =
        ap length (laws.racks.create_rows (new_rack n settings db id u room_id i) racks)
        ∙ length-append racks (new_rack n settings db id u room_id i ∷ []) in
      omega (arith, rest, one)

  -- What an accepted purchase of a room has done.
  abbrev pub Bought : ℕ → ℕ → House → House → Type 0
  Bought u number h h' =
      (price : ℤ) × (price_at settings.room_prices (number - 1) ≡ some price)
      × (number ≡ next_room n settings db u h)
      × (number ≤ settings.room_max)
      × (next_room n settings db u h' ≡ number + 1)
      × (length h'.racks ≡ length h.racks + settings.racks_per_room)
      × (pol_of h'.users +ℤ price ≡ pol_of h.users)

  abbrev pub Sale : ℕ → House → Response ℕ × House → Type 0
  Sale u h (accepted number, h') = Bought u number h h'
  Sale u h (rejected status message, h') = h' ≡ h

  abbrev unlocked_room : ℕ → ℕ → ℕ → ℤ → UserRoom
  unlocked_room room_id u number price = record {
    id = room_id;
    user_id = u;
    room_number = number;
    price_paid = price;
  }

  module _ (room_id rack_id u number : ℕ) (price : ℤ) (h : House) where
    unlock_room-rooms :
        (unlock_room n settings db room_id rack_id u number price h).rooms
        ≡ db.rooms.create (unlocked_room room_id u number price) h.rooms
    unfolding unlock_room
    unlock_room-rooms = elim (Bool-cases (ltb_ℤ (pos 0) price)) [
      | inl paid ↦ rw (paid, unlock_room) refl
      | inr free ↦ rw (free, unlock_room) refl
    ]

    unlock_room-racks :
        length (unlock_room n settings db room_id rack_id u number price h).racks
        ≡ length h.racks + settings.racks_per_room
    unfolding unlock_room
    unlock_room-racks =
        let more = length-create_racks settings.racks_per_room rack_id u room_id 0 h.racks in
        elim (Bool-cases (ltb_ℤ (pos 0) price)) [
          | inl paid ↦ rw (paid, unlock_room) more
          | inr free ↦ rw (free, unlock_room) more
        ]

    -- The buyer alone pays the price.
    unlock_room-users :
        {user : User}
        → IsSolvent h.users
        → db.users.find (λ r. r.id == u) h.users ≡ some user
        → pos 0 ≤ℤ price
        → price ≤ℤ user.pol_balance
        → let users = (unlock_room n settings db room_id rack_id u number price h).users in
          (pol_of users +ℤ price ≡ pol_of h.users) × IsSolvent users
    unfolding unlock_room
    unlock_room-users solvent found sign enough = elim (Bool-cases (ltb_ℤ (pos 0) price)) [
      | inr free ↦
          let nothing : price ≡ pos 0 = omega (int_laws, not-ltb_ℤ→le (pos 0) price free) in
          rw (free, unlock_room) ((rw nothing (omega int_laws)), solvent)
      | inl paid ↦
          rw (paid, unlock_room)
            (update-charge db.users laws.users u price h.users solvent found enough)
    ]

  length-keep_append :
      {A : Type 0} (p : A → Bool) (rs : List A) (r : A)
      → p r ≡ true
      → length (keep p (rs ++ r ∷ [])) ≡ length (keep p rs) + 1
  length-keep_append p [] r h = ground arith
  length-keep_append p (x ∷ rs) r h = ground (arith, length-keep_append p rs r h)

  next_room-unlock_room :
      (room_id rack_id u number : ℕ) (price : ℤ) (h : House)
      → next_room n settings db u (unlock_room n settings db room_id rack_id u number price h)
        ≡ next_room n settings db u h + 1
  next_room-unlock_room room_id rack_id u number price h =
      let room = unlocked_room room_id u number price in
      let more = length-keep_append (λ r. r.user_id == u) h.rooms room (ground arith) in
      rw
        (
          unlock_room-rooms room_id rack_id u number price h,
          laws.rooms.find_many_rows,
          laws.rooms.find_many_rows,
          laws.rooms.create_rows,
        )
        (omega (arith, more))

  -- A purchase of a room is rejected and changes nothing, or it is accepted: then the number of the
  -- room is the next one of the user and at most `room_max`, the next purchase is of the room after
  -- it, the racks of one room are added, and the sum of the balances falls by exactly the configured
  -- price of that room. The users are solvent and stay so.
  pub buy_room-Sale :
      (room_id rack_id u : ℕ) (h : House)
      → IsSolvent h.users
      → Sale u h (buy_room n settings db room_id rack_id u h)
        × IsSolvent (buy_room n settings db room_id rack_id u h).1.users
  unfolding buy_room pay_room
  buy_room-Sale room_id rack_id u h solvent =
      let number = next_room n settings db u h in
      elim (Bool-cases (ltb settings.room_max number)) [
        | inl many ↦ rw (many, buy_room) (refl, solvent)
        | inr few ↦ elim (Option-cases (price_at settings.room_prices (number - 1))) [
          | inl unread ↦ rw (few, unread, buy_room) (refl, solvent)
          | inr (price, priced) ↦ elim (Bool-cases (ltb_ℤ price (pos 0))) [
            | inl bad ↦ rw (few, priced, bad, buy_room) (refl, solvent)
            | inr good ↦ elim (Option-cases (db.users.find (λ r. r.id == u) h.users)) [
              | inl nobody ↦ rw (few, priced, good, nobody, buy_room, pay_room) (refl, solvent)
              | inr (user, found) ↦ elim (Bool-cases (ltb_ℤ user.pol_balance price)) [
                | inl poor ↦ rw (few, priced, good, found, poor, buy_room, pay_room) (refl, solvent)
                | inr rich ↦
                    elim (Option-cases
                      (db.rooms.find (is_room_of n settings db u number) h.rooms)) [
                        | inr (room, taken) ↦
                            rw (few, priced, good, found, rich, taken, buy_room, pay_room)
                              (refl, solvent)
                        | inl fresh ↦
                            let (less, still) =
                              unlock_room-users room_id rack_id u number price h solvent found
                                (not-ltb_ℤ→le price (pos 0) good)
                                (not-ltb_ℤ→le user.pol_balance price rich) in
                            rw (few, priced, good, found, rich, fresh, buy_room, pay_room)
                              (
                                (
                                  price,
                                  priced,
                                  refl,
                                  ground arith,
                                  next_room-unlock_room room_id rack_id u number price h,
                                  unlock_room-racks room_id rack_id u number price h,
                                  less,
                                ),
                                still,
                              )
                      ]
              ]
            ]
          ]
        ]
      ]
