-- ===== src/Rooms/Machines.antt =====
-- The machines that the users own, installed or stored, under `installMiner` and `uninstallMiner`
-- (server/controllers/roomsController.js).
use support_block_miner.Rooms.Install.{
  install_miner, is_miner_in, put_in_rack, install_item, install_large, rack_slot_index,
  installed_miner, slots_of, is_free, install_at, take_from_rack, uninstall_miner, returned_item,
}
use support_block_miner.Base.{
  none, some, true, inl, inr, refl, ◌==◌, ◌+◌, ◌-◌, ◌≡◌, ◌&&◌, arith, ℕ, Option, List, String, All,
  Option-cases, Bool-cases, leb, ap,
}
use support_block_miner.Base.Int.{◌+ℤ◌, ℤ, int_laws, pos_part, neg_part}
use support_block_miner.Database.{UserMiner, UserInventory, UserRack, UserRoom}
use support_block_miner.Rooms.State.{RoomSettings, House, HouseDb, IsHouseDb}
use support_block_miner.Base.Table.{sum_by, HasUnique, sum_by-create, sum_by-delete_row, find-All}
use mathlib.Core.List.{Memᴰ}

-- What stays of a machine when it moves between a rack and the inventory.
pub record Machine : Type 0 where
  pub user_id : ℕ
  pub miner_id : Option ℕ
  pub level : ℕ
  pub hash_rate : ℤ
  pub slot_size : ℕ
  pub image_url : Option String

abbrev pub installed : UserMiner → Machine
installed m = record {
  user_id = m.user_id;
  miner_id = m.miner_id;
  level = m.level;
  hash_rate = m.hash_rate;
  slot_size = m.slot_size;
  image_url = m.image_url;
}

abbrev pub stored : UserInventory → Machine
stored i = record {
  user_id = i.user_id;
  miner_id = i.miner_id;
  level = i.level;
  hash_rate = i.hash_rate;
  slot_size = i.slot_size;
  image_url = i.image_url;
}

-- A weight of the machines, summed over the racks and the inventory: their hash rates, or how many
-- machines of a kind a user has.
abbrev pub owned : (Machine → ℤ) → House → ℤ
owned weigh h =
    sum_by (λ m. weigh (installed m)) h.miners +ℤ sum_by (λ i. weigh (stored i)) h.inventory

-- A rack's machine belongs to the user of the rack.
abbrev pub HasOwnMiner : List UserMiner → UserRack → Type 0
HasOwnMiner miners r =
    All (λ m. is_miner_in r.user_miner_id m.id ≡ true → m.user_id ≡ r.user_id) miners

module _ (settings : RoomSettings) (db : HouseDb) (laws : IsHouseDb db) where
  put_in_rack-owned :
      (id now u slot_index : ℕ) (rack : UserRack) (adjacent : Option UserRack)
      (item : UserInventory) (h : House) (weigh : Machine → ℤ)
      → HasUnique (λ (i : UserInventory). i.id) h.inventory
      → Memᴰ item h.inventory
      → item.user_id ≡ u
      → owned weigh (put_in_rack settings db id now u slot_index rack adjacent item h).1
        ≡ owned weigh h
  unfolding put_in_rack
  put_in_rack-owned id now u slot_index rack adjacent item h weigh ids there mine =
      elim (Option-cases
        (db.miners.find (λ m. m.user_id == u && m.slot_index == slot_index) h.miners)) [
          | inr (m, taken) ↦ rw (taken, put_in_rack) refl
          | inl unused ↦
              let more =
                sum_by-create db.miners laws.miners (λ m. weigh (installed m))
                  (installed_miner settings db id u slot_index item) h.miners in
              let less =
                sum_by-delete_row db.inventory laws.inventory (λ i. i.id) (λ i. weigh (stored i))
                  item h.inventory ids there in
              let same : weigh (installed (installed_miner settings db id u slot_index item))
                  ≡ weigh (stored item) =
                rw mine refl in
              rw (unused, put_in_rack)
                (omega (
                  int_laws,
                  ap pos_part more,
                  ap neg_part more,
                  ap pos_part less,
                  ap neg_part less,
                  ap pos_part same,
                  ap neg_part same,
                ))
        ]

  install_item-owned :
      (id now u : ℕ) (room : UserRoom) (rack : UserRack) (inventory_id : ℕ) (h : House)
      (weigh : Machine → ℤ)
      → HasUnique (λ (i : UserInventory). i.id) h.inventory
      → owned weigh (install_item settings db id now u room rack inventory_id h).1 ≡ owned weigh h
  unfolding install_item install_large
  install_item-owned id now u room rack inventory_id h weigh ids =
      elim (Option-cases
        (db.inventory.find (λ i. i.id == inventory_id && i.user_id == u) h.inventory)) [
          | inl gone ↦ rw (gone, install_item) refl
          | inr (item, there) ↦
              let (hit, member) = laws.inventory.find_some _ _ _ there in
              let mine : item.user_id ≡ u = ground arith in
              let slot_index = rack_slot_index settings room.room_number rack.position in
              let put = λ (adjacent : Option UserRack).
                put_in_rack-owned id now u slot_index rack adjacent item h weigh ids member mine in
              elim (Bool-cases (leb 2 (slots_of item.slot_size))) [
                | inr small ↦ rw (there, small, install_item) (put none)
                | inl large ↦
                    let last = rack.position + (slots_of item.slot_size - 1) in
                    elim (Option-cases (
                      db.racks.find (λ r. r.room_id == rack.room_id && r.position == last)
                        h.racks)) [
                          | inl short ↦ rw (there, large, short, install_item, install_large) refl
                          | inr (adjacent, next) ↦ elim (Bool-cases (is_free adjacent)) [
                            | inl free ↦
                                rw (there, large, next, free, install_item, install_large)
                                  (put (some adjacent))
                            | inr full ↦
                                rw (there, large, next, full, install_item, install_large) refl
                          ]
                        ]
              ]
        ]

  -- A request to install a machine neither makes nor loses a machine, whatever it answers: any weight
  -- of the machines, summed over the racks and the inventory, stays as it was. No two items of the
  -- inventory share a key.
  pub install_miner-owned :
      (id now u : ℕ) (rack_id inventory_id : Option ℕ) (h : House) (weigh : Machine → ℤ)
      → HasUnique (λ (i : UserInventory). i.id) h.inventory
      → owned weigh (install_miner settings db id now u rack_id inventory_id h).1 ≡ owned weigh h
  unfolding install_miner install_at
  install_miner-owned id now u none inventory_id h weigh ids = refl
  install_miner-owned id now u (some rack_id) none h weigh ids = refl
  install_miner-owned id now u (some rack_id) (some inventory_id) h weigh ids =
      elim (Option-cases (db.racks.find (λ r. r.id == rack_id && r.user_id == u) h.racks)) [
        | inl gone ↦ rw (gone, install_at) refl
        | inr (rack, there) ↦ elim (Bool-cases (is_free rack)) [
          | inr full ↦ rw (there, full, install_at) refl
          | inl free ↦ elim (Option-cases (db.rooms.find (λ r. r.id == rack.room_id) h.rooms)) [
            | inl lost ↦ rw (there, free, lost, install_at) refl
            | inr (room, known) ↦
                rw (there, free, known, install_at)
                  (install_item-owned id now u room rack inventory_id h weigh ids)
          ]
        ]
      ]

  take_from_rack-owned :
      (id now u : ℕ) (rack : UserRack) (m : UserMiner) (h : House) (weigh : Machine → ℤ)
      → HasUnique (λ (m : UserMiner). m.id) h.miners
      → Memᴰ m h.miners
      → m.user_id ≡ u
      → owned weigh (take_from_rack settings db id now u rack m h) ≡ owned weigh h
  unfolding take_from_rack
  take_from_rack-owned id now u rack m h weigh ids there mine =
      let more =
        sum_by-create db.inventory laws.inventory (λ i. weigh (stored i))
          (returned_item settings db id now u m) h.inventory in
      let less =
        sum_by-delete_row db.miners laws.miners (λ i. i.id) (λ i. weigh (installed i)) m h.miners
          ids there in
      let same : weigh (stored (returned_item settings db id now u m)) ≡ weigh (installed m) =
        rw mine refl in
      omega (
        int_laws,
        ap pos_part more,
        ap neg_part more,
        ap pos_part less,
        ap neg_part less,
        ap pos_part same,
        ap neg_part same,
      )

  -- A request to take a machine out of a rack neither makes nor loses a machine, whatever it answers:
  -- any weight of the machines, summed over the racks and the inventory, stays as it was. No two
  -- installed machines share a key, and each rack's machine belongs to the user of the rack.
  pub uninstall_miner-owned :
      (id now u : ℕ) (rack_id : Option ℕ) (h : House) (weigh : Machine → ℤ)
      → HasUnique (λ (m : UserMiner). m.id) h.miners
      → All (HasOwnMiner h.miners) h.racks
      → owned weigh (uninstall_miner settings db id now u rack_id h).1 ≡ owned weigh h
  unfolding uninstall_miner
  uninstall_miner-owned id now u none h weigh ids own = refl
  uninstall_miner-owned id now u (some rack_id) h weigh ids own =
      elim (Option-cases (db.racks.find (λ r. r.id == rack_id && r.user_id == u) h.racks)) [
        | inl gone ↦ rw (gone, uninstall_miner) refl
        | inr (rack, there) ↦ elim (Option-cases rack.user_miner_id) [
          | inl empty ↦ rw (there, empty, uninstall_miner) refl
          | inr (j, full) ↦ elim (Option-cases (db.miners.find (λ m. m.id == j) h.miners)) [
            | inl lost ↦ rw (there, full, lost, uninstall_miner) refl
            | inr (m, known) ↦
                let (hit, _) = laws.racks.find_some _ _ _ there in
                let (same, member) = laws.miners.find_some _ _ _ known in
                let mine =
                  find-All db.racks laws.racks (HasOwnMiner h.miners) _ h.racks own there in
                let its = find-All db.miners laws.miners _ _ h.miners mine known in
                let placed : is_miner_in rack.user_miner_id m.id ≡ true = rw full (ground arith) in
                let user : m.user_id ≡ u = let q = its placed in ground arith in
                rw (there, full, known, uninstall_miner)
                  (take_from_rack-owned id now u rack m h weigh ids member user)
          ]
        ]
      ]
