-- ===== src/Shop/Purchase.antt =====
-- `purchaseMiner` (server/controllers/shopController.js), with `getActiveMinerById`
-- (server/models/minersModel.js). A request's miner id is none where it is no positive integer, and its
-- quantity, where a missing one is 1, is none where it is no integer from 0 on. The keys of the new
-- rows and the time are arguments. The notification changes nothing of the tables.
use support_block_miner.Database.{UserInventory}
use support_block_miner.Base.{
  none, some, zero, suc, ◌==◌, ◌+◌, ◌&&◌, ◌||◌, if◌then◌else◌, ℕ, not, String, Option, Bool, List,
  ltb,
}
use support_block_miner.Base.Int.{pos, ◌+ℤ◌, ℤ, scale, leb_ℤ, ltb_ℤ, neg}
use support_block_miner.Base.Http.{accepted, rejected, Response}
use support_block_miner.Engine.Numbers.{Numbers}
use support_block_miner.Rooms.State.{HouseDb, House}
use support_block_miner.Base.Table.{Table}
use support_block_miner.Rooms.Install.{slots_of}
use support_block_miner.Accounts.{charge}
use support_block_miner.Engine.Miners.{apply_user_balance_delta}

-- `model Miner`: a machine of the catalogue.
pub record CatalogMiner : Type 0 where
  pub id : ℕ
  pub name : String
  pub base_hash_rate : ℤ
  pub price : ℤ
  pub slot_size : ℕ
  pub image_url : Option String
  pub is_active : Bool
  pub show_in_shop : Bool
  pub in_faucet : Bool
  pub in_shortlink : Bool

abbrev pub default_image_url : String
default_image_url = "/machines/reward1.png"

-- `miner.imageUrl || DEFAULT_MINER_IMAGE_URL`
abbrev pub image_or_default : Option String → Option String
image_or_default none = some default_image_url
image_or_default (some url) = some url

-- The `where` of `getActiveMinerById`.
abbrev pub is_for_sale : ℕ → CatalogMiner → Bool
is_for_sale i m =
    m.id == i && m.is_active && m.show_in_shop && not m.in_faucet && not m.in_shortlink

module _ (n : Numbers ℤ) (db : HouseDb) (catalog_db : Table CatalogMiner) where
  abbrev pub new_item : ℕ → ℕ → ℕ → CatalogMiner → UserInventory
  new_item id now u m = record {
    id = id;
    user_id = u;
    miner_id = some m.id;
    miner_name = m.name;
    level = 1;
    hash_rate = m.base_hash_rate;
    slot_size = slots_of m.slot_size;
    image_url = image_or_default m.image_url;
    acquired_at = now;
    expires_at = none;
  }

  -- `createMany` of the items; the first has the key `id`.
  unfoldable pub create_items :
      ℕ → ℕ → ℕ → ℕ → CatalogMiner → List UserInventory → List UserInventory
  create_items zero id now u m items = items
  create_items (suc count) id now u m items =
      create_items count (id + 1) now u m (db.inventory.create (new_item id now u m) items)

  -- The `$transaction`, and the change in memory after it.
  unfoldable pub checkout : ℕ → ℕ → ℕ → CatalogMiner → ℕ → House → Response ℤ × House
  unfolding create_items
  checkout id now u m quantity h =
      let total = scale m.price quantity in
      elim (db.users.find (λ r. r.id == u) h.users) [
        | none ↦ (rejected 400 "Insufficient balance.", h)
        | some user ↦
            if ltb_ℤ user.pol_balance total then (rejected 400 "Insufficient balance.", h) else (
              accepted (user.pol_balance +ℤ neg total),
              record h {
                users = db.users.update (λ r. r.id == u) (charge total) h.users;
                inventory = create_items quantity id now u m h.inventory;
                engine = apply_user_balance_delta n u (neg total) h.engine;
              },
            )
      ]

  -- From the search in the catalogue on.
  unfoldable pub buy_miner : List CatalogMiner → ℕ → ℕ → ℕ → ℕ → ℕ → House → Response ℤ × House
  unfolding checkout
  buy_miner catalog id now u miner_id quantity h =
      elim (catalog_db.find (is_for_sale miner_id) catalog) [
        | none ↦ (rejected 404 "Miner not found.", h)
        | some m ↦
            if leb_ℤ m.price (pos 0) || leb_ℤ m.base_hash_rate (pos 0)
            then (rejected 500 "Miner data invalid.", h)
            else if ltb 2 (slots_of m.slot_size)
            then (rejected 500 "Miner slot size invalid.", h)
            else checkout id now u m quantity h
      ]

  -- `purchaseMiner(req, res)`: an accepted request answers the new balance.
  unfoldable pub purchase_miner :
      ℕ → List CatalogMiner → ℕ → ℕ → ℕ → Option ℕ → Option ℕ → House → Response ℤ × House
  unfolding buy_miner
  purchase_miner max_bulk catalog id now u none quantity h = (rejected 400 "Invalid miner ID.", h)
  purchase_miner max_bulk catalog id now u (some miner_id) none h =
      (rejected 400 "Quantity out of bounds.", h)
  purchase_miner max_bulk catalog id now u (some miner_id) (some quantity) h =
      if ltb quantity 1 || ltb max_bulk quantity
      then (rejected 400 "Quantity out of bounds.", h)
      else buy_miner catalog id now u miner_id quantity h
