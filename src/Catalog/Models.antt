-- ===== src/Catalog/Models.antt =====
-- The rows of backend/app/modules/catalog/models.py. A table is keyed by its primary key, so a row
-- does not repeat it. The timestamps that the database fills in are left out.
use electronic_shop.Base.{ℕ, String, Bool, Option, List}
use electronic_shop.Base.Int.{ℤ}
use electronic_shop.Base.Table.{Table}

pub data InventoryChangeType : Type 0 where
  restock reserve release purchase adjust : InventoryChangeType

pub record Category : Type 0 where
  pub parent_id : Option ℕ
  pub name : String
  pub slug : String
  pub is_active : Bool
  pub sort_order : ℤ

pub record Product : Type 0 where
  pub sku : String
  pub name : String
  pub slug : String
  pub short_description : String
  pub description : String
  pub price : ℕ
  pub discount_price : Option ℕ
  pub brand : String
  pub category_id : ℕ
  pub images : Option (List String)
  pub specifications : Option (List (String × String))
  pub is_active : Bool
  pub is_featured : Bool
  pub is_popular : Bool

pub record ProductInventory : Type 0 where
  pub stock_total : ℕ
  pub stock_reserved : ℕ

pub record InventoryHistory : Type 0 where
  pub product_id : ℕ
  pub change_type : InventoryChangeType
  pub quantity : ℤ
  pub reference_type : Option String
  pub reference_id : Option ℕ
  pub actor_id : Option ℕ

-- What the inventory service works on: product_inventory by product, and inventory_history with
-- the newest entry first.
pub record Stock : Type 0 where
  pub inventory : Table ProductInventory
  pub history : List InventoryHistory
