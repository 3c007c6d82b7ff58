-- ===== src/Catalog/Inventory.antt =====
-- backend/app/modules/catalog/inventory_service.py, class InventoryService. The row lock of
-- `lock_for_update` is the reason why a method is one step of the model.
-- `available < quantity` is tested as `total < reserved + quantity`, which is the same over
-- Python's integers; `max(0, a - b)` of two numbers is the truncated `a - b`.
pub mod Calls
pub mod Reservation
pub mod Reserved
use electronic_shop.Base.{ℕ, ◌+◌, ◌-◌, String, Bool, Option, none, some, ◌∷◌, ltb, if◌then◌else◌}
use electronic_shop.Base.Int.{ℤ, pos, ◌+ℤ◌, ltb_ℤ, pos_part}
use electronic_shop.Base.Table.{lookup, insert}
use electronic_shop.Base.Exec.{
  Exec, conflict, not_found, internal_error, gets, or_raise, raise_if, modify, ◌>>=◌, ◌>>◌,
}
use electronic_shop.Catalog.Models.{InventoryChangeType, ProductInventory, InventoryHistory, Stock}

unfoldable pub locked_inventory : ℕ → Exec Stock ProductInventory
locked_inventory product_id = do or_raise (← gets (λ s. lookup product_id s.inventory)) not_found

-- Both writes of a method: the row and its history entry.
abbrev pub write : ProductInventory → InventoryHistory → Stock → Stock
write row entry s = record s {
  inventory = insert entry.product_id row s.inventory;
  history = entry ∷ s.history;
}

unfoldable pub reserve : ℕ → ℕ → String → ℕ → Option ℕ → Exec Stock (Unit {0})
unfolding locked_inventory
reserve product_id quantity reference_type reference_id actor_id = do
  inventory ← locked_inventory product_id
  raise_if (ltb inventory.stock_total (inventory.stock_reserved + quantity)) conflict
  modify (
      write (record inventory { stock_reserved = inventory.stock_reserved + quantity })
        (record {
          product_id = product_id;
          change_type = InventoryChangeType.reserve;
          quantity = pos quantity;
          reference_type = some reference_type;
          reference_id = some reference_id;
          actor_id = actor_id;
        }))

unfoldable pub release : ℕ → ℕ → String → ℕ → Option ℕ → Exec Stock (Unit {0})
unfolding locked_inventory
release product_id quantity reference_type reference_id actor_id = do
  inventory ← locked_inventory product_id
  modify (
      write (record inventory { stock_reserved = inventory.stock_reserved - quantity })
        (record {
          product_id = product_id;
          change_type = InventoryChangeType.release;
          quantity = pos quantity;
          reference_type = some reference_type;
          reference_id = some reference_id;
          actor_id = actor_id;
        }))

unfoldable pub commit_purchase : ℕ → ℕ → String → ℕ → Option ℕ → Exec Stock (Unit {0})
unfolding locked_inventory
commit_purchase product_id quantity reference_type reference_id actor_id = do
  inventory ← locked_inventory product_id
  modify (
      write
        (record inventory {
          stock_total = inventory.stock_total - quantity;
          stock_reserved = inventory.stock_reserved - quantity;
        })
        (record {
          product_id = product_id;
          change_type = InventoryChangeType.purchase;
          quantity = pos quantity;
          reference_type = some reference_type;
          reference_id = some reference_id;
          actor_id = actor_id;
        }))

-- The check constraints of product_inventory on a row that is flushed with this total: a total that is
-- negative or below `stock_reserved` is refused by the database, which the handler for unexpected
-- errors reports.
abbrev pub flush_total : ℤ → ProductInventory → Exec Stock (Unit {0})
flush_total new_total inventory =
    raise_if (ltb_ℤ new_total (pos inventory.stock_reserved)) internal_error

-- The method itself has no guard, and the router passes the client's `delta` on unchecked, so that
-- `quantity` is any integer: it is the flush that may fail.
unfoldable pub restock : ℕ → ℤ → Option ℕ → Exec Stock (Unit {0})
unfolding locked_inventory
restock product_id quantity actor_id = do
  inventory ← locked_inventory product_id
  let new_total = pos inventory.stock_total +ℤ quantity
  flush_total new_total inventory
  modify (
      write (record inventory { stock_total = pos_part new_total })
        (record {
          product_id = product_id;
          change_type = InventoryChangeType.restock;
          quantity = quantity;
          reference_type = some "admin_restock";
          reference_id = none;
          actor_id = actor_id;
        }))

-- `new_total` is an integer until the test has shown that it is at least `stock_reserved`.
unfoldable pub adjust : ℕ → ℤ → Option ℕ → Exec Stock (Unit {0})
unfolding locked_inventory
adjust product_id delta actor_id = do
  inventory ← locked_inventory product_id
  let new_total = pos inventory.stock_total +ℤ delta
  raise_if (ltb_ℤ new_total (pos inventory.stock_reserved)) conflict
  modify (
      write (record inventory { stock_total = pos_part new_total })
        (record {
          product_id = product_id;
          change_type = InventoryChangeType.adjust;
          quantity = delta;
          reference_type = some "admin_adjust";
          reference_id = none;
          actor_id = actor_id;
        }))
