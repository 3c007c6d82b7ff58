-- ===== src/Catalog/Inventory/Calls.antt =====
-- Sequences of calls of InventoryService (modules/catalog/inventory_service.py), each in a transaction
-- of its own: the check constraints of product_inventory, and the log in inventory_history.
use electronic_shop.Base.{
  ℕ, ◌+◌, ◌-◌, ◌≤◌, String, ◌≡◌, ◌↔◌, Bool, true, false, Option, none, some, List, [], ◌∷◌, arith,
}
use electronic_shop.Base.Int.{ℤ, pos, pos_part, ltb_ℤ, ◌+ℤ◌}
use electronic_shop.Base.Table.{Table, lookup, insert, lookup-insert}
use electronic_shop.Base.Exec.{Exec, err, internal_error, transaction}
use electronic_shop.Catalog.Models.{InventoryChangeType, ProductInventory, InventoryHistory, Stock}
use electronic_shop.Catalog.Inventory.{
  reserve, release, commit_purchase, restock, adjust, locked_inventory,
}

-- A call of one of the five public methods, with its arguments.
pub data Call : Type 0 where
  reserving releasing committing : ℕ → ℕ → String → ℕ → Option ℕ → Call
  restocking adjusting : ℕ → ℤ → Option ℕ → Call

unfoldable pub perform : Call → Exec Stock (Unit {0})
unfolding reserve release commit_purchase restock adjust
perform (Call.reserving p q kind ref actor) = reserve p q kind ref actor
perform (Call.releasing p q kind ref actor) = release p q kind ref actor
perform (Call.committing p q kind ref actor) = commit_purchase p q kind ref actor
perform (Call.restocking p q actor) = restock p q actor
perform (Call.adjusting p delta actor) = adjust p delta actor

unfoldable pub perform_all : List Call → Stock → Stock
unfolding perform transaction
perform_all [] s = s
perform_all (c ∷ cs) s = perform_all cs (transaction (perform c) s).1

-- ck_inventory_reserved_le_total, in every row; the other two constraints hold of any natural.
pub record IsConsistent (s : Stock) : Type 0 where
  pub at :
      (p : ℕ) (row : ProductInventory)
      → lookup p s.inventory ≡ some row
      → row.stock_reserved ≤ row.stock_total

perform-IsConsistent : (c : Call) (s : Stock) → IsConsistent s → IsConsistent (perform c s).1
unfolding perform ◌+ℤ◌
perform-IsConsistent (Call.reserving p q kind ref actor) s h = record {
  at = λ j row e. grind (arith, lookup-insert, h.at);
}
perform-IsConsistent (Call.releasing p q kind ref actor) s h = record {
  at = λ j row e. grind (arith, lookup-insert, h.at);
}
perform-IsConsistent (Call.committing p q kind ref actor) s h = record {
  at = λ j row e. grind (arith, lookup-insert, h.at);
}
perform-IsConsistent (Call.restocking p q actor) s h = record {
  at = λ j row e. grind (arith, lookup-insert, h.at);
}
perform-IsConsistent (Call.adjusting p delta actor) s h = record {
  at = λ j row e. grind (arith, lookup-insert, h.at);
}

transaction-IsConsistent :
    (c : Call) (s : Stock) → IsConsistent s → IsConsistent (transaction (perform c) s).1
unfolding transaction
transaction-IsConsistent c s h = ground (arith, perform-IsConsistent c s h)

all-IsConsistent : (cs : List Call) (s : Stock) → IsConsistent s → IsConsistent (perform_all cs s)
unfolding perform_all
all-IsConsistent [] s h = h
all-IsConsistent (c ∷ cs) s h =
    all-IsConsistent cs (transaction (perform c) s).1 (transaction-IsConsistent c s h)

abbrev pub overdrawn : ℤ → Option ProductInventory → Bool
overdrawn quantity none = false
overdrawn quantity (some row) = ltb_ℤ (pos row.stock_total +ℤ quantity) (pos row.stock_reserved)

-- The call restocks a product by so little that less would be left than is reserved.
abbrev pub overdraws : Call → Stock → Bool
overdraws (Call.restocking p q actor) s = overdrawn q (lookup p s.inventory)
overdraws (Call.reserving p q kind ref actor) s = false
overdraws (Call.releasing p q kind ref actor) s = false
overdraws (Call.committing p q kind ref actor) s = false
overdraws (Call.adjusting p delta actor) s = false

constraint_fails :
    (c : Call) (s : Stock) → ((perform c s).0 ≡ err internal_error) ↔ (overdraws c s ≡ true)
unfolding perform locked_inventory
constraint_fails (Call.reserving p q kind ref actor) s = (λ e. ground arith, λ e. cc)
constraint_fails (Call.releasing p q kind ref actor) s = (λ e. ground arith, λ e. cc)
constraint_fails (Call.committing p q kind ref actor) s = (λ e. ground arith, λ e. cc)
constraint_fails (Call.restocking p q actor) s = (λ e. ground arith, λ e. ground arith)
constraint_fails (Call.adjusting p delta actor) s = (λ e. ground arith, λ e. cc)

-- From a stock in which no row has more reserved than it has in total, any sequence of reserve,
-- release, commit_purchase, restock and adjust calls, whatever their arguments, leads to such a
-- stock again. reserve, release, commit_purchase and adjust see to it themselves; the next call
-- fails on a check constraint of the database exactly where it restocks a product whose total would
-- fall below what is reserved.
pub perform_all-IsConsistent :
    (cs : List Call) (s : Stock)
    → IsConsistent s
    → IsConsistent (perform_all cs s)
      × ((c : Call)
          → ((perform c (perform_all cs s)).0 ≡ err internal_error)
            ↔ (overdraws c (perform_all cs s) ≡ true))
perform_all-IsConsistent cs s h =
    (all-IsConsistent cs s h, λ c. constraint_fails c (perform_all cs s))

-- What one history entry says happened to its product's row.
abbrev pub change : InventoryChangeType → ℤ → ProductInventory → ProductInventory
change InventoryChangeType.restock n row = record row {
  stock_total = pos_part (pos row.stock_total +ℤ n);
}
change InventoryChangeType.reserve n row = record row {
  stock_reserved = row.stock_reserved + pos_part n;
}
change InventoryChangeType.release n row = record row {
  stock_reserved = row.stock_reserved - pos_part n;
}
change InventoryChangeType.purchase n row = record {
  stock_total = row.stock_total - pos_part n;
  stock_reserved = row.stock_reserved - pos_part n;
}
change InventoryChangeType.adjust n row = record row {
  stock_total = pos_part (pos row.stock_total +ℤ n);
}

abbrev pub change_at :
    InventoryHistory → Option ProductInventory → Table ProductInventory → Table ProductInventory
change_at e none t = t
change_at e (some row) t = insert e.product_id (change e.change_type e.quantity row) t

-- The inventory that the log, newest entry first, describes on top of `base`.
unfoldable pub replay : Table ProductInventory → List InventoryHistory → Table ProductInventory
replay base [] = base
replay base (e ∷ es) = change_at e (lookup e.product_id (replay base es)) (replay base es)

perform-replay :
    (c : Call) (base : Table ProductInventory) (s : Stock)
    → replay base s.history ≡ s.inventory
    → replay base (perform c s).1.history ≡ (perform c s).1.inventory
unfolding perform replay
perform-replay (Call.reserving p q kind ref actor) base s h = ground arith
perform-replay (Call.releasing p q kind ref actor) base s h = ground arith
perform-replay (Call.committing p q kind ref actor) base s h = ground arith
perform-replay (Call.restocking p q actor) base s h = ground arith
perform-replay (Call.adjusting p delta actor) base s h = ground arith

transaction-replay :
    (c : Call) (base : Table ProductInventory) (s : Stock)
    → replay base s.history ≡ s.inventory
    → replay base (transaction (perform c) s).1.history ≡ (transaction (perform c) s).1.inventory
unfolding transaction
transaction-replay c base s h = ground (arith, perform-replay c base s h)

-- inventory_history is a complete log: where it accounts for the stock relative to a base, it
-- still does after any sequence of calls, that is, replaying the entries gives exactly the rows.
pub perform_all-replay :
    (cs : List Call) (base : Table ProductInventory) (s : Stock)
    → replay base s.history ≡ s.inventory
    → replay base (perform_all cs s).history ≡ (perform_all cs s).inventory
unfolding perform_all
perform_all-replay [] base s h = h
perform_all-replay (c ∷ cs) base s h =
    perform_all-replay cs base (transaction (perform c) s).1 (transaction-replay c base s h)
