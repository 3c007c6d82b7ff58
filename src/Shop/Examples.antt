-- ===== src/Shop/Examples.antt =====
-- A small shop on which the theorems are applied: one product, one customer, one order, one payment.
use electronic_shop.Cart.Service.{stock_of}
use electronic_shop.Cart.Service.Adding.{in_cart, add_item_outcome}
use electronic_shop.Base.{
  ℕ, ◌+◌, ◌≤◌, ◌≡◌, ◌↔◌, refl, true, none, some, List, [], ◌∷◌, map, arith, ◌==◌, if◌then◌else◌,
}
use electronic_shop.Base.Int.{pos, negsuc, ◌+ℤ◌, neg}
use electronic_shop.Base.Table.{lookup}
use electronic_shop.Base.Exec.{ok, err, conflict, internal_error, transaction}
use electronic_shop.Catalog.Models.{ProductInventory, Stock}
use electronic_shop.Catalog.Inventory.Calls
use electronic_shop.Wallet.Models.{Ledger}
use electronic_shop.Wallet.Service as WalletService
use electronic_shop.Wallet.Service.{apply, admin_debit, insert_wallet}
use electronic_shop.Base.Amount.{toman, has_part, before}
use electronic_shop.Wallet.Service.Shape.{balance_of}
use electronic_shop.Wallet.Service.Reconciled
use electronic_shop.Shop.Samples.{phone, customer, gateway, shop, ledger}
use electronic_shop.Shop.{Request, serve, handle, add_item, place_order, start_payment, call_back}
use electronic_shop.Shop.Sound.{IsSound}
use electronic_shop.Shop.Traces.{AreSafe, IsSafe, serve-IsSound}
use electronic_shop.Cart.Service

-- The stock and its services.

abbrev stock : Stock
stock = record {
  inventory = (1, record { stock_total = 5; stock_reserved = 2 }) ∷ [];
  history = [];
}

abbrev row : ProductInventory
row = record { stock_total = 5; stock_reserved = 2 }

stock_IsConsistent : Calls.IsConsistent stock
stock_IsConsistent = record { at = λ p r e. ground arith }

abbrev calls : List Calls.Call
calls =
    Calls.Call.reserving 1 2 "order" 9 none
    ∷ Calls.Call.reserving 1 9 "order" 10 none
    ∷ Calls.Call.committing 1 2 "order" 9 none
    ∷ Calls.Call.adjusting 1 (negsuc 0) (some 3)
    ∷ []

perform_all-IsConsistent_example :
    Calls.IsConsistent (Calls.perform_all calls stock)
    × ((c : Calls.Call)
        → ((Calls.perform c (Calls.perform_all calls stock)).0 ≡ err internal_error)
          ↔ (Calls.overdraws c (Calls.perform_all calls stock) ≡ true))
perform_all-IsConsistent_example = Calls.perform_all-IsConsistent calls stock stock_IsConsistent

perform_all-replay_example :
    Calls.replay stock.inventory (Calls.perform_all calls stock).history
    ≡ (Calls.perform_all calls stock).inventory
unfolding Calls.replay
perform_all-replay_example = Calls.perform_all-replay calls stock.inventory stock refl

-- The wallet.

ledger_IsReconciled : Reconciled.IsReconciled ledger
unfolding ◌+ℤ◌ neg
ledger_IsReconciled = record {
  balanced = λ u. ground arith;
  nonneg = λ u. ground arith;
  running = (refl, tt);
}

abbrev ledger_calls : List Reconciled.Call
ledger_calls =
    Reconciled.Call.depositing 7 (toman 40)
    ∷ Reconciled.Call.debiting 7 (toman 500) "correction" 3
    ∷ Reconciled.Call.refunding 8 (record { whole = 20; digits = 0 ∷ [] }) 100 3
    ∷ []

perform_all-IsReconciled_example :
    Reconciled.IsReconciled (Reconciled.perform_all ledger_calls ledger)
unfolding Reconciled.all_whole has_part
perform_all-IsReconciled_example =
    Reconciled.perform_all-IsReconciled ledger_calls ledger refl ledger_IsReconciled

-- Half a toman from a balance of ten: the balance stays, the entry says one.
abbrev ten : Ledger
ten = record { wallets = (7, record { balance = pos 10 }) ∷ []; transactions = [] }

abbrev half_debited : Ledger
half_debited = (admin_debit 7 (record { whole = 0; digits = 5 ∷ [] }) "half" 3 ten).1

half_debited_lem :
    (balance_of (lookup 7 half_debited.wallets) ≡ pos 10)
    × (map (λ t. t.amount) half_debited.transactions ≡ pos 1 ∷ [])
unfolding admin_debit apply WalletService.get_or_create insert_wallet ◌+ℤ◌ neg has_part before
half_debited_lem = (refl, refl)

-- The shop.

shop-IsSound : IsSound shop
shop-IsSound = record { covered = λ j. ground arith; fits = λ j. ground arith }

abbrev requests : List Request
requests =
    add_item 7 1 2
    ∷ place_order 100 7 none 10
    ∷ start_payment gateway 200 customer 100
    ∷ call_back gateway 55 true 11
    ∷ []

requests-AreSafe : AreSafe requests shop
unfolding AreSafe IsSafe transaction handle Service.add_item Service.get_or_create
requests-AreSafe = (tt, (refl, (tt, (tt, tt))))

serve-IsSound_example : IsSound (serve requests shop)
serve-IsSound_example = serve-IsSound requests shop requests-AreSafe shop-IsSound

add_item_outcome_example :
    let (r, d') = Service.add_item 7 1 2 shop in
    ((r ≡ ok tt) ↔ (2 + in_cart 7 1 shop ≤ stock_of 1 shop))
    × (r ≡ ok tt
        → (u j : ℕ)
        → in_cart u j d' ≡ (
            if u == 7
            then (if j == 1 then 2 + in_cart u j shop else in_cart u j shop)
            else in_cart u j shop))
    × (¬ (2 + in_cart 7 1 shop ≤ stock_of 1 shop)
        → (r ≡ err conflict) × ((u j : ℕ) → in_cart u j d' ≡ in_cart u j shop))
add_item_outcome_example = add_item_outcome 7 1 2 shop {product = phone} refl refl
