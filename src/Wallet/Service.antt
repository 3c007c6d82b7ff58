-- ===== src/Wallet/Service.antt =====
-- backend/app/modules/wallet/service.py, class WalletService, over the queries of repository.py.
-- The Persian notes are written in English.
pub mod Shape
pub mod Reconciled
use electronic_shop.Base.{
  ℕ, suc, String, Bool, false, not, ◌||◌, Option, none, some, [], ◌∷◌, if◌then◌else◌, is_none, ltb,
  leb,
}
use electronic_shop.Base.Amount.{Decimal, first, has_part, before, rounded}
use electronic_shop.Base.Int.{ℤ, pos, neg, ◌+ℤ◌, ltb_ℤ}
use electronic_shop.Base.Table.{lookup, insert}
use electronic_shop.Base.Exec.{
  Exec, conflict, not_found, internal_error, pure, gets, or_raise, raise_if, modify, when, ◌>>=◌,
  ◌>>◌,
}
use electronic_shop.Wallet.Models.{
  WalletTransactionType, is_credit, Wallet, WalletTransaction, Ledger,
}

-- `INSERT … ON CONFLICT DO NOTHING` of an empty wallet.
unfoldable pub insert_wallet : ℕ → Ledger → Ledger
insert_wallet user_id s =
    if is_none (lookup user_id s.wallets)
    then record s { wallets = insert user_id (record { balance = pos 0 }) s.wallets }
    else s

-- The insert is skipped where the first query finds the wallet; the last query is followed by
-- `assert wallet is not None`.
unfoldable pub get_or_create : ℕ → Exec Ledger Wallet
unfolding insert_wallet
get_or_create user_id = do
  wallet ← gets (λ s. lookup user_id s.wallets)
  when (is_none wallet) (modify (insert_wallet user_id))
  or_raise (← gets (λ s. lookup user_id s.wallets)) internal_error

abbrev pub signed_amount : WalletTransactionType → ℤ → ℤ
signed_amount type amount = if is_credit type then amount else neg amount

-- `wallet.balance + signed_amount` of a whole balance and an amount of zero or more (the schemas ask for
-- `gt=0`): the whole number at or below it, and whether half a toman or more is left over.
abbrev pub whole_balance : WalletTransactionType → ℤ → Decimal → ℤ
whole_balance type balance amount =
    if is_credit type
    then balance +ℤ pos amount.whole
    else balance +ℤ neg (pos (if has_part amount.digits then suc amount.whole else amount.whole))

abbrev pub rounds_up : WalletTransactionType → Decimal → Bool
rounds_up type amount =
    if is_credit type
    then leb 5 (first amount.digits)
    else if has_part amount.digits
    then not (before (5 ∷ []) amount.digits)
    else false

-- NUMERIC(14, 0): a number is rounded to whole toman when it is stored, half a toman away from zero, and
-- one of more than fourteen digits is refused.
abbrev pub stored_balance : WalletTransactionType → ℤ → Decimal → ℤ
stored_balance type balance amount =
    whole_balance type balance amount +ℤ pos (if rounds_up type amount then 1 else 0)

abbrev pub numeric_limit : ℕ
numeric_limit = 100000000000000

abbrev pub overflows : ℤ → ℕ → Bool
overflows balance amount = not (ltb_ℤ balance (pos numeric_limit)) || not (ltb amount numeric_limit)

-- `WalletService._apply`. Rows are as the flush at its end stores them.
unfoldable pub apply :
    ℕ
    → WalletTransactionType
    → Decimal
    → Option String
    → Option ℕ
    → Option String
    → Option ℕ
    → Exec Ledger WalletTransaction
apply user_id type amount reference_type reference_id note actor_id = do
  get_or_create user_id
  wallet ← or_raise (← gets (λ s. lookup user_id s.wallets)) internal_error
  raise_if (ltb_ℤ (whole_balance type wallet.balance amount) (pos 0)) conflict
  let new_balance = stored_balance type wallet.balance amount
  raise_if (overflows new_balance (rounded amount)) internal_error
  let transaction : WalletTransaction = record {
    wallet_id = user_id;
    type = type;
    amount = pos (rounded amount);
    balance_after = new_balance;
    reference_type = reference_type;
    reference_id = reference_id;
    note = note;
    actor_id = actor_id;
  }
  modify λ s. record {
    wallets = insert user_id (record { balance = new_balance }) s.wallets;
    transactions = transaction ∷ s.transactions;
  }
  pure transaction

unfoldable pub deposit : ℕ → Decimal → Exec Ledger WalletTransaction
deposit user_id amount =
    apply user_id WalletTransactionType.deposit amount none none (some "wallet deposit") none

unfoldable pub refund_order : ℕ → Decimal → ℕ → ℕ → Exec Ledger WalletTransaction
refund_order user_id amount order_id actor_id =
    apply user_id WalletTransactionType.refund amount (some "order") (some order_id)
      (some "order refund") (some actor_id)

unfoldable pub admin_credit : ℕ → Decimal → String → ℕ → Exec Ledger WalletTransaction
admin_credit user_id amount reason actor_id =
    apply user_id WalletTransactionType.admin_credit amount none none (some reason) (some actor_id)

unfoldable pub admin_debit : ℕ → Decimal → String → ℕ → Exec Ledger WalletTransaction
admin_debit user_id amount reason actor_id =
    apply user_id WalletTransactionType.admin_debit amount none none (some reason) (some actor_id)

unfoldable pub get_wallet_or_404 : ℕ → Exec Ledger Wallet
get_wallet_or_404 user_id = do or_raise (← gets (λ s. lookup user_id s.wallets)) not_found
