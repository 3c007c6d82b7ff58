-- ===== src/Wallet/Models.antt =====
-- backend/app/modules/wallet/models.py. A user has at most one wallet (`user_id` is unique), so the
-- table of wallets is keyed by the user and a transaction names its wallet by the user. Amounts are
-- whole toman, as the columns store them; the identifiers and creation times of transactions are left out.
use electronic_shop.Base.{ℕ, String, Bool, true, false, Option, List}
use electronic_shop.Base.Int.{ℤ}
use electronic_shop.Base.Table.{Table}

pub data WalletTransactionType : Type 0 where
  deposit purchase refund admin_credit admin_debit : WalletTransactionType

-- `type_ in CREDIT_TYPES`; the other types are DEBIT_TYPES.
abbrev pub is_credit : WalletTransactionType → Bool
is_credit WalletTransactionType.deposit = true
is_credit WalletTransactionType.refund = true
is_credit WalletTransactionType.admin_credit = true
is_credit WalletTransactionType.purchase = false
is_credit WalletTransactionType.admin_debit = false

pub record Wallet : Type 0 where
  pub balance : ℤ

pub record WalletTransaction : Type 0 where
  pub wallet_id : ℕ
  pub type : WalletTransactionType
  pub amount : ℤ
  pub balance_after : ℤ
  pub reference_type : Option String
  pub reference_id : Option ℕ
  pub note : Option String
  pub actor_id : Option ℕ

-- The two tables of the module; the newest transaction comes first.
pub record Ledger : Type 0 where
  pub wallets : Table Wallet
  pub transactions : List WalletTransaction
