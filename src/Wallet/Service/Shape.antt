-- ===== src/Wallet/Service/Shape.antt =====
-- The normal form of `_apply` (modules/wallet/service.py), for proofs that keep it shut.
use electronic_shop.Base.{
  ℕ, String, ◌≡◌, inl, inr, false, Option, none, some, ◌∷◌, arith, if◌then◌else◌, Option-cases,
}
use electronic_shop.Base.Int.{ℤ, pos, ◌+ℤ◌, ltb_ℤ}
use electronic_shop.Base.Table.{lookup, insert, lookup-insert}
use electronic_shop.Base.Exec.{Result, ok, err, conflict, internal_error, or_raise}
use electronic_shop.Wallet.Models.{WalletTransactionType, WalletTransaction, Wallet, Ledger}
use electronic_shop.Wallet.Service.{
  insert_wallet, get_or_create, apply, signed_amount, whole_balance, stored_balance, overflows,
}
use electronic_shop.Base.Amount.{Decimal, has_part, rounded_whole}

-- A user without a wallet has nothing.
abbrev pub balance_of : Option Wallet → ℤ
balance_of none = pos 0
balance_of (some w) = w.balance

pub lookup-insert_wallet :
    (u : ℕ) (s : Ledger)
    → lookup u (insert_wallet u s).wallets
      ≡ some (record { balance = balance_of (lookup u s.wallets) })
unfolding insert_wallet
lookup-insert_wallet u s = grind (arith, lookup-insert)

pub balance-insert_wallet :
    (u j : ℕ) (s : Ledger)
    → balance_of (lookup j (insert_wallet u s).wallets) ≡ balance_of (lookup j s.wallets)
unfolding insert_wallet
balance-insert_wallet u j s = grind (arith, lookup-insert)

pub transactions-insert_wallet :
    (u : ℕ) (s : Ledger) → (insert_wallet u s).transactions ≡ s.transactions
unfolding insert_wallet
transactions-insert_wallet u s = ground arith

pub get_or_create_lem :
    (u : ℕ) (s : Ledger)
    → get_or_create u s
      ≡ (ok (record { balance = balance_of (lookup u s.wallets) }), insert_wallet u s)
unfolding get_or_create
get_or_create_lem u s = elim (Option-cases (lookup u s.wallets)) [
  | inl e ↦ rw e (grind (arith, lookup-insert))
  | inr (w, e) ↦ rw e (rw (e, or_raise))
]

module _ (user_id : ℕ) (type : WalletTransactionType) (amount : ℤ) (kind : Option String)
    (reference : Option ℕ) (note : Option String) (actor : Option ℕ) (s : Ledger) where
  abbrev pub new_balance : ℤ
  new_balance = balance_of (lookup user_id s.wallets) +ℤ signed_amount type amount

  abbrev pub entry : WalletTransaction
  entry = record {
    wallet_id = user_id;
    type = type;
    amount = amount;
    balance_after = new_balance;
    reference_type = kind;
    reference_id = reference;
    note = note;
    actor_id = actor;
  }

-- The sum of a whole amount has no part.
whole_sums :
    (type : WalletTransactionType) (balance : ℤ) (amount : Decimal)
    → has_part amount.digits ≡ false
    → (whole_balance type balance amount ≡ balance +ℤ signed_amount type (pos amount.whole))
      × (stored_balance type balance amount ≡ balance +ℤ signed_amount type (pos amount.whole))
unfolding ◌+ℤ◌
whole_sums type balance amount whole =
    (ground (arith, rounded_whole amount whole), ground (arith, rounded_whole amount whole))

module _ (user_id : ℕ) (type : WalletTransactionType) (amount : Decimal) (kind : Option String)
    (reference : Option ℕ) (note : Option String) (actor : Option ℕ) (s : Ledger) where
  abbrev pub written : WalletTransaction
  written = entry user_id type (pos amount.whole) kind reference note actor s

  abbrev pub applied : Result WalletTransaction × Ledger
  applied =
      if ltb_ℤ written.balance_after (pos 0)
      then (err conflict, insert_wallet user_id s)
      else (if overflows written.balance_after amount.whole
          then (err internal_error, insert_wallet user_id s)
          else (
            ok written,
            record {
              wallets =
                  insert user_id (record { balance = written.balance_after })
                    (insert_wallet user_id s).wallets;
              transactions = written ∷ s.transactions;
            },
          ))

  pub apply_lem :
      has_part amount.digits ≡ false
      → apply user_id type amount kind reference note actor s ≡ applied
  unfolding apply
  apply_lem whole =
      let sums = whole_sums type (balance_of (lookup user_id s.wallets)) amount whole in
      ground (
        arith,
        get_or_create_lem user_id s,
        lookup-insert_wallet user_id s,
        transactions-insert_wallet user_id s,
        rounded_whole amount whole,
      )
