-- ===== src/Wallet/Service/Reconciled.antt =====
-- Sequences of the requests of modules/wallet: the balances against the sums of the ledger entries.
use electronic_shop.Base.{
  ℕ, String, ◌≡◌, inl, inr, Bool, true, false, not, ◌&&◌, Bool-cases, Option, List, [], ◌∷◌, arith,
  ◌==◌, if◌then◌else◌,
}
use electronic_shop.Base.Int.{ℤ, pos, ◌+ℤ◌, ◌≤ℤ◌, ltb_ℤ}
use electronic_shop.Base.Table.{lookup, lookup-insert}
use electronic_shop.Base.Exec.{Exec, transaction, pure, ◌>>◌}
use electronic_shop.Wallet.Models.{WalletTransactionType, WalletTransaction, Ledger}
use electronic_shop.Wallet.Service.{
  apply, insert_wallet, get_or_create, deposit, refund_order, admin_credit, admin_debit,
  signed_amount, overflows,
}
use electronic_shop.Base.Amount.{Decimal, has_part}
use electronic_shop.Wallet.Service.Shape.{
  balance_of, new_balance, apply_lem, get_or_create_lem, balance-insert_wallet,
  transactions-insert_wallet,
}

-- The requests that reach the wallet service; `opening` is a read, which creates a missing wallet.
pub data Call : Type 0 where
  opening : ℕ → Call
  depositing : ℕ → Decimal → Call
  refunding : ℕ → Decimal → ℕ → ℕ → Call
  crediting debiting : ℕ → Decimal → String → ℕ → Call

abbrev done : {A : Type 0} → Exec Ledger A → Exec Ledger (Unit {0})
done m = m >> pure tt

state-done : {A : Type 0} (m : Exec Ledger A) (s : Ledger) → (done m s).1 ≡ (m s).1
state-done m s = ground arith

unfoldable pub perform : Call → Exec Ledger (Unit {0})
perform (Call.opening u) = done (get_or_create u)
perform (Call.depositing u n) = done (deposit u n)
perform (Call.refunding u n order actor) = done (refund_order u n order actor)
perform (Call.crediting u n reason actor) = done (admin_credit u n reason actor)
perform (Call.debiting u n reason actor) = done (admin_debit u n reason actor)

unfoldable pub perform_all : List Call → Ledger → Ledger
perform_all [] s = s
perform_all (c ∷ cs) s = perform_all cs (transaction (perform c) s).1

-- The request's amount is one of whole toman.
abbrev pub is_whole : Call → Bool
is_whole (Call.opening u) = true
is_whole (Call.depositing u n) = not (has_part n.digits)
is_whole (Call.refunding u n order actor) = not (has_part n.digits)
is_whole (Call.crediting u n reason actor) = not (has_part n.digits)
is_whole (Call.debiting u n reason actor) = not (has_part n.digits)

unfoldable pub all_whole : List Call → Bool
all_whole [] = true
all_whole (c ∷ cs) = is_whole c && all_whole cs

-- The sum of a user's ledger entries: deposits, refunds and credits count as they are, the others
-- negated.
abbrev pub ledger_sum : ℕ → List WalletTransaction → ℤ
ledger_sum u [] = pos 0
ledger_sum u (t ∷ ts) =
    if t.wallet_id == u then ledger_sum u ts +ℤ signed_amount t.type t.amount else ledger_sum u ts

-- Every entry states the sum of its wallet's entries up to itself.
abbrev pub IsRunning : List WalletTransaction → Type 0
IsRunning [] = Unit
IsRunning (t ∷ ts) = (t.balance_after ≡ ledger_sum t.wallet_id (t ∷ ts)) × IsRunning ts

pub record IsReconciled (s : Ledger) : Type 0 where
  pub balanced : (u : ℕ) → balance_of (lookup u s.wallets) ≡ ledger_sum u s.transactions
  pub nonneg : (u : ℕ) → pos 0 ≤ℤ balance_of (lookup u s.wallets)
  pub running : IsRunning s.transactions

insert_wallet-IsReconciled :
    (u : ℕ) (s : Ledger) → IsReconciled s → IsReconciled (insert_wallet u s)
insert_wallet-IsReconciled u s h = record {
  balanced = λ j. rw (balance-insert_wallet u j s, transactions-insert_wallet u s) (h.balanced j);
  nonneg = λ j. rw (balance-insert_wallet u j s) (h.nonneg j);
  running = rw (transactions-insert_wallet u s) h.running;
}

apply-IsReconciled :
    (u : ℕ) (type : WalletTransactionType) (n : Decimal) (kind : Option String) (ref : Option ℕ)
    (note : Option String) (actor : Option ℕ) (s : Ledger)
    → has_part n.digits ≡ false
    → IsReconciled s
    → IsReconciled (apply u type n kind ref note actor s).1
apply-IsReconciled u type n kind ref note actor s whole h =
    elim (Bool-cases (ltb_ℤ target (pos 0))) [
      | inl short ↦
          rw (apply_lem u type n kind ref note actor s whole, short)
            (insert_wallet-IsReconciled u s h)
      | inr covered ↦ elim (Bool-cases (overflows target n.whole)) [
        | inl large ↦
            rw (apply_lem u type n kind ref note actor s whole, covered, large)
              (insert_wallet-IsReconciled u s h)
        | inr fits ↦
            rw (apply_lem u type n kind ref note actor s whole, covered, fits)
              (record {
                balanced = λ j. ground (
                  arith,
                  lookup-insert u j (record { balance = target }) (insert_wallet u s).wallets,
                  balance-insert_wallet u j s,
                  h.balanced j,
                );
                nonneg = λ j. ground (
                  arith,
                  lookup-insert u j (record { balance = target }) (insert_wallet u s).wallets,
                  balance-insert_wallet u j s,
                  h.nonneg j,
                );
                running = (ground (arith, h.balanced u), h.running);
              })
      ]
    ]
  where
    target : ℤ
    target = new_balance u type (pos n.whole) kind ref note actor s

perform-IsReconciled :
    (c : Call) (s : Ledger) → is_whole c ≡ true → IsReconciled s → IsReconciled (perform c s).1
unfolding perform deposit refund_order admin_credit admin_debit
perform-IsReconciled (Call.opening u) s whole h =
    rw state-done (rw (get_or_create_lem u s) (insert_wallet-IsReconciled u s h))
perform-IsReconciled (Call.depositing u n) s whole h =
    rw state-done (apply-IsReconciled u _ n _ _ _ _ s (ground arith) h)
perform-IsReconciled (Call.refunding u n order actor) s whole h =
    rw state-done (apply-IsReconciled u _ n _ _ _ _ s (ground arith) h)
perform-IsReconciled (Call.crediting u n reason actor) s whole h =
    rw state-done (apply-IsReconciled u _ n _ _ _ _ s (ground arith) h)
perform-IsReconciled (Call.debiting u n reason actor) s whole h =
    rw state-done (apply-IsReconciled u _ n _ _ _ _ s (ground arith) h)

-- In a ledger where every balance is the sum of the user's entries, none is negative and every
-- entry states the running sum, all this holds again after any sequence of wallet reads, deposits,
-- refunds, credits and debits of whole toman, each in a transaction of its own.
pub perform_all-IsReconciled :
    (cs : List Call) (s : Ledger)
    → all_whole cs ≡ true
    → IsReconciled s
    → IsReconciled (perform_all cs s)
unfolding perform_all transaction all_whole
perform_all-IsReconciled [] s whole h = h
perform_all-IsReconciled (c ∷ cs) s whole h =
    perform_all-IsReconciled cs (transaction (perform c) s).1 (ground arith)
      (ground (arith, perform-IsReconciled c s (ground arith) h))
