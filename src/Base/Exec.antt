-- ===== src/Base/Exec.antt =====
-- Methods that read and write the session's rows and may raise an `AppError`. What was written
-- before a raise stays in the session, so the state comes back beside the error too; `transaction`
-- is what a request makes of it.
use electronic_shop.Base.Tests.{if◌then◌else◌}
use mathlib.Core.Bool.{Bool, true, false}
use mathlib.Core.Path.{◌≡◌, refl}
use mathlib.Core.Logic.{◌⊎◌, inl, inr}
use mathlib.Core.Option.{Option, none, some}

-- The error classes of common/errors.py and common/idempotency.py, and the exceptions that reach
-- the handler for unexpected errors.
pub data AppError : Type 0 where
  not_found permission_denied conflict unauthorized : AppError
  idempotency_key_required idempotency_key_reused : AppError
  gateway_error internal_error : AppError

pub data Result {ℓ} (A : Type ℓ) : Type ℓ where
  ok : A → Result A
  err : AppError → Result A

abbrev pub Exec : Type 0 → Type 0 → Type 0
Exec S A = S → Result A × S

module _ {S A : Type 0} where
  abbrev pub pure : A → Exec S A
  pure a s = (ok a, s)

  abbrev pub raise : AppError → Exec S A
  raise e s = (err e, s)

  abbrev pub gets : (S → A) → Exec S A
  gets f s = (ok (f s), s)

  abbrev pub or_raise : Option A → AppError → Exec S A
  or_raise none e s = (err e, s)
  or_raise (some a) e s = (ok a, s)

module _ {S : Type 0} where
  abbrev pub raise_if : Bool → AppError → Exec S (Unit {0})
  raise_if b e s = (if b then err e else ok tt, s)

  abbrev pub modify : (S → S) → Exec S (Unit {0})
  modify f s = (ok tt, f s)

  abbrev pub when : Bool → Exec S (Unit {0}) → Exec S (Unit {0})
  when true m s = m s
  when false m s = (ok tt, s)

module _ {S A B : Type 0} where
  infixl 10 ◌>>=◌ ◌>>◌
  abbrev pub ◌>>=◌ : Exec S A → (A → Exec S B) → Exec S B
  ◌>>=◌ m f s = let (r, s') = m s in elim r [ ok a ↦ f a s' | err e ↦ (err e, s') ]

  abbrev pub ◌>>◌ : Exec S A → Exec S B → Exec S B
  m >> k = m >>= λ _. k

-- A service that works on one part of the state.
abbrev pub zoom : {S T A : Type 0} → (S → T) → (T → S → S) → Exec T A → Exec S A
zoom get put m s = let (r, t) = m (get s) in (r, put t s)

-- A request: its session is committed when the handler returns and rolled back when it raises.
unfoldable pub transaction : {S A : Type 0} → Exec S A → Exec S A
transaction m s = let (r, s') = m s in elim r [ ok a ↦ (ok a, s') | err e ↦ (err e, s) ]

pub Result-cases {ℓ} :
    {A : Type ℓ} (r : Result A) → ((e : AppError) × (r ≡ err e)) ⊎ ((a : A) × (r ≡ ok a))
Result-cases (ok a) = inr (a, refl)
Result-cases (err e) = inl (e, refl)

-- What a method leaves where it returns, and what was there before, is what its request leaves.
pub transaction_rule {ℓ} :
    {S A : Type 0} (P : S → Type ℓ) (m : Exec S A) (s : S)
    → P s
    → ((a : A) → (m s).0 ≡ ok a → P (m s).1)
    → P (transaction m s).1
unfolding transaction
transaction_rule P m s h k = elim (Result-cases (m s).0) [
  | inl (x, e) ↦ rw (e, transaction) h
  | inr (a, e) ↦ rw (e, transaction) (k a e)
]
