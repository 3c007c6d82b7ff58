-- ===== src/Payments/Service/Lookup.antt =====
-- `get_by_authority` of modules/payments/repository.py, in a table without repeated keys.
use electronic_shop.Base.{ℕ, ◌≡◌, ◌≢◌, inl, inr, Bool-cases, true, none, some, [], ◌∷◌, arith}
use electronic_shop.Base.Table.{Table, lookup, insert, IsKeyed}
use electronic_shop.Payments.Models.{Payment}
use electronic_shop.Payments.Service.{get_by_authority, has_authority}

module _ (authority payment_id : ℕ) (payment : Payment) where
  pub found_has_authority :
      (t : Table Payment)
      → get_by_authority authority t ≡ some (payment_id, payment)
      → has_authority authority payment.authority ≡ true
  unfolding get_by_authority
  found_has_authority [] h = cc
  found_has_authority ((k, p) ∷ t) h = elim (Bool-cases (has_authority authority p.authority)) [
    | inl e ↦ ground arith
    | inr e ↦ found_has_authority t (rw e at h)
  ]

  found_below :
      (k : ℕ) (t : Table Payment)
      → lookup k t ≡ none
      → get_by_authority authority t ≡ some (payment_id, payment)
      → payment_id ≢ k
  unfolding get_by_authority
  found_below k [] n h = cc
  found_below k ((j, p) ∷ t) n h = ground (arith, found_below k t)

  pub lookup_found :
      (t : Table Payment)
      → IsKeyed t
      → get_by_authority authority t ≡ some (payment_id, payment)
      → lookup payment_id t ≡ some payment
  unfolding get_by_authority
  lookup_found [] k h = cc
  lookup_found ((j, p) ∷ t) k h = ground (arith, lookup_found t k.1, found_below j t k.0)

  -- The payment is found after its row has been written, if it keeps its authority.
  pub found_written :
      (payment' : Payment) (t : Table Payment)
      → IsKeyed t
      → payment'.authority ≡ payment.authority
      → get_by_authority authority t ≡ some (payment_id, payment)
      → get_by_authority authority (insert payment_id payment' t) ≡ some (payment_id, payment')
  unfolding get_by_authority
  found_written payment' [] k same h = cc
  found_written payment' ((j, p) ∷ t) k same h = ground (
    arith,
    found_written payment' t k.1 same,
    found_below j t k.0,
    found_has_authority ((j, p) ∷ t) h,
  )

-- A payment without an authority is found by none, and one with an unknown authority by it.
pub unknown_written :
    (authority payment_id : ℕ) (payment : Payment) (t : Table Payment)
    → payment.authority ≡ none
    → get_by_authority authority t ≡ none
    → get_by_authority authority (insert payment_id payment t) ≡ none
unfolding get_by_authority
unknown_written authority payment_id payment [] without unknown = ground arith
unknown_written authority payment_id payment ((j, p) ∷ t) without unknown =
    ground (arith, unknown_written authority payment_id payment t without)

pub found_new :
    (authority payment_id : ℕ) (payment : Payment) (t : Table Payment)
    → payment.authority ≡ some authority
    → get_by_authority authority t ≡ none
    → get_by_authority authority (insert payment_id payment t) ≡ some (payment_id, payment)
unfolding get_by_authority
found_new authority payment_id payment [] given unknown = ground arith
found_new authority payment_id payment ((j, p) ∷ t) given unknown =
    ground (arith, found_new authority payment_id payment t given)
