-- ===== src/Auth/Accounts/Usernames.antt =====
-- The loop of `login_or_register_with_google` that looks for a free user name
-- (modules/auth/service.py).
use Prim.Native.String as Text
use text.Mathlib.TextLemmas.{append_cancel_left, append-nil}
use electronic_shop.Base.{
  ℕ, zero, suc, ◌≤◌, ◌<◌, String, ◌≡◌, ◌≢◌, refl, sym, ◌∙◌, inl, inr, Bool, false, Bool-cases, none,
  some, [], ◌∷◌, same_text, same_text-eq, decimal, decimal_injective, decimal_nonempty,
  if◌then◌else◌, is_none, length, arith,
}
use electronic_shop.Base.Table.{Table}
use electronic_shop.Auth.Models.{Account}
use electronic_shop.Auth.Accounts.{get_by_username, candidate, free_username}

candidate-zero_suc : (base : String) (n : ℕ) → candidate base 0 ≢ candidate base (suc n)
unfolding candidate
candidate-zero_suc base n e =
    decimal_nonempty n
      (sym (append_cancel_left base Text.[] (decimal (suc n)) (append-nil base ∙ e)))

-- Different suffixes give different user names.
pub candidate_injective : (base : String) (m n : ℕ) → candidate base m ≡ candidate base n → m ≡ n
unfolding candidate
candidate_injective base zero zero e = refl
candidate_injective base zero (suc n) e = absurd (candidate-zero_suc base n e)
candidate_injective base (suc m) zero e = absurd (candidate-zero_suc base m (sym e))
candidate_injective base (suc m) (suc n) e =
    decimal_injective (suc m) (suc n)
      (append_cancel_left base (decimal (suc m)) (decimal (suc n)) e)

-- The users but for those of one name.
without : String → Table Account → Table Account
without name [] = []
without name ((id, user) ∷ rest) =
    let others = without name rest in
    if same_text user.username name then others else (id, user) ∷ others

abbrev is_free : String → Table Account → Bool
is_free name users = is_none (get_by_username name users)

length-without_le : (name : String) (t : Table Account) → length (without name t) ≤ length t
unfolding without
length-without_le name [] = omega arith
length-without_le name ((id, user) ∷ t) = ground (arith, length-without_le name t)

length-without :
    (name : String) (t : Table Account)
    → is_free name t ≡ false
    → length (without name t) < length t
unfolding without get_by_username
length-without name [] h = cc
length-without name ((id, user) ∷ t) h =
    ground (arith, length-without name t, length-without_le name t)

is_free-without :
    (name other : String) (t : Table Account)
    → name ≢ other
    → is_free other (without name t) ≡ is_free other t
unfolding without get_by_username
is_free-without name other [] h = refl
is_free-without name other ((id, user) ∷ t) h = ground (
  arith,
  is_free-without name other t,
  same_text-eq user.username name,
  same_text-eq user.username other,
)

-- The first free one of the names from a suffix on, with the users whose name was tried taken away.
free_username-without :
    (fuel : ℕ) (base : String) (suffix i : ℕ) (t : Table Account)
    → i < suffix
    → free_username fuel base suffix (without (candidate base i) t)
      ≡ free_username fuel base suffix t
unfolding free_username
free_username-without zero base suffix i t h = refl
free_username-without (suc fuel) base suffix i t h =
    let other : candidate base i ≢ candidate base suffix =
      λ e. omega (arith, candidate_injective base i suffix e) in
    cc (
      is_free-without (candidate base i) (candidate base suffix) t other,
      free_username-without fuel base (suc suffix) i t (omega arith),
    )

free_username_returns :
    (fuel : ℕ) (base : String) (suffix : ℕ) (t : Table Account)
    → length t < fuel
    → (name : String) × (free_username fuel base suffix t ≡ some name)
unfolding free_username
free_username_returns zero base suffix t h = absurd (omega arith)
free_username_returns (suc fuel) base suffix t h =
    elim (Bool-cases (is_free (candidate base suffix) t)) [
      | inl free ↦ (candidate base suffix, rw free refl)
      | inr taken ↦
          let tried = candidate base suffix in
          let fewer = length-without tried t taken in
          let (name, e) =
            free_username_returns fuel base (suc suffix) (without tried t) (omega (arith, fewer)) in
          (
            name,
            rw taken
                (sym (free_username-without fuel base (suc suffix) suffix t (omega arith)) ∙ e),
          )
    ]

free_username_free :
    (fuel : ℕ) (base : String) (suffix : ℕ) (t : Table Account) (name : String)
    → free_username fuel base suffix t ≡ some name
    → get_by_username name t ≡ none
unfolding free_username
free_username_free zero base suffix t name h = cc
free_username_free (suc fuel) base suffix t name h =
    ground (arith, free_username_free fuel base (suc suffix) t name)

-- The loop that looks for a user name ends, within one round more than there are users, and the name it
-- finds is free.
pub username_found :
    (base : String) (t : Table Account)
    → (name : String) × (free_username (suc (length t)) base 0 t ≡ some name)
      × (get_by_username name t ≡ none)
username_found base t =
    let (name, e) = free_username_returns (suc (length t)) base 0 t (omega arith) in
    (name, e, free_username_free (suc (length t)) base 0 t name e)
