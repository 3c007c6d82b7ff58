-- ===== src/Base/Decimal.antt =====
-- Numbers written in decimal.
use Prim.Native.Nat.{ℕ, zero, suc, ◌+◌, ◌-◌, ◌*◌, ◌/◌, ◌%◌, ◌≤◌, ◌<◌}
use Prim.Native.Char.{Char, code}
use Prim.Native.String.{String, ◌++◌}
use mathlib.Core.Path.{◌≡◌, refl, ap}
use mathlib.Core.Logic.{◌≢◌, inl, inr}
use native.Mathlib.Omega.{arith}
use text.Mathlib.TextLemmas.{nil-append, cons-append}
use electronic_shop.Base.Tests.{ltb, ◌==◌, if◌then◌else◌, Bool-cases}

-- The text of one character.
abbrev single : Char → String
single c = String.◌∷◌ c String.[]

-- `str(n)` of one digit
abbrev digit : ℕ → Char
digit n =
    if n == 0
    then "0"
    else if n == 1
    then "1"
    else if n == 2
    then "2"
    else if n == 3
    then "3"
    else if n == 4
    then "4"
    else if n == 5
    then "5"
    else if n == 6
    then "6"
    else if n == 7
    then "7"
    else if n == 8
    then "8"
    else "9"

-- The digits of a number, on fuel: the number itself is enough.
unfoldable digits : ℕ → ℕ → String
digits zero n = single (digit n)
digits (suc fuel) n =
    let before = digits fuel (n / 10) in
    if ltb n 10 then single (digit n) else before ++ single (digit (n % 10))

-- `str(n)`
unfoldable pub decimal : ℕ → String
unfolding digits
decimal n = digits n n

read : String → ℕ → ℕ
read String.[] n = n
read (String.◌∷◌ c s) n = read s (n * 10 + (code c - 48))

digit-code : (n : ℕ) → n < 10 → code (digit n) - 48 ≡ n
digit-code zero h = refl
digit-code (suc zero) h = refl
digit-code (suc (suc zero)) h = refl
digit-code (suc (suc (suc zero))) h = refl
digit-code (suc (suc (suc (suc zero)))) h = refl
digit-code (suc (suc (suc (suc (suc zero))))) h = refl
digit-code (suc (suc (suc (suc (suc (suc zero)))))) h = refl
digit-code (suc (suc (suc (suc (suc (suc (suc zero))))))) h = refl
digit-code (suc (suc (suc (suc (suc (suc (suc (suc zero)))))))) h = refl
digit-code (suc (suc (suc (suc (suc (suc (suc (suc (suc zero))))))))) h = refl
digit-code (suc (suc (suc (suc (suc (suc (suc (suc (suc (suc n)))))))))) h = absurd (omega arith)

read-single : (n m : ℕ) → n < 10 → read (single (digit n)) m ≡ m * 10 + n
unfolding read
read-single n m h = rw (digit-code n h) refl

read-append : (s t : String) (n : ℕ) → read (s ++ t) n ≡ read t (read s n)
unfolding read
read-append String.[] t n = rw (nil-append t) refl
read-append (String.◌∷◌ c s) t n = rw (cons-append c s t) (read-append s t (n * 10 + (code c - 48)))

read-digits : (fuel n : ℕ) → n ≤ fuel → read (digits fuel n) 0 ≡ n
unfolding digits
read-digits zero n h = rw (read-single n 0 (omega arith)) (omega arith)
read-digits (suc fuel) n h = elim (Bool-cases (ltb n 10)) [
  | inl small ↦ rw (small, read-single n 0 (ground arith)) (omega arith)
  | inr large ↦
      let shorter : n / 10 ≤ fuel = ground arith in
      rw
        (
          large,
          read-append,
          read-digits fuel (n / 10) shorter,
          read-single (n % 10) (n / 10) (omega arith),
        )
        (omega arith)
]

pub decimal_injective : (m n : ℕ) → decimal m ≡ decimal n → m ≡ n
unfolding decimal
decimal_injective m n e = cc (e, read-digits m m (omega arith), read-digits n n (omega arith))

-- A positive number's text is not empty.
pub decimal_nonempty : (n : ℕ) → decimal (suc n) ≢ String.[]
unfolding decimal read
decimal_nonempty n e =
    let number = read-digits (suc n) (suc n) (omega arith) in
    let empty : read (digits (suc n) (suc n)) 0 ≡ 0 = ap (λ s. read s 0) e in omega arith
