-- ===== src/Common/Csrf/Checked.antt =====
-- Which mutating requests the CSRF check (security/csrf.py, core/middleware.py) lets through.
use Prim.Native.Char.{Char, code}
use Prim.Native.String as Text
use text.Mathlib.TextLemmas.{nil-append, cons-append}
use text.Mathlib.TextEquality.{Char-path}
use electronic_shop.Base.{
  String, ◌≡◌, ◌≢◌, refl, sym, ap, inl, inr, true, false, Bool-cases, Option, Option-cases, none,
  some, ◌==◌, same_text-eq, arith,
}
use electronic_shop.Common.Csrf.{
  split_dot, is_ascii, generate_csrf_token, is_valid_csrf_token, csrf_tokens_match, Method,
  is_mutating, Verdict, csrf_protection_middleware,
}

-- A text, a dot, and a text.
abbrev dotted : String → String → String
dotted a b = Text.◌++◌ a (Text.◌++◌ "." b)

dotted-nil : (b : String) → dotted Text.[] b ≡ Text.◌∷◌ "." b
dotted-nil b = rw (nil-append (Text.◌++◌ "." b), cons-append "." Text.[] b, nil-append b) refl

dotted-cons : (c : Char) (a b : String) → dotted (Text.◌∷◌ c a) b ≡ Text.◌∷◌ c (dotted a b)
dotted-cons c a b = cons-append c a (Text.◌++◌ "." b)

is_dot : (c : Char) → (code c == 46) ≡ true → c ≡ "."
is_dot c h = Char-path c "." (ground arith)

split_dot-dotted : (t a b : String) → split_dot t ≡ some (a, b) → t ≡ dotted a b
unfolding split_dot
split_dot-dotted Text.[] a b h = cc
split_dot-dotted (Text.◌∷◌ c s) a b h = elim (Bool-cases (code c == 46)) [
  | inl here ↦
      let first : a ≡ Text.[] = ground arith in
      let rest : b ≡ s = ground arith in rw (first, rest, is_dot c here, dotted-nil s) refl
  | inr there ↦ elim (Option-cases (split_dot s)) [
    | inl nowhere ↦ absurd (ground arith)
    | inr ((a', b'), found) ↦
        let first : a ≡ Text.◌∷◌ c a' = ground arith in
        let rest : b ≡ b' = ground arith in
        rw (first, rest, dotted-cons c a' b') (ap (Text.◌∷◌ c) (split_dot-dotted s a' b' found))
  ]
]

dotted-split_dot : (a b : String) → split_dot a ≡ none → split_dot (dotted a b) ≡ some (a, b)
unfolding split_dot
dotted-split_dot Text.[] b h = rw (dotted-nil b) refl
dotted-split_dot (Text.◌∷◌ c a) b h =
    let apart : (code c == 46) ≡ false = ground arith in
    let rest : split_dot a ≡ none = ground arith in
    rw (dotted-cons c a b, apart, dotted-split_dot a b rest) refl

module _ (mac : String → String) where
  valid_signed :
      (token : String)
      → is_valid_csrf_token mac token ≡ some true
      → (nonce : String) × (token ≡ generate_csrf_token mac nonce)
  unfolding is_valid_csrf_token
  valid_signed token h = elim (Option-cases (split_dot token)) [
    | inl whole ↦ absurd (ground arith)
    | inr ((nonce, signature), parts) ↦
        let same : signature ≡ mac nonce = ground (arith, same_text-eq signature (mac nonce)) in
        (nonce, rw (sym same) (split_dot-dotted token nonce signature parts))
  ]

  match_lem :
      (cookie : String) (header : Option String)
      → csrf_tokens_match mac (some cookie) header ≡ some true
      → (header ≡ some cookie) × (is_valid_csrf_token mac cookie ≡ some true)
  unfolding csrf_tokens_match
  match_lem Text.[] header h = cc
  match_lem (Text.◌∷◌ c s) none h = cc
  match_lem (Text.◌∷◌ c s) (some Text.[]) h = cc
  match_lem (Text.◌∷◌ c s) (some (Text.◌∷◌ d t)) h =
      let same : Text.◌∷◌ c s ≡ Text.◌∷◌ d t =
        ground (arith, same_text-eq (Text.◌∷◌ c s) (Text.◌∷◌ d t)) in
      (ap some (sym same), ground arith)

  match_self :
      (c : Char) (s : String)
      → is_ascii (Text.◌∷◌ c s) ≡ true
      → is_valid_csrf_token mac (Text.◌∷◌ c s) ≡ some true
      → csrf_tokens_match mac (some (Text.◌∷◌ c s)) (some (Text.◌∷◌ c s)) ≡ some true
  unfolding csrf_tokens_match
  match_self c s plain valid = ground (arith, same_text-eq (Text.◌∷◌ c s) (Text.◌∷◌ c s))

  valid-generate_csrf_token :
      (nonce : String)
      → split_dot nonce ≡ none
      → is_ascii (mac nonce) ≡ true
      → is_valid_csrf_token mac (generate_csrf_token mac nonce) ≡ some true
  unfolding is_valid_csrf_token
  valid-generate_csrf_token nonce whole plain =
      rw (dotted-split_dot nonce (mac nonce) whole, plain)
        (ground (arith, same_text-eq (mac nonce) (mac nonce)))

-- A mutating request of a session, whose cookie is there and not empty, goes on to its handler only if
-- its header repeats the cookie, and the cookie is a nonce with the server's digest of it.
pub csrf_passed :
    (mac : String → String) (method : Method) (cookie : String) (header : Option String)
    → is_mutating method ≡ true
    → cookie ≢ Text.[]
    → csrf_protection_middleware mac method (some cookie) header ≡ Verdict.passed
    → (header ≡ some cookie) × ((nonce : String) × (cookie ≡ generate_csrf_token mac nonce))
unfolding csrf_protection_middleware
csrf_passed mac method Text.[] header mutating full h = absurd (full refl)
csrf_passed mac method (Text.◌∷◌ c s) header mutating full h =
    let matches : csrf_tokens_match mac (some (Text.◌∷◌ c s)) header ≡ some true = ground arith in
    let (same, valid) = match_lem mac (Text.◌∷◌ c s) header matches in
    (same, valid_signed mac (Text.◌∷◌ c s) valid)

passed_token :
    (mac : String → String) (method : Method) (token : String)
    → is_ascii token ≡ true
    → is_valid_csrf_token mac token ≡ some true
    → csrf_protection_middleware mac method (some token) (some token) ≡ Verdict.passed
unfolding csrf_protection_middleware
passed_token mac method Text.[] plain valid = ground arith
passed_token mac method (Text.◌∷◌ c s) plain valid = ground (arith, match_self mac c s plain valid)

-- A token that was generated from a nonce without a dot, with a digest and a nonce in ASCII, gets any
-- request through that sends it both as its cookie and in its header.
pub csrf_protection_middleware-generate_csrf_token :
    (mac : String → String) (method : Method) (nonce : String)
    → split_dot nonce ≡ none
    → is_ascii (mac nonce) ≡ true
    → is_ascii (generate_csrf_token mac nonce) ≡ true
    → csrf_protection_middleware mac method
        (some (generate_csrf_token mac nonce))
        (some (generate_csrf_token mac nonce))
      ≡ Verdict.passed
csrf_protection_middleware-generate_csrf_token mac method nonce whole plain all =
    passed_token mac method (generate_csrf_token mac nonce) all
      (valid-generate_csrf_token mac nonce whole plain)
