-- ===== src/Common/Csrf.antt =====
-- backend/app/security/csrf.py, and the check of core/middleware.py that uses it. The keyed digest of a
-- nonce (`hmac` under the settings' key, in hexadecimal) is a parameter, and the nonce an argument.
pub mod Checked
use Prim.Native.Char.{Char, code}
use Prim.Native.String as Text
use electronic_shop.Base.{
  ℕ, String, Bool, true, false, Option, none, some, ◌==◌, ltb, same_text, if◌then◌else◌,
}

-- The two parts of `token.split(".", 1)`, or `none` where there is one part only.
unfoldable pub split_dot : String → Option (String × String)
split_dot Text.[] = none
split_dot (Text.◌∷◌ c s) =
    let rest = split_dot s in
    if code c == 46
    then some (Text.[], s)
    else elim rest [ none ↦ none | some (a, b) ↦ some (Text.◌∷◌ c a, b) ]

unfoldable pub is_ascii : String → Bool
is_ascii Text.[] = true
is_ascii (Text.◌∷◌ c s) = let rest = is_ascii s in if ltb (code c) 128 then rest else false

-- `hmac.compare_digest` of two texts, which raises a `TypeError` for one that is not ASCII.
abbrev pub compare_digest : String → String → Option Bool
compare_digest a b = if is_ascii a then if is_ascii b then some (same_text a b) else none else none

module _ (mac : String → String) where
  abbrev pub generate_csrf_token : String → String
  generate_csrf_token nonce = Text.◌++◌ nonce (Text.◌++◌ "." (mac nonce))

  abbrev pub signed : Option (String × String) → Option Bool
  signed none = some false
  signed (some (nonce, signature)) = compare_digest signature (mac nonce)

  unfoldable pub is_valid_csrf_token : String → Option Bool
  is_valid_csrf_token token = signed (split_dot token)

  abbrev pub same_and_valid : String → Option Bool → Option Bool
  same_and_valid cookie none = none
  same_and_valid cookie (some false) = some false
  same_and_valid cookie (some true) = is_valid_csrf_token cookie

  -- `none` where the comparison raises.
  unfoldable pub csrf_tokens_match : Option String → Option String → Option Bool
  csrf_tokens_match none header = some false
  csrf_tokens_match (some Text.[]) header = some false
  csrf_tokens_match (some (Text.◌∷◌ c s)) none = some false
  csrf_tokens_match (some (Text.◌∷◌ c s)) (some Text.[]) = some false
  csrf_tokens_match (some (Text.◌∷◌ c s)) (some (Text.◌∷◌ d t)) =
      same_and_valid (Text.◌∷◌ c s) (compare_digest (Text.◌∷◌ c s) (Text.◌∷◌ d t))

pub data Method : Type 0 where
  get head options post put patch delete : Method

-- `_MUTATING_METHODS`
abbrev pub is_mutating : Method → Bool
is_mutating Method.get = false
is_mutating Method.head = false
is_mutating Method.options = false
is_mutating Method.post = true
is_mutating Method.put = true
is_mutating Method.patch = true
is_mutating Method.delete = true

-- The request goes on to its handler, gets the response with status 403, or fails with an exception.
pub data Verdict : Type 0 where
  passed refused failed : Verdict

abbrev pub verdict : Option Bool → Verdict
verdict none = Verdict.failed
verdict (some true) = Verdict.passed
verdict (some false) = Verdict.refused

module _ (mac : String → String) where
  abbrev pub check_cookie : Option String → Option String → Verdict
  check_cookie none header = Verdict.passed
  check_cookie (some Text.[]) header = Verdict.passed
  check_cookie (some (Text.◌∷◌ c s)) header =
      verdict (csrf_tokens_match mac (some (Text.◌∷◌ c s)) header)

  unfoldable pub csrf_protection_middleware : Method → Option String → Option String → Verdict
  csrf_protection_middleware method cookie_token header_token =
      if is_mutating method then check_cookie cookie_token header_token else Verdict.passed
