-- ===== src/Auth/Access.antt =====
-- backend/app/security/jwt.py and modules/auth/dependencies.py: who makes a request, and whether they
-- may. The signing and checking of tokens by the JWT library are parameters; the time is in seconds.
pub mod Granted
use text.Mathlib.Text.{starts_with}
use Prim.Native.String as Text
use electronic_shop.Base.{
  ℕ, zero, suc, ◌+◌, ◌*◌, String, Bool, true, false, not, Option, none, some, same_text,
  if◌then◌else◌,
}
use electronic_shop.Base.Table.{Table, lookup}
use electronic_shop.Base.Exec.{
  Exec, unauthorized, permission_denied, pure, gets, or_raise, raise_if, ◌>>=◌, ◌>>◌,
}
use electronic_shop.Users.Models.{UserRole}
use electronic_shop.Auth.Models.{Account}
use electronic_shop.Common.Permissions.{Permission, role_has_permission}

pub record Payload : Type 0 where
  pub sub : ℕ
  pub role : UserRole
  pub jti : ℕ
  pub iat : ℕ
  pub exp : ℕ
  pub type : String

-- `jwt.encode` and `jwt.decode` under the settings' key and algorithm; `decode` is at a time.
pub record Jwt : Type 0 where
  pub encode : Payload → String
  pub decode : ℕ → String → Option Payload

-- What of a request's headers and cookies is read.
pub record Headers : Type 0 where
  pub access_token : Option String
  pub authorization : Option String

abbrev pub access_payload : ℕ → ℕ → UserRole → ℕ → ℕ → Payload
access_payload minutes user_id role jti now = record {
  sub = user_id;
  role = role;
  jti = jti;
  iat = now;
  exp = now + minutes * 60;
  type = "access";
}

abbrev pub create_access_token : Jwt → ℕ → ℕ → UserRole → ℕ → ℕ → String
create_access_token jwt minutes user_id role jti now =
    jwt.encode (access_payload minutes user_id role jti now)

abbrev pub checked : Option Payload → Option Payload
checked none = none
checked (some payload) = if same_text payload.type "access" then some payload else none

-- `none` for a `TokenError`
unfoldable pub decode_access_token : Jwt → ℕ → String → Option Payload
decode_access_token jwt now token = checked (jwt.decode now token)

-- `header.removeprefix("Bearer ")` of a header with this prefix
abbrev pub after_bearer : String → String
after_bearer header = Text.slice header 7 (Text.len header)

abbrev pub bearer_of : Option String → Option String
bearer_of none = none
bearer_of (some header) = if starts_with header "Bearer " then some (after_bearer header) else none

unfoldable pub bearer_token_from_header : Headers → Option String
bearer_token_from_header headers = bearer_of headers.authorization

-- A text that is there and not empty.
abbrev pub nonempty : Option String → Option String
nonempty none = none
nonempty (some Text.[]) = none
nonempty (some (Text.◌∷◌ c s)) = some (Text.◌∷◌ c s)

abbrev pub or_else : Option String → Option String → Option String
or_else none other = other
or_else (some token) other = some token

unfoldable pub token_of : Headers → Option String
token_of headers =
    or_else (nonempty headers.access_token) (nonempty (bearer_token_from_header headers))

module _ {S : Type 0} (users_of : S → Table Account) where
  -- The user with the identifier that the token names.
  unfoldable pub get_current_user : Jwt → ℕ → Headers → Exec S (ℕ × Account)
  get_current_user jwt now headers = do
    token ← or_raise (token_of headers) unauthorized
    payload ← or_raise (decode_access_token jwt now token) unauthorized
    user ← or_raise (← gets (λ s. lookup payload.sub (users_of s))) unauthorized
    raise_if (not user.is_active) unauthorized
    pure (payload.sub, user)

  unfoldable pub require_permission : Permission → Jwt → ℕ → Headers → Exec S (ℕ × Account)
  require_permission permission jwt now headers = do
    (id, user) ← get_current_user jwt now headers
    raise_if (not (role_has_permission user.role permission)) permission_denied
    pure (id, user)
