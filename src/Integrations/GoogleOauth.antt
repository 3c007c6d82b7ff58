-- ===== src/Integrations/GoogleOauth.antt =====
-- backend/app/integrations/google_oauth.py. Google's answers are parameters: `none` is a request that
-- raises (no connection, no JSON).
use Prim.Native.String as Text
use electronic_shop.Base.{
  ℕ, String, Bool, false, not, ◌||◌, Option, none, some, ◌==◌, same_text, get_or, if◌then◌else◌,
}

pub record GoogleIdentity : Type 0 where
  pub subject : String
  pub email : String
  pub email_verified : Bool
  pub name : String
  pub picture : Option String

-- What the code reads of the answer to the exchange of a code.
pub record TokenAnswer : Type 0 where
  pub status_code : ℕ
  pub id_token : Option String

-- What the code reads of the claims of a token.
pub record Claims : Type 0 where
  pub aud : Option String
  pub iss : Option String
  pub nonce : Option String
  pub sub : Option String
  pub email : Option String
  pub email_verified : Option String
  pub name : Option String
  pub picture : Option String

pub record InfoAnswer : Type 0 where
  pub status_code : ℕ
  pub claims : Claims

-- `exchange` posts a code and its verifier, `tokeninfo` asks for the claims of a token.
pub record Google : Type 0 where
  pub is_configured : Bool
  pub client_id : String
  pub exchange : String → String → Option TokenAnswer
  pub tokeninfo : String → Option InfoAnswer

-- A function returns, raises GoogleOAuthError or GoogleOAuthNotConfigured, or raises anything else.
pub data Outcome (A : Type 0) : Type 0 where
  returned : A → Outcome A
  refused failed : Outcome A

-- `payload.get("id_token")`, if it is not empty
abbrev pub token_in : Option String → Outcome String
token_in none = refused
token_in (some Text.[]) = refused
token_in (some (Text.◌∷◌ c s)) = returned (Text.◌∷◌ c s)

abbrev pub read_token : Option TokenAnswer → Outcome String
read_token none = failed
read_token (some answer) =
    if not (answer.status_code == 200) then refused else token_in answer.id_token

unfoldable pub exchange_code : Google → String → String → Outcome String
exchange_code google code code_verifier =
    if not google.is_configured then refused else read_token (google.exchange code code_verifier)

-- `claims.get(name) == value`
abbrev pub claim_is : Option String → String → Bool
claim_is none value = false
claim_is (some text) value = same_text text value

abbrev pub is_issuer : Option String → Bool
is_issuer iss = claim_is iss "accounts.google.com" || claim_is iss "https://accounts.google.com"

-- The last lines of `verify_id_token`; a missing `sub` is a KeyError.
abbrev pub identity_of : Claims → Option String → Option String → Outcome GoogleIdentity
identity_of claims sub none = refused
identity_of claims sub (some Text.[]) = refused
identity_of claims none (some (Text.◌∷◌ c s)) = failed
identity_of claims (some subject) (some (Text.◌∷◌ c s)) = returned (record {
  subject = subject;
  email = Text.◌∷◌ c s;
  email_verified = claim_is claims.email_verified "true";
  name = get_or claims.name "";
  picture = claims.picture;
})

abbrev pub read_claims : String → String → Option InfoAnswer → Outcome GoogleIdentity
read_claims client_id expected_nonce none = failed
read_claims client_id expected_nonce (some answer) =
    if not (answer.status_code == 200)
    then refused
    else if not (claim_is answer.claims.aud client_id)
    then refused
    else if not (is_issuer answer.claims.iss)
    then refused
    else if not (claim_is answer.claims.nonce expected_nonce)
    then refused
    else identity_of answer.claims answer.claims.sub answer.claims.email

unfoldable pub verify_id_token : Google → String → String → Outcome GoogleIdentity
verify_id_token google raw_id_token expected_nonce =
    read_claims google.client_id expected_nonce (google.tokeninfo raw_id_token)
