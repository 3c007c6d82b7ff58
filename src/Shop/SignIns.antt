-- ===== src/Shop/SignIns.antt =====
-- The theorems on a callback of Google at two users.
use electronic_shop.Base.{ℕ, String, ◌≡◌, refl, true, none, some, [], ◌∷◌, arith}
use electronic_shop.Base.Exec.{err, unauthorized}
use electronic_shop.Auth.Service.{request, issue_token_pair, get_by_hash}
use electronic_shop.Auth.Accounts.{get_by_username, free_username, with_email}
use electronic_shop.Integrations.GoogleOauth.{
  Google, InfoAnswer, returned, exchange_code, verify_id_token,
}
use electronic_shop.Auth.Router.{Action, OauthSession, Site, Fresh, find_state, google_callback}
use electronic_shop.Auth.Router.Callback.{
  IsVouched, google_callback-IsVouched, google_callback_once,
}
use electronic_shop.Auth.Accounts.{
  linked_account, register_with_google, login_or_register_with_google, base_username, candidate,
}
use electronic_shop.Shop.Members.{accounts, lower}

abbrev answer : InfoAnswer
answer = record {
  status_code = 200;
  claims = record {
    aud = some "shop";
    iss = some "accounts.google.com";
    nonce = some "n";
    sub = some "g-1";
    email = some "eve@gmail.com";
    email_verified = some "true";
    name = none;
    picture = none;
  };
}

abbrev google : Google
google = record {
  is_configured = true;
  client_id = "shop";
  exchange = λ code verifier. some (record { status_code = 200; id_token = some "raw" });
  tokeninfo = λ raw. some answer;
}

abbrev sign_in : OauthSession
sign_in = record { nonce = "n"; verifier = "v"; action = Action.login; expires_at = 700 }

abbrev site : Site
site = record { accounts = accounts; states = ("s", sign_in) ∷ [] }

abbrev fresh : ℕ → Fresh
fresh now = record {
  user_id = 5;
  token_id = 6;
  token_hash = 7;
  family_id = 8;
  lifetime = 100;
  now = now;
}

google_callback-IsVouched_example :
    (session : OauthSession) × (find_state "s" 9 site.states ≡ some session)
    × ((raw : String) × (exchange_code google "c" session.verifier ≡ returned raw)
        × IsVouched google raw session.nonce)
unfolding google_callback find_state exchange_code verify_id_token request
    login_or_register_with_google linked_account register_with_google with_email free_username
    base_username candidate get_by_username issue_token_pair get_by_hash
google_callback-IsVouched_example =
    google_callback-IsVouched lower google "c" "s" (fresh 9) site {x = some 5} refl

google_callback_once_example :
    google_callback lower google "c" "s"
      (fresh 20)
      (google_callback lower google "c" "s" (fresh 9) site).1
    ≡ (err unauthorized, (google_callback lower google "c" "s" (fresh 9) site).1)
unfolding find_state
google_callback_once_example =
    google_callback_once lower google "c" "c" "s" (fresh 9) (fresh 20) site (λ e. ground arith)
