-- ===== src/Shop/Members.antt =====
-- Two users, and the theorems on accounts at them.
use electronic_shop.Base.{
  String, ◌≡◌, refl, true, none, some, List, [], ◌∷◌, arith, same_text-eq, ◌==◌,
}
use electronic_shop.Base.Table.{Table}
use electronic_shop.Base.Exec.{ok}
use electronic_shop.Users.Models.{UserRole}
use electronic_shop.Auth.Models.{Account, Accounts}
use electronic_shop.Auth.Service
use electronic_shop.Auth.Service.{request, one_time_by_hash, issue_token_pair, get_by_hash}
use electronic_shop.Auth.Accounts.{
  RegisterRequest, get_by_username, free_username, with_email, register, authenticate, registered,
}
use electronic_shop.Integrations.GoogleOauth.{GoogleIdentity}
use electronic_shop.Auth.Accounts.Usernames.{username_found}
use electronic_shop.Auth.Accounts.Unique.{IsSound}
use electronic_shop.Auth.Accounts.Google.{start}
use electronic_shop.Auth.Accounts.Login.{authenticate-register}
use electronic_shop.Auth.Accounts.Requests.{AccountCall, perform_all, ArePresent, accounts_unique}

abbrev pub account : String → String → UserRole → Account
account email username role = record {
  email = email;
  username = username;
  hashed_password = some 5;
  first_name = "";
  last_name = "";
  avatar = none;
  role = role;
  is_active = true;
  is_verified = true;
  last_login = none;
}

abbrev pub boss : Account
boss = account "boss@shop.ir" "boss" UserRole.admin

abbrev pub ali : Account
ali = account "ali@shop.ir" "ali" UserRole.customer

abbrev pub users : Table Account
users = (1, boss) ∷ (2, ali) ∷ []

abbrev pub accounts : Accounts
accounts = record {
  users = users;
  oauth_accounts = [];
  refresh_tokens = [];
  password_resets = [];
  email_verifications = [];
}

abbrev crypto : Service.Crypto
crypto = record { hash_password = λ n. n; verify_password = λ p h. p == h }

abbrev pub lower : String → String
lower s = s

-- An identity whose local part is a user's name.
abbrev identity : GoogleIdentity
identity = record {
  subject = "g-1";
  email = "ali@gmail.com";
  email_verified = true;
  name = "Ali";
  picture = none;
}

username_found_example :
    (name : String) × (free_username 3 "ali" 0 users ≡ some name)
    × (get_by_username name users ≡ none)
username_found_example = username_found "ali" users

abbrev request_of_sara : RegisterRequest
request_of_sara = record {
  email = "sara@shop.ir";
  username = "sara";
  password = 8;
  first_name = "";
  last_name = "";
}

accounts-IsSound : IsSound accounts
accounts-IsSound = (
  record {
    keyed = (refl, (refl, tt));
    emails = λ i j u v f g same. ground (arith, same_text-eq "boss@shop.ir" "ali@shop.ir");
    usernames = λ i j u v f g same. ground (arith, same_text-eq "boss" "ali");
  },
  tt,
)

abbrev account_calls : List AccountCall
account_calls =
    AccountCall.registering 4 1 70 request_of_sara 5 ∷ AccountCall.signing_in 3 identity 6 ∷ []

calls-ArePresent : ArePresent lower crypto account_calls accounts
unfolding ArePresent
calls-ArePresent = (tt, (tt, tt))

accounts_unique_example : IsSound (perform_all lower crypto account_calls accounts)
accounts_unique_example =
    accounts_unique lower crypto account_calls accounts calls-ArePresent accounts-IsSound

authenticate-register_example :
    (authenticate lower crypto "sara@shop.ir" 8 9
      (start (request (register lower crypto 4 1 70 request_of_sara 5) accounts).1)).0
    ≡ ok (4, record (registered lower crypto request_of_sara) { last_login = some 9 })
unfolding register with_email get_by_username one_time_by_hash
authenticate-register_example =
    authenticate-register lower crypto 4 1 70 request_of_sara 5 accounts "sara@shop.ir" 8 9
      {x = registered lower crypto request_of_sara} refl refl refl
