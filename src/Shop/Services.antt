-- ===== src/Shop/Services.antt =====
-- The theorems on accounts, tickets and guarded requests, applied to small states.
use electronic_shop.Base.{
  ℕ, ◌+◌, ◌≡◌, ◌≢◌, inr, refl, true, Option, none, some, List, [], ◌∷◌, arith,
}
use electronic_shop.Base.Table.{lookup}
use electronic_shop.Base.Exec.{Exec, ok, err, unauthorized, idempotency_key_reused}
use electronic_shop.Users.Models.{UserRole}
use electronic_shop.Integrations.Zarinpal.{verify_payment}
use electronic_shop.Auth.Models.{RefreshToken, OneTimeToken, Accounts}
use electronic_shop.Auth.Service
use electronic_shop.Auth.Service.{
  request, rotate_refresh_token, get_by_hash, revoke_family, revoke_where, confirm_password_reset,
  one_time_by_hash, logout, issue_token_pair,
}
use electronic_shop.Auth.Service.Families.{live_in, live_for}
use electronic_shop.Auth.Service.Requests
use electronic_shop.Auth.Service.Reuse.{reuse_revokes, reset_revokes}
use electronic_shop.Tickets.Models.{TicketStatus, TicketPriority, Ticket, Tickets}
use electronic_shop.Tickets.Task.{closed_at, auto_close_stale_tickets}
use electronic_shop.Tickets.Task.Closing.{fresh_kept}
use electronic_shop.Common.Idempotency.{Caller, Guarded, existing, guarded_request}
use electronic_shop.Common.Idempotency.Replay.{performed_once}
use electronic_shop.Payments.Models.{PaymentStatus, Payment}
use electronic_shop.Payments.Service.{get_by_authority, handle_callback}
use electronic_shop.Payments.Service.Ends.{callback_ends}
use electronic_shop.Orders.Models.{OrderStatus}
use electronic_shop.Shop.Samples.{gateway, waiting, order_in, payment_in}

callback_ends_example : (p : Payment) × ((handle_callback gateway 55 true 20 waiting).0 ≡ ok p)
unfolding get_by_authority verify_payment
callback_ends_example =
    callback_ends gateway 55 true 20 waiting {payment_id = 200}
      {payment = payment_in PaymentStatus.initiated} {order = order_in OrderStatus.awaiting_payment}
      (refl, tt) refl refl refl refl refl
      (inr (record { success = true; reference_id = some 77; raw_response = 0 }, refl))

abbrev crypto : Service.Crypto
crypto = record { hash_password = λ n. n + 1; verify_password = λ p h. true }

abbrev token : Option ℕ → RefreshToken
token revoked_at = record {
  user_id = 7;
  token_hash = 900;
  family_id = 40;
  replaced_by_id = none;
  revoked_at = revoked_at;
  expires_at = 1000;
  created_at = 0;
}

abbrev accounts_with : RefreshToken → Accounts
accounts_with t = record {
  users =
      (
        7,
        record {
          email = "ali@shop.ir";
          username = "ali";
          hashed_password = some 5;
          first_name = "ali";
          last_name = "";
          avatar = none;
          last_login = none;
          role = UserRole.customer;
          is_active = true;
          is_verified = true;
        },
      )
      ∷ [];
  oauth_accounts = [];
  refresh_tokens = (1, t) ∷ [];
  password_resets =
      (3, record { user_id = 7; token_hash = 60; expires_at = 500; used_at = none; created_at = 0 })
      ∷ [];
  email_verifications = [];
}

abbrev accounts : Accounts
accounts = accounts_with (token none)

accounts-IsSingle : Requests.IsSingle accounts
accounts-IsSingle = record { keyed = (refl, tt); single = λ f. ground arith }

abbrev account_calls : List Requests.Call
account_calls =
    Requests.Call.refresh 1000 900 2 901 10
    ∷ Requests.Call.refresh 1000 900 4 902 20
    ∷ Requests.Call.log_out 901 30
    ∷ []

account_calls-AreFresh : Requests.AreFresh account_calls accounts
unfolding Requests.AreFresh Requests.IsFresh Requests.perform request rotate_refresh_token
    get_by_hash revoke_where logout
account_calls-AreFresh = (refl, (refl, (tt, tt)))

perform_all-IsSingle_example : Requests.IsSingle (Requests.perform_all account_calls accounts)
perform_all-IsSingle_example =
    Requests.perform_all-IsSingle account_calls accounts account_calls-AreFresh accounts-IsSingle

abbrev stolen : Accounts
stolen = accounts_with (token (some 5))

reuse_revokes_example :
    let (r, a') = request (rotate_refresh_token 1000 900 2 901 10) stolen in
    (r ≡ err unauthorized) × (a' ≡ revoke_family 40 10 stolen) × (live_in 40 a' ≡ 0)
unfolding get_by_hash
reuse_revokes_example =
    reuse_revokes 1000 900 2 901 10 stolen {stored_id = 1} {stored = token (some 5)} refl refl

reset_revokes_example :
    (id : ℕ) × (t : OneTimeToken) × (one_time_by_hash 60 accounts.password_resets ≡ some (id, t))
    × (live_for t.user_id (request (confirm_password_reset crypto 60 8 100) accounts).1 ≡ 0)
unfolding request confirm_password_reset one_time_by_hash
reset_revokes_example = reset_revokes crypto 60 8 100 accounts refl

abbrev ticket : Ticket
ticket = record {
  user_id = 7;
  subject = "late";
  status = TicketStatus.waiting_for_customer;
  priority = TicketPriority.normal;
  closed_at = none;
  last_response_at = 100;
}

abbrev tickets : Tickets
tickets = record { tickets = (5, ticket) ∷ []; messages = []; audit_logs = [] }

fresh_kept_example :
    lookup 5 (auto_close_stale_tickets 86500 (λ k. 86501) tickets).1.tickets ≡ some ticket
fresh_kept_example = fresh_kept 86500 (λ k. 86501) tickets (refl, tt) 5 {ticket = ticket} refl refl

abbrev caller : Caller
caller = record { user_id = 7; operation = 1; key = 12; request_hash = 33 }

abbrev counter : Guarded ℕ ℕ
counter = record { rows = 4; keys = [] }

abbrev next : Exec ℕ ℕ
next n = (ok n, n + 1)

performed_once_example :
    let (r, g') = guarded_request (some caller) 10 201 next counter in
    (r ≡ ok (201, some 4))
    × (g'.rows ≡ 5)
    × (guarded_request (some caller) 20 201 next g' ≡ (r, g'))
    × ((hash : ℕ)
        → hash ≢ 33
        → guarded_request (some (record caller { request_hash = hash })) 20 201 next g'
          ≡ (err idempotency_key_reused, g'))
unfolding existing
performed_once_example =
    performed_once caller 10 201 next counter refl {body = 4} refl (λ e. cc) 20 201 next

abbrev refuse : Exec ℕ ℕ
refuse n = (err unauthorized, n + 1)
