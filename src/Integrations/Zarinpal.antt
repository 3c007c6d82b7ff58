-- ===== src/Integrations/Zarinpal.antt =====
-- backend/app/integrations/zarinpal.py, class ZarinPalSandboxClient. The gateway's answer to a posted
-- request is a parameter: `none` is a request that raises (no connection, no JSON).
use electronic_shop.Base.{ℕ, Bool, false, not, ◌||◌, Option, none, some, ◌==◌, if◌then◌else◌}

-- The posted JSON, less the constants: the amount in Rial, and an order (in the description) or an
-- authority.
pub data GatewayCall : Type 0 where
  request verify : ℕ → ℕ → GatewayCall

-- What the code reads of the answer: its status, and `code`, `authority` and `ref_id` of its `data`.
-- A negative `code` of the gateway is `none`, like a missing one, since no test accepts either.
pub record GatewayAnswer : Type 0 where
  pub status_code : ℕ
  pub code : Option ℕ
  pub authority : Option ℕ
  pub ref_id : Option ℕ
  pub payload : ℕ

pub record Settings : Type 0 where
  pub is_configured : Bool
  pub post : GatewayCall → Option GatewayAnswer

-- How a client's method ends: it returns, raises ZarinPalNotConfigured, or raises anything else.
pub data Outcome (A : Type 0) : Type 0 where
  returned : A → Outcome A
  not_configured failed : Outcome A

pub record PaymentVerifyResult : Type 0 where
  pub success : Bool
  pub reference_id : Option ℕ
  pub raw_response : ℕ

abbrev pub code_is : ℕ → Option ℕ → Bool
code_is n none = false
code_is n (some c) = c == n

abbrev pub authority_of : Option ℕ → Outcome ℕ
authority_of none = failed
authority_of (some authority) = returned authority

abbrev pub read_request : Option GatewayAnswer → Outcome ℕ
read_request none = failed
read_request (some response) =
    if not (response.status_code == 200) || not (code_is 100 response.code)
    then failed
    else authority_of response.authority

-- The payment URL is made of the authority, which stands for it.
unfoldable pub request_payment : Settings → ℕ → ℕ → Outcome ℕ
request_payment settings amount_rial order_id =
    if not settings.is_configured
    then not_configured
    else read_request (settings.post (GatewayCall.request amount_rial order_id))

-- `str(data["ref_id"]) if ... data.get("ref_id") else None`: a reference of zero is none.
abbrev pub truthy : Option ℕ → Option ℕ
truthy none = none
truthy (some n) = if n == 0 then none else some n

abbrev pub read_verify : Option GatewayAnswer → Outcome PaymentVerifyResult
read_verify none = failed
read_verify (some response) =
    let success = code_is 100 response.code || code_is 101 response.code in
    returned (record {
      success = success;
      reference_id = if success then truthy response.ref_id else none;
      raw_response = response.payload;
    })

unfoldable pub verify_payment : Settings → ℕ → ℕ → Outcome PaymentVerifyResult
verify_payment settings amount_rial authority =
    read_verify (settings.post (GatewayCall.verify amount_rial authority))
