-- ===== src/Swap/Clients/Lnd.antt =====
-- The LND client of pkg/escrow/swap/lnd.go: each call as the answer to its one request.
use ark_escrow.Base.{
  ℕ, ◌+◌, ◌-◌, ◌*◌, ◌/◌, ◌%◌, Str, lit, Bool, true, false, Option, some, none, List, [], ◌∷◌, ◌++◌,
  Result, ok, err, ◌>>=◌, ◌>>◌, or_err, require, not, leb, ltb, ◌==◌, ◌||◌, str_eq, if◌then◌else◌,
}
use ark_escrow.Swap.Clients.Json.{
  Json, number, text, object, no_members, member, JsonText, text_field, raw_field,
}
use ark_escrow.Swap.Clients.Http.{Method, get, post, Request, Server, macaroon_header}

pub record LndClient : Type 0 where
  pub base_url : Str
  pub macaroon : Str

pub data LndError : Type 0 where
  request_failed read_failed parse_failed stream_failed : LndError
  status_error : ℕ → LndError
  payment_failed : Str → LndError
  status_unknown : Str → LndError

-- The characters of base64; the last two of URLEncoding are "-" and "_".
unfoldable pub base64_char : Bool → ℕ → ℕ
base64_char for_url n =
    if ltb n 26
    then b'A' + n
    else if ltb n 52
    then 71 + n
    else if ltb n 62
    then n - 52 + b'0'
    else if n == 62
    then (if for_url then b'-' else b'+')
    else (if for_url then b'_' else b'/')

-- base64.StdEncoding and URLEncoding, with padding.
unfoldable pub base64 : Bool → Str → Str
unfolding base64_char
base64 for_url [] = []
base64 for_url (a ∷ []) =
    base64_char for_url (a / 4) ∷ base64_char for_url (a % 4 * 16) ∷ b'=' ∷ b'=' ∷ []
base64 for_url (a ∷ b ∷ []) =
    base64_char for_url (a / 4)
    ∷ base64_char for_url (a % 4 * 16 + b / 16)
    ∷ base64_char for_url (b % 16 * 4)
    ∷ b'='
    ∷ []
base64 for_url (a ∷ b ∷ c ∷ s) =
    base64_char for_url (a / 4)
    ∷ base64_char for_url (a % 4 * 16 + b / 16)
    ∷ base64_char for_url (b % 16 * 4 + c / 64)
    ∷ base64_char for_url (c % 64)
    ∷ base64 for_url s

pub record LookupInvoiceResponse : Type 0 where
  pub state : Str
  pub amt_paid_sat : Str
  pub payment_hash : Str

pub record PayInvoiceResponse : Type 0 where
  pub payment_hash : Str
  pub payment_preimage : Str
  pub status : Str
  pub failure_reason : Str

abbrev pub zero_response : PayInvoiceResponse
zero_response = record {
  payment_hash = [];
  payment_preimage = [];
  status = [];
  failure_reason = [];
}

-- json.Unmarshal into a `PayInvoiceResponse`.
abbrev pub pay_response_of : Json → Result LndError PayInvoiceResponse
pay_response_of value = do
  payment_hash ← or_err stream_failed (text_field (lit "payment_hash") value)
  payment_preimage ← or_err stream_failed (text_field (lit "payment_preimage") value)
  status ← or_err stream_failed (text_field (lit "status") value)
  failure_reason ← or_err stream_failed (text_field (lit "failure_reason") value)
  ok (record {
    payment_hash = payment_hash;
    payment_preimage = payment_preimage;
    status = status;
    failure_reason = failure_reason;
  })

abbrev pub result_or_zero : Option Json → Result LndError PayInvoiceResponse
result_or_zero none = ok zero_response
result_or_zero (some value) = pay_response_of value

-- A value of the stream: the member `result` of its object.
unfoldable pub wrapped_result : Json → Result LndError PayInvoiceResponse
wrapped_result value = or_err stream_failed (raw_field (lit "result") value) >>= result_or_zero

-- The switch after the loop.
unfoldable pub by_status : PayInvoiceResponse → Result LndError PayInvoiceResponse
by_status last =
    if str_eq last.status (lit "SUCCEEDED")
    then ok last
    else if str_eq last.status (lit "FAILED")
    then err (payment_failed last.failure_reason)
    else err (status_unknown last.status)

abbrev pub is_final : PayInvoiceResponse → Bool
is_final r = str_eq r.status (lit "SUCCEEDED") || str_eq r.status (lit "FAILED")

-- The loop over the stream, up to a response that is final.
unfoldable pub pay_stream :
    List (Option Json) → PayInvoiceResponse → Result LndError PayInvoiceResponse
pay_stream [] last = by_status last
pay_stream (none ∷ rest) last = err stream_failed
pay_stream (some value ∷ rest) last = elim (wrapped_result value) [
  | err e ↦ err e
  | ok r ↦ elim (is_final r) [ true ↦ by_status r | false ↦ pay_stream rest r ]
]

module _ (json : JsonText) (client : LndClient) (server : Server) where
  abbrev pub request_of : Method → Str → Option Json → Request
  request_of method path body = record {
    method = method;
    url = client.base_url ++ path;
    body = body;
    authorization = macaroon_header client.macaroon;
  }

  -- `do` of the Go code: the bytes of the response.
  unfoldable pub do_request : Method → Str → Option Json → Result LndError Str
  do_request method path body = do
    resp ← or_err request_failed (server (request_of method path body))
    bytes ← or_err read_failed resp.body
    require (not (leb 400 resp.status_code)) (status_error resp.status_code)
    ok bytes

  unfoldable pub add_hold_invoice : Str → ℕ → Str → ℕ → Result LndError Str
  unfolding do_request base64
  add_hold_invoice hash value_sats memo expiry_secs = do
    resp ← do_request post (lit "/v2/invoices/hodl") (
        some (
          object (
            member (lit "hash") (text (base64 false hash)) (
              member (lit "value") (number value_sats) (
                member (lit "memo") (text memo)
                  (member (lit "expiry") (number expiry_secs) no_members))))))
    value ← or_err parse_failed (json.parse resp)
    or_err parse_failed (text_field (lit "payment_request") value)

  unfoldable pub settle_invoice : Str → Result LndError (Unit {0})
  unfolding do_request base64
  settle_invoice preimage = do
    _ ←
        do_request post (lit "/v2/invoices/settle")
          (some (object (member (lit "preimage") (text (base64 false preimage)) no_members)))
    ok tt

  unfoldable pub lookup_invoice : Str → Result LndError LookupInvoiceResponse
  unfolding do_request base64
  lookup_invoice payment_hash = do
    resp ← do_request get (lit "/v2/invoices/lookup?payment_hash=" ++ base64 true payment_hash) none
    value ← or_err parse_failed (json.parse resp)
    state ← or_err parse_failed (text_field (lit "state") value)
    amt_paid_sat ← or_err parse_failed (text_field (lit "amt_paid_sat") value)
    r_hash ← or_err parse_failed (text_field (lit "r_hash") value)
    ok (record { state = state; amt_paid_sat = amt_paid_sat; payment_hash = r_hash })

  unfoldable pub pay_invoice : Str → ℕ → Result LndError PayInvoiceResponse
  unfolding pay_stream
  pay_invoice payreq timeout_secs = do
    resp ← or_err request_failed (
        server (
          request_of post (lit "/v2/router/send") (
            some (
              object (
                member (lit "payment_request") (text payreq)
                  (member (lit "timeout_seconds") (number timeout_secs) no_members))))))
    require (not (leb 400 resp.status_code)) (status_error resp.status_code)
    body ← or_err stream_failed resp.body
    pay_stream (json.stream body) zero_response

  unfoldable pub get_info : Result LndError Str
  unfolding do_request
  get_info = do_request get (lit "/v1/getinfo") none
