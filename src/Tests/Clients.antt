-- ===== src/Tests/Clients.antt =====
-- The theorems on the clients of pkg/escrow/swap at a concrete amount and a concrete stream.
use ark_escrow.Base.{Str, true, ◌≢◌, ◌≡◌, ◌↔◌, refl, arith, lit, some, none, str_eq, [], ◌∷◌, ok}
use ark_escrow.Swap.Clients.Json.{
  Json, JsonText, null, text, object, member, no_members, raw_field, text_field,
}
use ark_escrow.Swap.Clients.Amount.{
  amount_text, decimal, padded, read_amount, read_amount-amount_text,
}
use ark_escrow.Swap.Clients.Lnd.{
  PayInvoiceResponse, zero_response, pay_stream, wrapped_result, by_status,
}
use ark_escrow.Hex
use ark_escrow.Swap.Services.{Log}
use ark_escrow.Swap.Payout.{PayoutResult, payout}
use ark_escrow.Swap.Clients.Http.{Server}
use ark_escrow.Swap.Clients.Elementsd.{ElementsdRpc}
use ark_escrow.Swap.Clients.Lnd
use ark_escrow.Swap.Clients.Lnd.{LndClient}
use ark_escrow.Swap.Clients.Implementation.{services_of}
use ark_escrow.Swap.Clients.Paying.{PaidOver, payout-services_of_iff}

amount_works : amount_text 123_456_789 ≡ lit "1.23456789"
unfolding amount_text decimal padded
amount_works = refl

small_amount : amount_text 500 ≡ lit "0.00000500"
unfolding amount_text decimal padded
small_amount = refl

amount_example : read_amount (amount_text 123_456_789) 0 ≡ some 123_456_789
amount_example = read_amount-amount_text 123_456_789 (omega arith)

abbrev in_flight : Json
in_flight = object (
    member (lit "result") (object (member (lit "status") (text (lit "IN_FLIGHT")) no_members))
      no_members)

abbrev succeeded : Json
succeeded = object (
    member (lit "result")
      (object (
        member (lit "Status") (text (lit "SUCCEEDED"))
          (member (lit "payment_preimage") (text (lit "03")) no_members)))
      no_members)

abbrev response : PayInvoiceResponse
response = record zero_response { status = lit "SUCCEEDED"; payment_preimage = lit "03" }

stream_works : pay_stream (some in_flight ∷ some succeeded ∷ none ∷ []) zero_response ≡ ok response
unfolding pay_stream wrapped_result raw_field str_eq text_field by_status
stream_works = refl

abbrev json_text : JsonText
json_text = record {
  encode = λ value. [];
  parse = λ bytes. some null;
  stream = λ bytes. some in_flight ∷ some succeeded ∷ none ∷ [];
}

abbrev rpc : ElementsdRpc
rpc = record { url = []; wallet_url = lit "/wallet/ark"; username = []; password = [] }

abbrev lnd : LndClient
lnd = record { base_url = lit "https://localhost:18080"; macaroon = lit "02" }

abbrev node : Log → Server
node log request = none

abbrev router : Log → Server
router log request = some (record { status_code = 200; body = some [] })

abbrev as_bytes : Json → Str
as_bytes value = []

abbrev result : PayoutResult
result = record { preimage = 3 ∷ []; payment_hash = [] }

payout_over_http_example :
    ((payout (services_of json_text rpc lnd node router as_bytes) true (lit "lnbc") 0 []).0
      ≡ ok result)
    ↔ ((lit "lnbc" ≢ []) × PaidOver json_text rpc lnd node router as_bytes (lit "lnbc") 0 [] result)
payout_over_http_example =
    payout-services_of_iff json_text rpc lnd node router as_bytes (lit "lnbc") 0 [] result

payout_works :
    (payout (services_of json_text rpc lnd node router as_bytes) true (lit "lnbc") 0 []).0
    ≡ ok result
unfolding payout services_of Lnd.pay_invoice pay_stream wrapped_result raw_field str_eq text_field
    by_status Hex.decode_string
payout_works = refl
