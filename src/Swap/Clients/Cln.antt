-- ===== src/Swap/Clients/Cln.antt =====
-- The Core Lightning client of pkg/escrow/swap/cln.go: each call is one command, whose combined output
-- is read as JSON.
use ark_escrow.Base.{
  ℕ, ◌^◌, Str, lit, Option, List, [], ◌∷◌, ◌++◌, Result, ok, ◌>>=◌, or_err, is_empty, if◌then◌else◌,
}
use ark_escrow.Swap.Clients.Json.{JsonText, text_field, number_field}
use ark_escrow.Swap.Clients.Amount.{decimal}

pub record ClnClient : Type 0 where
  pub container : Str
  pub network : Str

unfoldable pub new_cln_client : Str → Str → ClnClient
new_cln_client container network = record {
  container = if is_empty container then lit "cln" else container;
  network = if is_empty network then lit "regtest" else network;
}

pub data ClnError : Type 0 where
  command_failed : Str → ClnError
  parse_failed : ClnError

pub record PayResponse : Type 0 where
  pub payment_preimage : Str
  pub payment_hash : Str
  pub status : Str
  pub amount_msat : ℕ  -- uint64
  pub amount_sent_msat : ℕ  -- uint64

pub record InvoiceResponse : Type 0 where
  pub bolt11 : Str
  pub payment_hash : Str
  pub expires_at : ℕ  -- int64, where it is not negative

pub record InvoiceStatus : Type 0 where
  pub label : Str
  pub status : Str
  pub amount_msat : ℕ  -- uint64
  pub amount_recv_msat : ℕ  -- uint64

-- `execute` runs a command with its arguments, and gives its output unless it fails.
module _ (json : JsonText) (execute : Str → List Str → Option Str) (client : ClnClient) where
  unfoldable pub call : Str → List Str → Result ClnError Str
  call method args = or_err (command_failed method) (
      execute (lit "docker") (
        lit "exec"
        ∷ client.container
        ∷ lit "lightning-cli"
        ∷ (lit "--network=" ++ client.network)
        ∷ method
        ∷ args))

  unfoldable pub pay : Str → Result ClnError PayResponse
  unfolding call
  pay bolt11 = do
    resp ← call (lit "pay") (bolt11 ∷ [])
    value ← or_err parse_failed (json.parse resp)
    payment_preimage ← or_err parse_failed (text_field (lit "payment_preimage") value)
    payment_hash ← or_err parse_failed (text_field (lit "payment_hash") value)
    status ← or_err parse_failed (text_field (lit "status") value)
    amount_msat ← or_err parse_failed (number_field (2 ^ 64) (lit "amount_msat") value)
    amount_sent_msat ← or_err parse_failed (number_field (2 ^ 64) (lit "amount_sent_msat") value)
    ok (record {
      payment_preimage = payment_preimage;
      payment_hash = payment_hash;
      status = status;
      amount_msat = amount_msat;
      amount_sent_msat = amount_sent_msat;
    })

  unfoldable pub create_invoice : ℕ → Str → Str → Result ClnError InvoiceResponse
  unfolding call decimal
  create_invoice amount_msat label description = do
    resp ← call (lit "invoice") (decimal 20 amount_msat ∷ label ∷ description ∷ [])
    value ← or_err parse_failed (json.parse resp)
    bolt11 ← or_err parse_failed (text_field (lit "bolt11") value)
    payment_hash ← or_err parse_failed (text_field (lit "payment_hash") value)
    expires_at ← or_err parse_failed (number_field (2 ^ 63) (lit "expires_at") value)
    ok (record { bolt11 = bolt11; payment_hash = payment_hash; expires_at = expires_at })

  unfoldable pub get_info : Result ClnError Str
  unfolding call
  get_info = call (lit "getinfo") []

  unfoldable pub list_funds : Result ClnError Str
  unfolding call
  list_funds = call (lit "listfunds") []

  unfoldable pub wait_invoice : Str → Result ClnError InvoiceStatus
  unfolding call
  wait_invoice label = do
    resp ← call (lit "waitinvoice") (label ∷ [])
    value ← or_err parse_failed (json.parse resp)
    found_label ← or_err parse_failed (text_field (lit "label") value)
    status ← or_err parse_failed (text_field (lit "status") value)
    amount_msat ← or_err parse_failed (number_field (2 ^ 64) (lit "amount_msat") value)
    amount_recv_msat ←
        or_err parse_failed (number_field (2 ^ 64) (lit "amount_received_msat") value)
    ok (record {
      label = found_label;
      status = status;
      amount_msat = amount_msat;
      amount_recv_msat = amount_recv_msat;
    })
