-- ===== src/Swap/Clients/Implementation.antt =====
-- The services of pkg/escrow/swap as the clients implement them, over servers that answer from the calls
-- made so far; each call is one request.
use ark_escrow.Base.{
  ℕ, ◌+◌, ◌^◌, Str, lit, true, Option, some, none, List, [], ◌∷◌, Result, ok, err, str_eq,
  if◌then◌else◌,
}
use ark_escrow.Swap.Services.{
  Call, add_hold_invoice, lookup_invoice, settle_invoice, pay_invoice, Log, Vout, InvoiceState,
  unpaid, accepted, settled, canceled, unexpected, Payment, Services,
}
use ark_escrow.Swap.Clients.Json.{
  Json, null, array, Elements, no_elements, element, JsonText, text_field, number_field, raw_field,
}
use ark_escrow.Swap.Clients.Http.{Server}
use ark_escrow.Swap.Clients.Elementsd
use ark_escrow.Swap.Clients.Elementsd.{ElementsdRpc}
use ark_escrow.Swap.Clients.Lnd
use ark_escrow.Swap.Clients.Lnd.{LndClient, LookupInvoiceResponse, PayInvoiceResponse}

abbrev pub to_option : {E A : Type 0} → Result E A → Option A
to_option (ok a) = some a
to_option (err e) = none

abbrev pub option_map : {A B : Type 0} → (A → B) → Option A → Option B
option_map f none = none
option_map f (some a) = some (f a)

abbrev pub option_bind : {A B : Type 0} → Option A → (A → Option B) → Option B
option_bind none f = none
option_bind (some a) f = f a

-- The switch of `WaitForPaymentClaimAndSettle` over the state's text.
unfoldable pub state_of_text : Str → InvoiceState
state_of_text state =
    if str_eq state (lit "ACCEPTED")
    then accepted
    else if str_eq state (lit "SETTLED")
    then settled
    else if str_eq state (lit "CANCELED")
    then canceled
    else if str_eq state (lit "OPEN")
    then unpaid
    else unexpected state

-- json.Unmarshal of the transaction in `FindVoutByAddress`: `n`, a uint32, and the address.
abbrev address_of : Option Json → Option Str
address_of none = some []
address_of (some script) = text_field (lit "address") script

unfoldable pub vout_of_json : Json → Option Vout
vout_of_json value = option_bind (number_field (2 ^ 32) (lit "n") value) λ n.
    option_bind (option_bind (raw_field (lit "scriptPubKey") value) address_of)
      λ address. some (record { n = n; address = address })

unfoldable pub vouts_of : Elements → Option (List Vout)
unfolding vout_of_json
vouts_of no_elements = some []
vouts_of (element value rest) =
    option_bind (vout_of_json value) λ vout. option_map (λ vouts. vout ∷ vouts) (vouts_of rest)

abbrev as_vouts : Option Json → Option (List Vout)
as_vouts none = some []
as_vouts (some null) = some []
as_vouts (some (array values)) = vouts_of values
as_vouts (some _) = none

unfoldable pub transaction_vouts : Option Json → Option (List Vout)
unfolding vouts_of
transaction_vouts none = none
transaction_vouts (some value) = option_bind (raw_field (lit "vout") value) as_vouts

abbrev is_node_call : Call → ℕ
is_node_call (add_hold_invoice _ _ _ _) = 0
is_node_call (lookup_invoice _) = 0
is_node_call (settle_invoice _) = 0
is_node_call (pay_invoice _ _) = 0
is_node_call _ = 1

-- `idCounter.Add(1)`: the id of the next request to the node.
unfoldable pub next_id : Log → ℕ
next_id [] = 1
next_id (call ∷ log) = is_node_call call + next_id log

abbrev pub payment_of : PayInvoiceResponse → Payment
payment_of r = record { status = r.status; preimage = r.payment_preimage; hash = r.payment_hash }

module _ (json : JsonText) (rpc : ElementsdRpc) (lnd : LndClient) (node router : Log → Server)
    (as_bytes : Json → Str) where
  unfoldable pub services_of : Services
  unfolding state_of_text transaction_vouts next_id Elementsd.send_to_address
      Elementsd.get_new_address Elementsd.generate_to_address Elementsd.get_raw_transaction
      Elementsd.send_raw_transaction Elementsd.get_tx_out Lnd.add_hold_invoice Lnd.lookup_invoice
      Lnd.settle_invoice Lnd.pay_invoice
  services_of = record {
    sent_to_address = λ log address amount.
        to_option (Elementsd.send_to_address json rpc (node log) (next_id log) address amount);
    new_address = λ log. to_option (Elementsd.get_new_address json rpc (node log) (next_id log));
    generated = λ log n address.
        to_option (Elementsd.generate_to_address json rpc (node log) (next_id log) n address);
    raw_transaction = λ log txid.
        option_bind
          (to_option (Elementsd.get_raw_transaction json rpc (node log) (next_id log) txid true))
          transaction_vouts;
    sent_raw_transaction = λ log tx_hex.
        to_option (Elementsd.send_raw_transaction json rpc (node log) (next_id log) tx_hex);
    tx_out = λ log txid vout.
        option_map (option_map as_bytes)
          (to_option (Elementsd.get_tx_out json rpc (node log) (next_id log) txid vout));
    hold_invoice = λ log hash value memo expiry.
        to_option (Lnd.add_hold_invoice json lnd (router log) hash value memo expiry);
    invoice_state = λ log hash.
        option_map (λ (r : LookupInvoiceResponse). state_of_text r.state)
          (to_option (Lnd.lookup_invoice json lnd (router log) hash));
    settles = λ log preimage. to_option (Lnd.settle_invoice json lnd (router log) preimage);
    payment = λ log invoice timeout.
        option_map payment_of (to_option (Lnd.pay_invoice json lnd (router log) invoice timeout));
  }
