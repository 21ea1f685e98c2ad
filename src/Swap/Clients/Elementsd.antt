-- ===== src/Swap/Clients/Elementsd.antt =====
-- The JSON-RPC client of pkg/escrow/swap/rpc.go, and the calls of htlc.go, each as the answer to its
-- one request. The counter of request ids is an argument.
use ark_escrow.Base.{
  ltb, ◌^◌, ℕ, Str, lit, Bool, Option, some, none, List, [], ◌∷◌, ◌++◌, Result, ok, err, ◌>>=◌,
  or_err, is_empty, str_eq, if◌then◌else◌, ◌||◌,
}
use ark_escrow.Swap.Clients.Json.{
  Json, null, bool, number, text, array, object, Elements, no_elements, element, no_members, member,
  JsonText, as_text, raw_field,
}
use ark_escrow.Swap.Clients.Http.{Request, Server, post, basic_auth}
use ark_escrow.Swap.Clients.Amount.{amount_text}

-- url.Parse: scheme, host, path, and the user's name and password ("" where absent).
pub record Url : Type 0 where
  pub scheme : Str
  pub host : Str
  pub path : Str
  pub username : Str
  pub password : Str

pub record ElementsdRpc : Type 0 where
  pub url : Str
  pub wallet_url : Str
  pub username : Str
  pub password : Str

pub data RpcError : Type 0 where
  invalid_url request_failed read_failed parse_failed : RpcError
  -- an object that holds the code and the message
  rpc_error : Json → RpcError
  bad_result : RpcError

unfoldable pub new_elementsd_rpc : (Str → Option Url) → Str → Result RpcError ElementsdRpc
new_elementsd_rpc parse_url elementsd_url = do
  parsed ← or_err invalid_url (parse_url elementsd_url)
  let host_url = parsed.scheme ++ lit "://" ++ parsed.host
  let base_url =
      if is_empty parsed.path || str_eq parsed.path (lit "/")
      then host_url
      else host_url ++ parsed.path
  ok (record {
    url = base_url;
    wallet_url = base_url ++ lit "/wallet/ark";
    username = parsed.username;
    password = parsed.password;
  })

abbrev pub params_of : List Json → Elements
params_of [] = no_elements
params_of (p ∷ ps) = element p (params_of ps)

abbrev pub rpc_request : ℕ → Str → List Json → Json
rpc_request id method params = object (
    member (lit "jsonrpc") (text (lit "2.0")) (
      member (lit "id") (number id) (
        member (lit "method") (text method)
          (member (lit "params") (array (params_of params)) no_members))))

-- `rpcResp.Error != nil`: neither absent nor null.
abbrev pub given : Option Json → Option Json
given none = none
given (some null) = none
given (some e) = some e

module _ (json : JsonText) (rpc : ElementsdRpc) (server : Server) where
  abbrev pub request_of : ℕ → Str → List Json → Request
  request_of id method params = record {
    method = post;
    url = rpc.wallet_url;
    body = some (rpc_request id method params);
    authorization = basic_auth rpc.username rpc.password;
  }

  -- `call`, at the wallet's URL: the member `result` as it stands, `none` if absent.
  unfoldable pub call : ℕ → Str → List Json → Result RpcError (Option Json)
  call id method params = do
    resp ← or_err request_failed (server (request_of id method params))
    bytes ← or_err read_failed resp.body
    value ← or_err parse_failed (json.parse bytes)
    error ← or_err parse_failed (raw_field (lit "error") value)
    result ← or_err parse_failed (raw_field (lit "result") value)
    elim (given error) as (λ _. Result RpcError (Option Json)) [
      | none ↦ ok result
      | some (object members) ↦ err (rpc_error (object members))
      | some _ ↦ err parse_failed
    ]

  -- json.Unmarshal of a result into a string.
  abbrev pub text_result : Option Json → Result RpcError Str
  text_result none = err bad_result
  text_result (some value) = or_err bad_result (as_text value [])

  unfoldable pub send_to_address : ℕ → Str → ℕ → Result RpcError Str
  unfolding call
  send_to_address id address amount_sats = do
    result ← call id (lit "sendtoaddress") (text address ∷ text (amount_text amount_sats) ∷ [])
    text_result result

  unfoldable pub get_new_address : ℕ → Result RpcError Str
  unfolding call
  get_new_address id = do
    result ← call id (lit "getnewaddress") (text [] ∷ text (lit "bech32") ∷ [])
    text_result result

  abbrev pub cons_text : Option Str → Option (List Str) → Option (List Str)
  cons_text (some s) (some ss) = some (s ∷ ss)
  cons_text _ _ = none

  abbrev pub texts : Elements → Option (List Str)
  texts no_elements = some []
  texts (element value rest) = cons_text (as_text value []) (texts rest)

  -- json.Unmarshal of a result into a slice of strings.
  abbrev pub texts_result : Option Json → Result RpcError (List Str)
  texts_result (some (array values)) = or_err bad_result (texts values)
  texts_result (some null) = ok []
  texts_result _ = err bad_result

  unfoldable pub generate_to_address : ℕ → ℕ → Str → Result RpcError (List Str)
  unfolding call
  generate_to_address id nblocks address = do
    result ← call id (lit "generatetoaddress") (number nblocks ∷ text address ∷ [])
    texts_result result

  -- json.Unmarshal of a result into an int64, where it is not negative.
  abbrev pub count_result : Option Json → Result RpcError ℕ
  count_result (some (number n)) = if ltb n (2 ^ 63) then ok n else err bad_result
  count_result (some null) = ok 0
  count_result _ = err bad_result

  unfoldable pub get_block_count : ℕ → Result RpcError ℕ
  unfolding call
  get_block_count id = do result ← call id (lit "getblockcount") []; count_result result

  unfoldable pub get_raw_transaction : ℕ → Str → Bool → Result RpcError (Option Json)
  unfolding call
  get_raw_transaction id txid verbose =
      call id (lit "getrawtransaction") (text txid ∷ bool verbose ∷ [])

  unfoldable pub send_raw_transaction : ℕ → Str → Result RpcError Str
  unfolding call
  send_raw_transaction id tx_hex = do
    result ← call id (lit "sendrawtransaction") (text tx_hex ∷ [])
    text_result result

  -- `if string(result) == "null" { return nil, nil }`; an absent result is nil, too.
  unfoldable pub get_tx_out : ℕ → Str → ℕ → Result RpcError (Option Json)
  unfolding call
  get_tx_out id txid vout = do
    result ← call id (lit "gettxout") (text txid ∷ number vout ∷ [])
    ok (given result)
