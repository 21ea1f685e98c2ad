-- ===== src/Swap/Services.antt =====
-- The services that pkg/escrow/swap calls: elementsd (htlc.go, rpc.go) and LND (lnd.go), seen as
-- parties that answer from the calls made so far. A computation passes on the log of its calls, the
-- latest first.
use ark_escrow.Base.{ℕ, Str, Option, none, some, List, ◌∷◌, Result, ok, err}

pub data Call : Type 0 where
  send_to_address : Str → ℕ → Call
  get_new_address : Call
  generate_to_address : ℕ → Str → Call
  get_raw_transaction : Str → Call
  send_raw_transaction : Str → Call
  get_tx_out : Str → ℕ → Call
  add_hold_invoice : Str → ℕ → Str → ℕ → Call
  lookup_invoice : Str → Call
  settle_invoice : Str → Call
  pay_invoice : Str → ℕ → Call

abbrev pub Log : Type 0
Log = List Call

-- An entry of `vout` in a transaction's JSON: `n` and the address of its `scriptPubKey`.
pub record Vout : Type 0 where
  pub n : ℕ
  pub address : Str

-- `LookupInvoice`'s state; `unpaid` is "OPEN", and a state of another name is
-- `unexpected`.
pub data InvoiceState : Type 0 where
  unpaid accepted settled canceled : InvoiceState
  unexpected : Str → InvoiceState

-- `PayInvoice`'s answer: status, preimage and hash, the last two in hex.
pub record Payment : Type 0 where
  pub status : Str
  pub preimage : Str
  pub hash : Str

-- What each call answers at a log; `none` is an error.
pub record Services : Type 0 where
  pub sent_to_address : Log → Str → ℕ → Option Str
  pub new_address : Log → Option Str
  pub generated : Log → ℕ → Str → Option (List Str)
  pub raw_transaction : Log → Str → Option (List Vout)
  pub sent_raw_transaction : Log → Str → Option Str
  -- `GetTxOut`: the inner `none` is the nil of an output that is spent
  pub tx_out : Log → Str → ℕ → Option (Option Str)
  pub hold_invoice : Log → Str → ℕ → Str → ℕ → Option Str
  pub invoice_state : Log → Str → Option InvoiceState
  pub settles : Log → Str → Option (Unit {0})
  pub payment : Log → Str → ℕ → Option Payment

abbrev pub Calls : Type 0 → Type 0 → Type 0
Calls E A = Log → Result E A × Log

infixl 5 ◌>>=◌ ◌>>◌
abbrev pub go_on : {E A B : Type 0} → Result E A × Log → (A → Calls E B) → Result E B × Log
go_on (ok a, log) f = f a log
go_on (err e, log) f = (err e, log)

abbrev pub ◌>>=◌ : {E A B : Type 0} → Calls E A → (A → Calls E B) → Calls E B
m >>= f = λ log. go_on (m log) f

abbrev pub ◌>>◌ : {E A B : Type 0} → Calls E A → Calls E B → Calls E B
m >> k = m >>= λ _. k

abbrev pub return : {E A : Type 0} → Result E A → Calls E A
return r = λ log. (r, log)

abbrev pub answer : {E A : Type 0} → E → Option A → Result E A
answer e none = err e
answer e (some a) = ok a

-- A call, with the answer of the service at the log before it.
abbrev pub call : {E A : Type 0} → Call → E → (Log → Option A) → Calls E A
call c e f = λ log. (answer e (f log), c ∷ log)
