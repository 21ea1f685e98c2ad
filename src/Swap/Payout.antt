-- ===== src/Swap/Payout.antt =====
-- pkg/escrow/swap/payout.go: the payment of an invoice out of a claimed escrow.
use ark_escrow.Base.{
  ℕ, Str, lit, is_empty, not, str_eq, str_eq_iff, ◌==◌, if◌then◌else◌, Bool, true,
}
use ark_escrow.Base.{some, ok, or_err, require, ◌≡◌, ◌≢◌, ◌↔◌, arith, [], Option-cases, inl, inr}
use ark_escrow.Hex
use ark_escrow.Swap.Services.{pay_invoice, Services, Payment, Log, Calls, ◌>>=◌, ◌>>◌, return, call}

pub record PayoutResult : Type 0 where
  pub preimage : Str
  pub payment_hash : Str

pub data PayoutError : Type 0 where
  client_missing request_missing payment_failed bad_preimage bad_payment_hash : PayoutError
  not_succeeded : Str → PayoutError

abbrev pub timeout_or_default : ℕ → ℕ
timeout_or_default timeout_secs = if timeout_secs == 0 then 60 else timeout_secs

module _ (services : Services) where
  unfoldable pub payout : Bool → Str → ℕ → Calls PayoutError PayoutResult
  payout has_lnd payment_request timeout_secs = do
    return (require has_lnd client_missing)
    return (require (not (is_empty payment_request)) request_missing)
    let timeout = timeout_or_default timeout_secs
    resp ←
        call (pay_invoice payment_request timeout) payment_failed
          (λ log. services.payment log payment_request timeout)
    return (require (str_eq resp.status (lit "SUCCEEDED")) (not_succeeded resp.status))
    preimage ← return (or_err bad_preimage (Hex.decode_string resp.preimage))
    payment_hash ← return (or_err bad_payment_hash (Hex.decode_string resp.hash))
    return (ok (record { preimage = preimage; payment_hash = payment_hash }))

  -- A payment that LND reports as made, with the preimage and the hash that it reports.
  pub record Paid (payment_request : Str) (timeout_secs : ℕ) (log : Log) (r : PayoutResult)
      : Type 0 where
    pub resp : Payment
    pub answers : services.payment log payment_request (timeout_or_default timeout_secs) ≡ some resp
    pub succeeded : resp.status ≡ lit "SUCCEEDED"
    pub preimage_reads : Hex.decode_string resp.preimage ≡ some r.preimage
    pub hash_reads : Hex.decode_string resp.hash ≡ some r.payment_hash

  payout→Paid :
      (request : Str) (timeout : ℕ) (log : Log) (r : PayoutResult)
      → (payout true request timeout log).0 ≡ ok r
      → (request ≢ []) × Paid request timeout log r
  unfolding payout
  payout→Paid request timeout log r h =
      elim (Option-cases (services.payment log request (timeout_or_default timeout))) [
        | inl e ↦ ground arith
        | inr (resp, e) ↦ (
          ground arith,
          record {
            resp = resp;
            answers = e;
            succeeded = ground (arith, str_eq_iff resp.status (lit "SUCCEEDED"));
            preimage_reads = ground arith;
            hash_reads = ground arith;
          },
        )
      ]

  Paid→payout :
      (request : Str) (timeout : ℕ) (log : Log) (r : PayoutResult)
      → request ≢ []
      → Paid request timeout log r
      → (payout true request timeout log).0 ≡ ok r
  unfolding payout
  Paid→payout request timeout log r asked h =
      ground (arith, str_eq_iff h.resp.status (lit "SUCCEEDED"))

  -- With a client the payout succeeds exactly if there is an invoice and LND answers its payment
  -- with the status "SUCCEEDED" and hexadecimal for preimage and hash, which are the result.
  pub payout_iff :
      (request : Str) (timeout : ℕ) (log : Log) (r : PayoutResult)
      → ((payout true request timeout log).0 ≡ ok r) ↔ ((request ≢ []) × Paid request timeout log r)
  payout_iff request timeout log r =
      (payout→Paid request timeout log r, λ h. Paid→payout request timeout log r h.0 h.1)
