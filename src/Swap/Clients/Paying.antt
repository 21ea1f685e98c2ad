-- ===== src/Swap/Clients/Paying.antt =====
-- A payout of pkg/escrow/swap/payout.go through the LND client of pkg/escrow/swap/lnd.go.
use ark_escrow.Base.{
  ℕ, Str, lit, true, false, some, [], Result, ok, err, ◌≡◌, ◌≢◌, refl, sym, ap, ◌∙◌, ◌↔◌, arith,
  Bool-cases, Option-cases, inl, inr, leb,
}
use ark_escrow.Hex
use ark_escrow.Swap.Services.{Services, Log, Payment}
use ark_escrow.Swap.Payout.{PayoutResult, payout, Paid, payout_iff, timeout_or_default}
use ark_escrow.Swap.Clients.Json.{Json, JsonText, text, number, object, member, no_members}
use ark_escrow.Swap.Clients.Http.{Response, Server, post}
use ark_escrow.Swap.Clients.Elementsd.{ElementsdRpc}
use ark_escrow.Swap.Clients.Lnd
use ark_escrow.Swap.Clients.Lnd.{LndClient, PayInvoiceResponse, zero_response, pay_stream}
use ark_escrow.Swap.Clients.Stream.{Pays, Pays-status, pay_stream_iff}
use ark_escrow.Swap.Clients.Implementation.{services_of, payment_of, to_option, option_map}

-- The body of a payment's request.
abbrev pub pay_body : Str → ℕ → Json
pay_body payreq timeout_secs = object (
    member (lit "payment_request") (text payreq)
      (member (lit "timeout_seconds") (number timeout_secs) no_members))

module _ (json : JsonText) (client : LndClient) (server : Server) where
  -- The server takes the payment's request, and the stream that it answers ends with this payment.
  pub record Sends (payreq : Str) (timeout_secs : ℕ) (final : PayInvoiceResponse) : Type 0 where
    pub resp : Response
    pub answers :
        server (
          Lnd.request_of json client server post
            (lit "/v2/router/send")
            (some (pay_body payreq timeout_secs)))
        ≡ some resp
    pub no_error : leb 400 resp.status_code ≡ false
    pub body : Str
    pub has_body : resp.body ≡ some body
    pub pays : Pays (json.stream body) final

  pay_invoice→Sends :
      (payreq : Str) (timeout_secs : ℕ) (final : PayInvoiceResponse)
      → Lnd.pay_invoice json client server payreq timeout_secs ≡ ok final
      → Sends payreq timeout_secs final
  unfolding Lnd.pay_invoice
  pay_invoice→Sends payreq timeout_secs final h =
      elim (Option-cases (
        server (
          Lnd.request_of json client server post (lit "/v2/router/send")
            (some (pay_body payreq timeout_secs))))) [
              | inl e ↦ ground arith
              | inr (resp, e) ↦ elim (Bool-cases (leb 400 resp.status_code)) [
                | inl e' ↦ ground arith
                | inr e' ↦ elim (Option-cases resp.body) [
                  | inl e'' ↦ ground arith
                  | inr (body, e'') ↦ record {
                    resp = resp;
                    answers = e;
                    no_error = e';
                    body = body;
                    has_body = e'';
                    pays = (pay_stream_iff (json.stream body) final).0 (ground arith);
                  }
                ]
              ]
            ]

  Sends→pay_invoice :
      (payreq : Str) (timeout_secs : ℕ) (final : PayInvoiceResponse)
      → Sends payreq timeout_secs final
      → Lnd.pay_invoice json client server payreq timeout_secs ≡ ok final
  unfolding Lnd.pay_invoice
  Sends→pay_invoice payreq timeout_secs final h =
      rw (h.answers, h.no_error, h.has_body) ((pay_stream_iff (json.stream h.body) final).1 h.pays)

payment-made :
    (r : Result Lnd.LndError PayInvoiceResponse) (resp : Payment)
    → option_map payment_of (to_option r) ≡ some resp
    → (final : PayInvoiceResponse) × (r ≡ ok final) × (resp ≡ payment_of final)
payment-made (err e) resp h = ground arith
payment-made (ok final) resp h = (final, refl, ground arith)

module _ (json : JsonText) (rpc : ElementsdRpc) (lnd : LndClient) (node router : Log → Server)
    (as_bytes : Json → Str) where
  abbrev clients : Services
  clients = services_of json rpc lnd node router as_bytes

  -- A payment that the router streams as made, with the preimage and the hash that it reports.
  pub record PaidOver (request : Str) (timeout : ℕ) (log : Log) (r : PayoutResult) : Type 0 where
    pub final : PayInvoiceResponse
    pub sends : Sends json lnd (router log) request (timeout_or_default timeout) final
    pub preimage_reads : Hex.decode_string final.payment_preimage ≡ some r.preimage
    pub hash_reads : Hex.decode_string final.payment_hash ≡ some r.payment_hash

  clients-payment :
      (log : Log) (request : Str) (timeout : ℕ)
      → clients.payment log request timeout
        ≡ option_map payment_of (to_option (Lnd.pay_invoice json lnd (router log) request timeout))
  unfolding services_of
  clients-payment log request timeout = refl

  Paid→PaidOver :
      (request : Str) (timeout : ℕ) (log : Log) (r : PayoutResult)
      → Paid clients request timeout log r
      → PaidOver request timeout log r
  Paid→PaidOver request timeout log r h =
      let made =
        payment-made (Lnd.pay_invoice json lnd (router log) request (timeout_or_default timeout))
          h.resp (sym (clients-payment log request (timeout_or_default timeout)) ∙ h.answers) in
      record {
        final = made.0;
        sends =
            pay_invoice→Sends json lnd (router log) request (timeout_or_default timeout) made.0
              made.1;
        preimage_reads =
            ap (λ (p : Payment). Hex.decode_string p.preimage) (sym made.2) ∙ h.preimage_reads;
        hash_reads = ap (λ (p : Payment). Hex.decode_string p.hash) (sym made.2) ∙ h.hash_reads;
      }

  PaidOver→Paid :
      (request : Str) (timeout : ℕ) (log : Log) (r : PayoutResult)
      → PaidOver request timeout log r
      → Paid clients request timeout log r
  PaidOver→Paid request timeout log r h = record {
    resp = payment_of h.final;
    answers =
        clients-payment log request (timeout_or_default timeout)
        ∙ ap (λ (p : Result Lnd.LndError PayInvoiceResponse). option_map payment_of (to_option p))
            (Sends→pay_invoice json lnd (router log) request (timeout_or_default timeout) h.final
              h.sends);
    succeeded = Pays-status (json.stream h.sends.body) h.final h.sends.pays;
    preimage_reads = h.preimage_reads;
    hash_reads = h.hash_reads;
  }

  -- Through the clients, a payout succeeds exactly if there is an invoice, the LND server answers the
  -- payment's request with a status below 400 and a stream whose first response with the status "SUCCEEDED" or
  -- "FAILED" has succeeded, after values that are all responses, and its preimage and hash are hexadecimal,
  -- which are the result.
  pub payout-services_of_iff :
      (request : Str) (timeout : ℕ) (log : Log) (r : PayoutResult)
      → ((payout clients true request timeout log).0 ≡ ok r)
        ↔ ((request ≢ []) × PaidOver request timeout log r)
  payout-services_of_iff request timeout log r = (
    λ h.
        let paid = (payout_iff clients request timeout log r).0 h in
        (paid.0, Paid→PaidOver request timeout log r paid.1),
    λ h.
        (payout_iff clients request timeout log r).1 (h.0, PaidOver→Paid request timeout log r h.1),
  )
