-- ===== src/Swap/Clients/Stream.antt =====
-- The stream of `PayInvoice` in pkg/escrow/swap/lnd.go.
use ark_escrow.Base.{
  lit, true, false, Option, some, none, List, [], ◌∷◌, ok, ◌≡◌, refl, sym, ap, ◌∙◌, ◌↔◌, arith,
  Bool-cases, Result-cases, inl, inr, str_eq, str_eq_iff,
}
use ark_escrow.Swap.Clients.Json.{Json}
use ark_escrow.Swap.Clients.Lnd.{
  PayInvoiceResponse, zero_response, wrapped_result, by_status, is_final, pay_stream,
}

-- The first response of a stream that is final is this one, and it has succeeded; before it every value is a response.
pub data Pays : List (Option Json) → PayInvoiceResponse → Type 0 where
  now :
      (value : Json) (rest : List (Option Json)) (r : PayInvoiceResponse)
      → wrapped_result value ≡ ok r
      → r.status ≡ lit "SUCCEEDED"
      → Pays (some value ∷ rest) r
  later :
      (value : Json) (rest : List (Option Json)) (earlier r : PayInvoiceResponse)
      → wrapped_result value ≡ ok earlier
      → is_final earlier ≡ false
      → Pays rest r
      → Pays (some value ∷ rest) r

by_status-eq :
    (r r' : PayInvoiceResponse) → by_status r ≡ ok r' → (r.status ≡ lit "SUCCEEDED") × (r ≡ r')
unfolding by_status
by_status-eq r r' h = ground (arith, str_eq_iff r.status (lit "SUCCEEDED"))

by_status-succeeded : (r : PayInvoiceResponse) → r.status ≡ lit "SUCCEEDED" → by_status r ≡ ok r
unfolding by_status
by_status-succeeded r h = ground (arith, str_eq_iff r.status (lit "SUCCEEDED"))

by_status-unfinished :
    (last r : PayInvoiceResponse) → is_final last ≡ false → ¬ (by_status last ≡ ok r)
unfolding by_status
by_status-unfinished last r h h' = ground arith

succeeded_final : (r : PayInvoiceResponse) → r.status ≡ lit "SUCCEEDED" → is_final r ≡ true
succeeded_final r h = ground (arith, str_eq_iff r.status (lit "SUCCEEDED"))

final_step :
    (value : Json) (rest : List (Option Json)) (last found : PayInvoiceResponse)
    → wrapped_result value ≡ ok found
    → is_final found ≡ true
    → pay_stream (some value ∷ rest) last ≡ by_status found
unfolding pay_stream
final_step value rest last found w f = ground (arith, w, f)

unfinished_step :
    (value : Json) (rest : List (Option Json)) (last found : PayInvoiceResponse)
    → wrapped_result value ≡ ok found
    → is_final found ≡ false
    → pay_stream (some value ∷ rest) last ≡ pay_stream rest found
unfolding pay_stream
unfinished_step value rest last found w f = ground (arith, w, f)

pay_stream→Pays :
    (values : List (Option Json)) (last r : PayInvoiceResponse)
    → is_final last ≡ false
    → pay_stream values last ≡ ok r
    → Pays values r
unfolding pay_stream
pay_stream→Pays [] last r unfinished h = absurd (by_status-unfinished last r unfinished h)
pay_stream→Pays (none ∷ rest) last r unfinished h = ground arith
pay_stream→Pays (some value ∷ rest) last r unfinished h =
    elim (Result-cases (wrapped_result value)) [
      | inr (e, w) ↦ ground arith
      | inl (found, w) ↦ elim (Bool-cases (is_final found)) [
        | inl f ↦
            let done = by_status-eq found r (sym (final_step value rest last found w f) ∙ h) in
            now value rest r (w ∙ ap ok done.1)
              (ap (λ (p : PayInvoiceResponse). p.status) (sym done.1) ∙ done.0)
        | inr f ↦
            later value rest found r w f
              (pay_stream→Pays rest found r f (sym (unfinished_step value rest last found w f) ∙ h))
      ]
    ]

Pays→pay_stream :
    (values : List (Option Json)) (last r : PayInvoiceResponse)
    → Pays values r
    → pay_stream values last ≡ ok r
unfolding pay_stream
Pays→pay_stream _ last r (now value rest _ w s) =
    final_step value rest last r w (succeeded_final r s) ∙ by_status-succeeded r s
Pays→pay_stream _ last r (later value rest earlier _ w f p) =
    unfinished_step value rest last earlier w f ∙ Pays→pay_stream rest earlier r p

-- The loop and the switch after it answer a response exactly if it is the first of the stream with the
-- status "SUCCEEDED" or "FAILED", its status is "SUCCEEDED", and every value before it is a response.
pub pay_stream_iff :
    (values : List (Option Json)) (r : PayInvoiceResponse)
    → (pay_stream values zero_response ≡ ok r) ↔ Pays values r
unfolding str_eq
pay_stream_iff values r =
    (pay_stream→Pays values zero_response r refl, Pays→pay_stream values zero_response r)

pub Pays-status :
    (values : List (Option Json)) (r : PayInvoiceResponse)
    → Pays values r
    → r.status ≡ lit "SUCCEEDED"
Pays-status _ r (now value rest _ w s) = s
Pays-status _ r (later value rest earlier _ w f p) = Pays-status rest r p
