-- ===== src/Command/Settle/Counts.antt =====
-- The claims and the payments in a log of calls.
use ark_escrow.Base.{
  ℕ, ◌+◌, Str, Option, some, none, [], ◌∷◌, Result, err, ◌≡◌, refl, arith, ◌⊎◌, inl, inr, true,
  Bool-cases, is_empty,
}
use ark_escrow.Swap.Services.{Services, Log, Call, send_raw_transaction, pay_invoice}
use ark_escrow.Swap.Payout.{PayoutResult, PayoutError, request_missing, payout}

abbrev one_if_some : {A : Type 0} → Option A → ℕ
one_if_some none = 0
one_if_some (some _) = 1

module _ (services : Services) where
  abbrev pub is_claim : Call → Log → ℕ
  is_claim (send_raw_transaction tx_hex) log =
      one_if_some (services.sent_raw_transaction log tx_hex)
  is_claim _ log = 0

  -- The transactions of a log that the node took.
  unfoldable pub claims : Log → ℕ
  claims [] = 0
  claims (call ∷ log) = is_claim call log + claims log

abbrev is_payment : Call → ℕ
is_payment (pay_invoice _ _) = 1
is_payment _ = 0

-- The payments of a log, made or tried.
unfoldable pub payments : Log → ℕ
payments [] = 0
payments (call ∷ log) = is_payment call + payments log

pub payout-cases :
    (services : Services) (invoice : Str) (log : Log)
    → ((e : PayoutError) × (payout services true invoice 0 log ≡ (err e, log)))
      ⊎ ((r : Result PayoutError PayoutResult) × (payout services true invoice 0 log
            ≡ (r, pay_invoice invoice 60 ∷ log)))
unfolding payout
payout-cases services invoice log = elim (Bool-cases (is_empty invoice)) [
  | inl e ↦ inl (request_missing, rw e refl)
  | inr e ↦
      let asked : (payout services true invoice 0 log).1 ≡ pay_invoice invoice 60 ∷ log =
        ground arith in
      inr (
        (payout services true invoice 0 log).0,
        λ i. ((payout services true invoice 0 log).0, asked i),
      )
]
