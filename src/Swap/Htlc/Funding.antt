-- ===== src/Swap/Htlc/Funding.antt =====
-- `CreateAndFundHTLC`, `SpendHTLC` and `FindVoutByAddress` of pkg/escrow/swap/liquid_htlc.go, as calls
-- of the node.
use ark_escrow.Base.{
  ℕ, Str, true, false, str_eq, Option, none, some, List, [], ◌∷◌, ok, or_err, wrap_err,
}
use ark_escrow.Curve.{Curve}
use ark_escrow.Script.Txscript.{Txscript}
use ark_escrow.Escrow.Elements.{Taproot}
use ark_escrow.Swap.Pset.{Network, Psetv2, extract_failed}
use ark_escrow.Swap.Services.{
  send_to_address, get_raw_transaction, send_raw_transaction, Services, Calls, Vout, ◌>>=◌, return,
  call,
}
use ark_escrow.Swap.Htlc.{
  HtlcScript, HtlcError, funding_failed, lookup_failed, vout_not_found, pset_failed,
  elements_failed, new_htlc_script, htlc_p2tr_script, htlc_address, SpendHtlcConfig, spend_pset,
}

pub record HtlcFundResult (Key : Type 0) : Type 0 where
  pub htlc : HtlcScript Key
  pub tx_id : Str
  pub vout : ℕ
  pub amount : ℕ
  pub p2tr_script : Str

-- The loop over the outputs.
unfoldable pub vout_of : Str → List Vout → Option ℕ
vout_of address [] = none
vout_of address (vout ∷ vouts) =
    let rest = vout_of address vouts in
    elim (str_eq vout.address address) [ true ↦ some vout.n | false ↦ rest ]

module _ (services : Services) where
  unfoldable pub find_vout_by_address : Str → Str → Calls HtlcError ℕ
  unfolding vout_of
  find_vout_by_address txid address = do
    vouts ← call (get_raw_transaction txid) lookup_failed (λ log. services.raw_transaction log txid)
    return (or_err vout_not_found (vout_of address vouts))

  module _ (c : Curve) (tx : Txscript) (taproot : Taproot c.PublicKey) where
    unfoldable pub create_and_fund_htlc :
        Option c.PublicKey
        → Option c.PublicKey
        → Str
        → ℕ
        → ℕ
        → Str
        → Calls HtlcError (HtlcFundResult c.PublicKey)
    unfolding find_vout_by_address
    create_and_fund_htlc receiver sender payment_hash amount timeout_blocks network_hrp = do
      htlc ← return (new_htlc_script tx receiver sender payment_hash timeout_blocks)
      addr ← return (wrap_err elements_failed (htlc_address c tx taproot htlc network_hrp))
      p2tr ← return (wrap_err elements_failed (htlc_p2tr_script c tx taproot htlc))
      txid ←
          call (send_to_address addr amount) funding_failed
            (λ log. services.sent_to_address log addr amount)
      vout ← find_vout_by_address txid addr
      return (
          ok (record {
            htlc = htlc;
            tx_id = txid;
            vout = vout;
            amount = amount;
            p2tr_script = p2tr;
          }))

    module _ (lib : Psetv2 c) where
      unfoldable pub spend_htlc : Network → SpendHtlcConfig c → Calls HtlcError Str
      spend_htlc regtest cfg = do
        p ← return (spend_pset c tx taproot lib regtest cfg)
        tx_hex ← return (or_err (pset_failed extract_failed) (lib.extract p))
        call (send_raw_transaction tx_hex) funding_failed
            (λ log. services.sent_raw_transaction log tx_hex)
