-- ===== src/Swap/Claim/Amounts.antt =====
-- The transaction of a claim: what `ClaimEscrow` of pkg/escrow/swap/escrow_claim.go spends and pays.
use ark_escrow.Base.{ℕ, ◌+◌, ◌-◌, ◌<◌, Str, ◌≡◌, arith, Option, none, some, List, [], ◌∷◌, ◌∙◌}
use ark_escrow.Base.{
  ok, require, length, is_empty, not, ltb, leb, ◌||◌, ◌==◌, if◌then◌else◌, true, >>=-eq-ok, or_err,
  wrap_err,
}
use ark_escrow.Curve.{Curve}
use ark_escrow.Script.Txscript.{Txscript}
use ark_escrow.Bech32.Address.{address_to_output_script}
use ark_escrow.Escrow.{EscrowScript}
use ark_escrow.Escrow.Elements.{Taproot, elements_leaf_script, elements_p2tr_script}
use ark_escrow.Swap.Claim.{
  ClaimEscrowConfig, ClaimError, claim_pset, claim_sequence, finalize_escrow_witness, or_default,
  htlc_estimated_fee, dust_limit, escrow_witness, collect_sigs,
}
use ark_escrow.Swap.Pset.{Network, Pset, Psetv2, IsPsetv2, build_pset, sign_tapscript_input}
use ark_escrow.Swap.Pset.Transaction.{
  SameTx, build_pset-Pays, sign_tapscript_input-SameTx, wrap_err-eq-ok,
}

module _ (c : Curve) (lib : Psetv2 c) where
  finalize_escrow_witness-SameTx :
      (p q : Pset lib.ControlBlock) (leaf : ℕ) (keys : List (Option c.PrivateKey))
      (preimage : Option Str) (leaf_script control_block : Str)
      → finalize_escrow_witness c lib p leaf keys preimage leaf_script control_block ≡ ok q
      → SameTx c lib p q
  unfolding finalize_escrow_witness
  finalize_escrow_witness-SameTx p q leaf keys preimage leaf_script control_block h =
      let (items, e, h') =
        >>=-eq-ok
          (escrow_witness c (collect_sigs p.tap_script_sig []) leaf keys preimage leaf_script
            control_block)
          _ h in
      (ground arith, ground arith, ground arith)

-- The fee of a claim: the estimate where the configuration has none.
abbrev pub fee_of : {c : Curve} → ClaimEscrowConfig c → ℕ
fee_of cfg = if cfg.fee == 0 then htlc_estimated_fee else cfg.fee

module _ (c : Curve) (tx : Txscript) (taproot : Taproot c.PublicKey) (lib : Psetv2 c) where
  -- What the transaction of a claim spends and pays.
  pub record Pays (regtest : Network) (cfg : ClaimEscrowConfig c) (p : Pset lib.ControlBlock)
      : Type 0 where
    pub es : EscrowScript c.PublicKey
    pub dest_script : Str
    pub sequence : ℕ
    pub escrow : cfg.escrow_script ≡ some es
    pub destination : address_to_output_script cfg.dest_address ≡ ok dest_script
    pub timelock : claim_sequence c tx taproot lib es cfg.leaf ≡ ok sequence
    pub spends :
        p.inputs
        ≡ record { txid = cfg.fund_tx_id; tx_index = cfg.fund_vout; sequence = sequence } ∷ []
    pub pays :
        p.outputs
        ≡ record {
          asset = (or_default regtest cfg.network).asset_id;
          amount = cfg.amount - fee_of cfg;
          script = some dest_script;
        }
          ∷ record {
            asset = (or_default regtest cfg.network).asset_id;
            amount = fee_of cfg;
            script = none;
          }
          ∷ []
    pub balances : (cfg.amount - fee_of cfg) + fee_of cfg ≡ cfg.amount
    pub above_dust : dust_limit < cfg.amount - fee_of cfg

  fee_guard :
      (amount fee : ℕ)
      → not (leb amount fee || leb (amount - fee) dust_limit) ≡ true
      → ((amount - fee) + fee ≡ amount) × (dust_limit < amount - fee)
  fee_guard amount fee h = (ground arith, ground arith)

  pub claim_pset-Pays :
      (laws : IsPsetv2 c lib) (regtest : Network) (cfg : ClaimEscrowConfig c)
      (p : Pset lib.ControlBlock)
      → claim_pset c tx taproot lib regtest cfg ≡ ok p
      → Pays regtest cfg p
  unfolding claim_pset
  claim_pset-Pays laws regtest cfg p h =
      let fee = fee_of cfg in
      let net = or_default regtest cfg.network in
      let (es, e0, h0) = >>=-eq-ok (or_err ClaimError.no_escrow_script cfg.escrow_script) _ h in
      let (_, e1, h1) =
        >>=-eq-ok (require (not (length cfg.signing_keys == 0)) ClaimError.no_signing_key) _ h0 in
      let (_, e2, h2) =
        >>=-eq-ok (require (not (is_empty cfg.dest_address)) ClaimError.no_destination) _ h1 in
      let (_, e3, h3) =
        >>=-eq-ok (require (ltb cfg.leaf (length es.closures)) (ClaimError.invalid_leaf cfg.leaf)) _
          h2 in
      let (_, e4, h4) =
        >>=-eq-ok
          (require (not (leb cfg.amount fee || leb (cfg.amount - fee) dust_limit))
            ClaimError.below_dust)
          _ h3 in
      let (leaf, e5, h5) =
        >>=-eq-ok
          (wrap_err ClaimError.elements_failed
            (elements_leaf_script c tx taproot es.closures cfg.leaf))
          _ h4 in
      let (prevout, e6, h6) =
        >>=-eq-ok
          (wrap_err ClaimError.elements_failed (elements_p2tr_script c tx taproot es.closures)) _
          h5 in
      let (dest, e7, h7) =
        >>=-eq-ok (wrap_err ClaimError.bad_destination (address_to_output_script cfg.dest_address))
          _ h6 in
      let (sequence, e8, h8) = >>=-eq-ok (claim_sequence c tx taproot lib es cfg.leaf) _ h7 in
      let (p0, e9, h9) =
        >>=-eq-ok
          (wrap_err ClaimError.pset_failed (
            build_pset c lib cfg.fund_tx_id cfg.fund_vout sequence cfg.amount (cfg.amount - fee) fee
              prevout dest leaf.0 leaf.1 net))
          _ h8 in
      let (p1, e10, h10) =
        >>=-eq-ok
          (wrap_err ClaimError.pset_failed (sign_tapscript_input c lib p0 cfg.signing_keys net)) _
          h9 in
      let (inputs, outputs, _) =
        build_pset-Pays c lib laws cfg.fund_tx_id cfg.fund_vout sequence cfg.amount
          (cfg.amount - fee) fee prevout dest leaf.0 leaf.1 net p0 (wrap_err-eq-ok _ _ e9) in
      let (i1, o1, _) =
        sign_tapscript_input-SameTx c lib p0 p1 cfg.signing_keys net (wrap_err-eq-ok _ _ e10) in
      let (i2, o2, _) =
        finalize_escrow_witness-SameTx c lib p1 p cfg.leaf cfg.signing_keys cfg.preimage leaf.0
          leaf.1 h10 in
      let (balance, dust) = fee_guard cfg.amount fee (ground arith) in
      record {
        es = es;
        dest_script = dest;
        sequence = sequence;
        escrow = ground arith;
        destination = wrap_err-eq-ok _ _ e7;
        timelock = e8;
        spends = i2 ∙ i1 ∙ inputs;
        pays = o2 ∙ o1 ∙ outputs;
        balances = balance;
        above_dust = dust;
      }
