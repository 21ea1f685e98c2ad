-- ===== src/Swap/Htlc/Spends.antt =====
-- The transaction of `SpendHTLC` of pkg/escrow/swap/liquid_htlc.go: what it spends and pays.
use ark_escrow.Base.{
  Bool, true, Result, ℕ, ◌+◌, ◌^◌, ◌<◌, ◌≤◌, Str, ◌≡◌, arith, ◌⊎◌, Option, none, some, [], ◌∷◌, ◌∙◌,
  ok, require, not, leb, ◌==◌, get_elem?, if◌then◌else◌, >>=-eq-ok, or_err, wrap_err,
}
use ark_escrow.Curve.{Curve}
use ark_escrow.Script.Txscript.{Txscript}
use ark_escrow.Bech32.Address.{address_to_output_script}
use ark_escrow.Escrow.Elements.{Taproot}
use ark_escrow.Swap.Claim.{or_default, htlc_estimated_fee, dust_limit}
use ark_escrow.Swap.Htlc.{
  HtlcScript, HtlcError, SpendHtlcConfig, htlc_and_key, htlc_p2tr_script, htlc_leaf_script,
  htlc_sequence, spend_pset, sub_u64,
}
use ark_escrow.Swap.Pset.{
  Network, Pset, set_witness, Psetv2, IsPsetv2, build_pset, sign_tapscript_input,
}
use ark_escrow.Swap.Pset.Transaction.{
  SameTx, build_pset-Pays, sign_tapscript_input-SameTx, wrap_err-eq-ok,
}

-- The fee of a spending: the estimate where the configuration has none.
abbrev pub fee_of : {c : Curve} → SpendHtlcConfig c → ℕ
fee_of cfg = if cfg.fee == 0 then htlc_estimated_fee else cfg.fee

htlc_and_key-eq-ok :
    {H K : Type 0} (h : Option H) (k : Option K) (htlc : H) (key : K)
    → htlc_and_key h k ≡ ok (htlc, key)
    → (h ≡ some htlc) × (k ≡ some key)
htlc_and_key-eq-ok none k htlc key e = ground arith
htlc_and_key-eq-ok (some x) none htlc key e = ground arith
htlc_and_key-eq-ok (some x) (some y) htlc key e = (ground arith, ground arith)

fee_bound : (fee : ℕ) → fee < 2 ^ 64 → (if fee == 0 then htlc_estimated_fee else fee) < 2 ^ 64
fee_bound fee h = ground arith

dust_guard : (amount : ℕ) → not (leb amount dust_limit) ≡ true → dust_limit < amount
dust_guard amount h = ground arith

guard : {E : Type 0} (b : Bool) (e : E) (u : Unit {0}) → require b e ≡ ok u → b ≡ true
guard b e u h = ground arith

set_witness-SameTx :
    (c : Curve) (lib : Psetv2 c) (witness : Str) (p q : Pset lib.ControlBlock)
    → ◌≡◌ {A = Result HtlcError (Pset lib.ControlBlock)} (ok (set_witness c lib witness p)) (ok q)
    → SameTx c lib p q
set_witness-SameTx c lib witness p q h = (ground arith, ground arith, ground arith)

-- The uint64 subtraction: the amount less the fee, or that and 2 ^ 64 where the fee is larger.
sub_u64-cases :
    (amount fee : ℕ)
    → amount < 2 ^ 64
    → fee < 2 ^ 64
    → ((fee ≤ amount) × (sub_u64 amount fee + fee ≡ amount))
      ⊎ ((amount < fee) × (sub_u64 amount fee + fee ≡ amount + 2 ^ 64))
sub_u64-cases amount fee p q = ground arith

module _ (c : Curve) (tx : Txscript) (taproot : Taproot c.PublicKey) (lib : Psetv2 c) where
  -- What the transaction of a spending spends and pays.
  pub record Spends (regtest : Network) (cfg : SpendHtlcConfig c) (p : Pset lib.ControlBlock)
      : Type 0 where
    pub htlc : HtlcScript c.PublicKey
    pub key : c.PrivateKey
    pub dest_script : Str
    pub sequence : ℕ
    pub has_htlc : cfg.htlc ≡ some htlc
    pub has_key : cfg.signing_key ≡ some key
    pub destination : address_to_output_script cfg.dest_address ≡ ok dest_script
    pub timelock : htlc_sequence c tx taproot lib htlc cfg.leaf_index ≡ ok sequence
    pub spends :
        p.inputs
        ≡ record { txid = cfg.fund_tx_id; tx_index = cfg.fund_vout; sequence = sequence } ∷ []
    pub pays :
        p.outputs
        ≡ record {
          asset = (or_default regtest cfg.network).asset_id;
          amount = sub_u64 cfg.amount (fee_of cfg);
          script = some dest_script;
        }
          ∷ record {
            asset = (or_default regtest cfg.network).asset_id;
            amount = fee_of cfg;
            script = none;
          }
          ∷ []
    pub balances :
        ((fee_of cfg ≤ cfg.amount) × (sub_u64 cfg.amount (fee_of cfg) + fee_of cfg ≡ cfg.amount))
        ⊎ ((cfg.amount < fee_of cfg)
            × (sub_u64 cfg.amount (fee_of cfg) + fee_of cfg ≡ cfg.amount + 2 ^ 64))
    pub above_dust : dust_limit < sub_u64 cfg.amount (fee_of cfg)

  -- A spending of an HTLC that gets as far as the broadcast spends the configured outpoint with the
  -- sequence of its leaf, and pays the destination's script, above the dust limit, and the fee; the two
  -- add up to the amount, or to 2 ^ 64 more where the amount is below the fee, if both are uint64.
  pub spend_pset-Spends :
      (laws : IsPsetv2 c lib) (regtest : Network) (cfg : SpendHtlcConfig c)
      (p : Pset lib.ControlBlock)
      → cfg.amount < 2 ^ 64
      → cfg.fee < 2 ^ 64
      → spend_pset c tx taproot lib regtest cfg ≡ ok p
      → Spends regtest cfg p
  unfolding spend_pset
  spend_pset-Spends laws regtest cfg p bound bound' h =
      let fee = fee_of cfg in
      let amount = sub_u64 cfg.amount fee in
      let net = or_default regtest cfg.network in
      let (both, e0, h0) = >>=-eq-ok (htlc_and_key cfg.htlc cfg.signing_key) _ h in
      let (leaf, e1, h1) =
        >>=-eq-ok
          (wrap_err HtlcError.elements_failed (htlc_leaf_script c tx taproot both.0 cfg.leaf_index))
          _ h0 in
      let (prevout, e2, h2) =
        >>=-eq-ok (wrap_err HtlcError.elements_failed (htlc_p2tr_script c tx taproot both.0)) _
          h1 in
      let (dest, e3, h3) =
        >>=-eq-ok (wrap_err HtlcError.bad_destination (address_to_output_script cfg.dest_address)) _
          h2 in
      let (_, e4, h4) =
        >>=-eq-ok (require (not (leb amount dust_limit)) (HtlcError.below_dust amount)) _ h3 in
      let (sequence, e5, h5) =
        >>=-eq-ok (htlc_sequence c tx taproot lib both.0 cfg.leaf_index) _ h4 in
      let (p0, e6, h6) =
        >>=-eq-ok
          (wrap_err HtlcError.pset_failed (
            build_pset c lib cfg.fund_tx_id cfg.fund_vout sequence cfg.amount amount fee prevout
              dest leaf.0 leaf.1 net))
          _ h5 in
      let (p1, e7, h7) =
        >>=-eq-ok
          (wrap_err HtlcError.pset_failed (sign_tapscript_input c lib p0 (some both.1 ∷ []) net)) _
          h6 in
      let (sig, e8, h8) = >>=-eq-ok (or_err HtlcError.panic (get_elem? p1.tap_script_sig 0)) _ h7 in
      let (inputs, outputs, _) =
        build_pset-Pays c lib laws cfg.fund_tx_id cfg.fund_vout sequence cfg.amount amount fee
          prevout dest leaf.0 leaf.1 net p0 (wrap_err-eq-ok _ _ e6) in
      let (i1, o1, _) =
        sign_tapscript_input-SameTx c lib p0 p1 (some both.1 ∷ []) net (wrap_err-eq-ok _ _ e7) in
      let (i2, o2, _) = set_witness-SameTx c lib _ p1 p h8 in
      let given = htlc_and_key-eq-ok cfg.htlc cfg.signing_key both.0 both.1 e0 in
      record {
        htlc = both.0;
        key = both.1;
        dest_script = dest;
        sequence = sequence;
        has_htlc = given.0;
        has_key = given.1;
        destination = wrap_err-eq-ok _ _ e3;
        timelock = e5;
        spends = i2 ∙ i1 ∙ inputs;
        pays = o2 ∙ o1 ∙ outputs;
        balances = sub_u64-cases cfg.amount fee bound (fee_bound cfg.fee bound');
        above_dust = dust_guard amount (guard _ (HtlcError.below_dust amount) _ e4);
      }
