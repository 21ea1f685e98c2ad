-- ===== src/Swap/Claim/Closures.antt =====
-- The two ways to a witness: `Closure.Witness` of internal/script/closure.go and
-- `finalizeEscrowWitness` of pkg/escrow/swap/escrow_claim.go.
use ark_escrow.Base.{ℕ, ◌≡◌, refl, Str, Option, some, List, [], ◌∷◌, ok}
use ark_escrow.Hex
use ark_escrow.Curve.{Curve, IsCurve}
use ark_escrow.Script.Txscript.{Txscript, IsTxscript}
use ark_escrow.Script.Locktime.{block}
use ark_escrow.Script.Closure.{
  signature_of, script, witness, multisig_witness, csv_witness, collect_signatures, replace_script,
  multisig_closure, csv_closure, csv_script,
}
use ark_escrow.Script.Closure.Scripts.{single_script}
use ark_escrow.Escrow.{pair, single}
use ark_escrow.Escrow.Leaves.{pair_leaf, timeout_leaf, script-multisig_closure, script-csv_closure}
use ark_escrow.Swap.Claim.{get_sig, escrow_witness}

module _ (c : Curve) (tx : Txscript) (curve : IsCurve c) (laws : IsTxscript tx) where
  abbrev hex_of : c.PrivateKey → Str
  hex_of key = Hex.encode_to_string (c.serialize (c.pub_key key))

  -- Where the map has the signatures of the oracle and the winner, the closure of a dispute leaf and
  -- the claim through leaf 2 make the same witness: the winner's signature, the oracle's, the leaf, the control
  -- block. For the timeout leaf they agree on the buyer's signature, the leaf, the control block.
  pub witness-escrow_witness :
      (m : List (Str × Str)) (oracle winner : c.PrivateKey) (n : ℕ) (preimage : Option Str)
      (oracle_sig winner_sig control_block : Str)
      → signature_of (hex_of oracle) m ≡ some oracle_sig
      → signature_of (hex_of winner) m ≡ some winner_sig
      → (witness c tx
            (multisig_closure (pair (c.pub_key oracle) (c.pub_key winner)))
            control_block
            m
          ≡ ok (
              winner_sig
              ∷ oracle_sig
              ∷ pair_leaf c (c.pub_key oracle) (c.pub_key winner)
              ∷ control_block
              ∷ []))
        × (escrow_witness c m 2
              (some oracle ∷ some winner ∷ [])
              preimage
              (pair_leaf c (c.pub_key oracle) (c.pub_key winner))
              control_block
            ≡ ok (
                winner_sig
                ∷ oracle_sig
                ∷ pair_leaf c (c.pub_key oracle) (c.pub_key winner)
                ∷ control_block
                ∷ []))
        × (witness c tx
              (csv_closure (record {
                multisig = single (c.pub_key winner);
                locktime = record { type = block; value = n };
              }))
              control_block
              m
            ≡ ok (winner_sig ∷ timeout_leaf c tx n (c.pub_key winner) ∷ control_block ∷ []))
        × (escrow_witness c m 1
              (some winner ∷ [])
              preimage
              (timeout_leaf c tx n (c.pub_key winner))
              control_block
            ≡ ok (winner_sig ∷ timeout_leaf c tx n (c.pub_key winner) ∷ control_block ∷ []))
  unfolding witness multisig_witness collect_signatures csv_witness replace_script escrow_witness
      get_sig script
  witness-escrow_witness m oracle winner n preimage oracle_sig winner_sig control_block e e' =
      let made = script-multisig_closure c tx curve laws (c.pub_key oracle) (c.pub_key winner) in
      let made' = script-csv_closure c tx curve laws (c.pub_key winner) n in
      let made'' : csv_script c tx (record {
        multisig = single (c.pub_key winner);
        locktime = record { type = block; value = n };
      })
          ≡ ok (timeout_leaf c tx n (c.pub_key winner)) =
        made' in
      let one = single_script c tx curve laws (c.pub_key winner) in
      (rw (e', e, made) refl, rw (e, e') refl, rw (e', made'', one) refl, rw e' refl)
