-- ===== src/Swap/Htlc/Leaves.antt =====
-- The bytes of the leaves that `NewHTLCScript` of pkg/escrow/swap/liquid_htlc.go makes.
use ark_escrow.Base.{ℕ, Str, ◌≡◌, refl, some, [], ◌∷◌, length, ok}
use ark_escrow.Curve.{Curve, IsCurve}
use ark_escrow.Script.Txscript.{Txscript, IsTxscript}
use ark_escrow.Script.Locktime.{block}
use ark_escrow.Script.Closure.{condition_closure, csv_closure}
use ark_escrow.Escrow.{single}
use ark_escrow.Escrow.Elements.{leaf_scripts}
use ark_escrow.Escrow.Leaves.{
  hash_leaf, timeout_leaf, condition_bytes, build-hash_condition, script-condition_closure,
  script-csv_closure,
}
use ark_escrow.Swap.Htlc.{HtlcScript, new_htlc_script}

module _ (c : Curve) (tx : Txscript) (curve : IsCurve c) (laws : IsTxscript tx) where
  abbrev pub htlc_of : c.PublicKey → c.PublicKey → Str → ℕ → HtlcScript c.PublicKey
  htlc_of receiver sender hash n = record {
    receiver_pub_key = receiver;
    sender_pub_key = sender;
    payment_hash = hash;
    timeout = record { type = block; value = n };
    closures =
        condition_closure (record { multisig = single receiver; condition = condition_bytes hash })
        ∷ csv_closure
            (record { multisig = single sender; locktime = record { type = block; value = n } })
        ∷ [];
  }

  -- With two keys and a hash of 32 bytes the HTLC is made, and its leaves are the receiver with a
  -- preimage of the hash, and the sender after the timeout.
  pub leaf_scripts-new_htlc_script :
      (receiver sender : c.PublicKey) (hash : Str) (n : ℕ)
      → length hash ≡ 32
      → (new_htlc_script tx (some receiver) (some sender) hash n
          ≡ ok (htlc_of receiver sender hash n))
        × (leaf_scripts c tx 0 (htlc_of receiver sender hash n).closures
            ≡ ok (hash_leaf c hash receiver ∷ timeout_leaf c tx n sender ∷ []))
  unfolding new_htlc_script leaf_scripts
  leaf_scripts-new_htlc_script receiver sender hash n size = (
    rw (build-hash_condition tx laws hash size) refl,
    rw (
      script-condition_closure c tx curve laws receiver hash size,
      script-csv_closure c tx curve laws sender n,
    ),
  )
