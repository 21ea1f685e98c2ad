-- ===== src/Escrow/Address.antt =====
-- The address of an escrow and the output script that its spenders sign for: `ElementsAddress`,
-- `ElementsP2TRScript` and `AddressToOutputScript`.
use ark_escrow.Base.{Str, ◌≡◌, arith, some, List, [], ◌∷◌}
use ark_escrow.Base.{append-nil, ok}
use ark_escrow.Curve.{Curve, IsCurve}
use ark_escrow.Script.Txscript.{Txscript, IsTxscript, op, push}
use ark_escrow.Script.Closure.{Closure}
use ark_escrow.Bech32.Address.{address_to_output_script}
use ark_escrow.Bech32.Address.RoundTrip.{address_to_output_script-encode_bech32m}
use ark_escrow.Escrow.Elements.{
  Taproot, p2tr_script, elements_tap_tree, elements_address, elements_p2tr_script,
}

module _ (c : Curve) (tx : Txscript) (curve : IsCurve c) (laws : IsTxscript tx) where
  -- `OP_1 OP_DATA_32 <key>`
  p2tr_script_eq : (key : c.PublicKey) → p2tr_script c tx key ≡ some (0x51 ∷ 0x20 ∷ c.serialize key)
  unfolding p2tr_script
  p2tr_script_eq key =
      let pushed = laws.data_push_32 (c.serialize key) (curve.length-serialize key) in
      rw
        (laws.builds (op tx.op_1 ∷ push (c.serialize key) ∷ [])
          (rw (pushed, append-nil) (omega (arith, curve.length-serialize key))))
        (rw (pushed, append-nil, laws.op_1, laws.op_data_32))

  module _ (taproot : Taproot c.PublicKey) where
    -- Whenever the tree of some leaves is built, their address is written, and the output script
    -- read back from the address is the witness program that a claim signs for.
    pub address_to_output_script-elements_address :
        (closures : List (Closure c.PublicKey)) (hrp : Str) (key : c.PublicKey)
        (tree : taproot.Tree)
        → elements_tap_tree c tx taproot closures ≡ ok (key, tree)
        → (addr : Str) × (elements_address c tx taproot closures hrp ≡ ok addr)
          × (address_to_output_script addr ≡ ok (0x51 ∷ 0x20 ∷ c.serialize key))
          × (elements_p2tr_script c tx taproot closures ≡ ok (0x51 ∷ 0x20 ∷ c.serialize key))
    unfolding elements_address elements_p2tr_script
    address_to_output_script-elements_address closures hrp key tree built =
        let size = curve.length-serialize key in
        let (addr, written, read) =
          address_to_output_script-encode_bech32m hrp (c.serialize key)
            (curve.serialize-IsBytes key) (omega (arith, size)) in
        (addr, rw (built, written), rw (read, size), rw (built, p2tr_script_eq key))
