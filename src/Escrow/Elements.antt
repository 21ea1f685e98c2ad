-- ===== src/Escrow/Elements.antt =====
-- pkg/escrow/elements.go, `UnspendableKey` and `P2TRScript` of internal/script/script.go, and the
-- methods of pkg/escrow/escrow.go and pkg/escrow/swap/liquid_htlc.go that call them. The tapscript
-- trees of vulpemventures/go-elements, which is not part of the repository, are the parameter
-- `Taproot`.
use ark_escrow.Base.{ℕ, suc, Str, Option, List, [], ◌∷◌, get_elem?, Result, ok, ◌>>=◌}
use ark_escrow.Base.{or_err, wrap_err}
use ark_escrow.Curve.{Curve}
use ark_escrow.Script.Txscript.{Txscript, op, push}
use ark_escrow.Script.Closure.{Closure, ScriptError, script}
use ark_escrow.Bech32.Address.{AddressError, encode_bech32m}

pub record Taproot (Key : Type 0) : Type 1 where
  pub Tree : Type 0
  pub Proof : Type 0
  -- AssembleTaprootScriptTree of NewBaseTapElementsLeaf of every script
  pub assemble : List Str → Tree
  -- RootNode.TapHash, and ComputeTaprootOutputKey at a pointer to the internal key
  pub root_hash : Tree → Str
  pub output_key : Option Key → Str → Key
  -- the proof in LeafMerkleProofs at LeafProofIndex of the leaf's hash
  pub leaf_proof : Tree → Str → Option Proof
  -- ToControlBlock, then ToBytes
  pub control_block : Proof → Option Key → Option Str

pub data ElementsError : Type 0 where
  closure_failed : ℕ → ScriptError → ElementsError
  leaf_out_of_range : ℕ → ElementsError
  leaf_failed : ScriptError → ElementsError
  leaf_not_found control_block_failed p2tr_failed : ElementsError
  address_failed : AddressError → ElementsError

abbrev pub unspendable_point : Str
unspendable_point =
    0x02 ∷ 0x50 ∷ 0x92 ∷ 0x9b ∷ 0x74 ∷ 0xc1 ∷ 0xa0 ∷ 0x49 ∷ 0x54 ∷ 0xb7 ∷ 0x8b ∷ 0x4b ∷ 0x60 ∷ 0x35
    ∷ 0xe9 ∷ 0x7a ∷ 0x5e ∷ 0x07 ∷ 0x8a ∷ 0x5a ∷ 0x0f ∷ 0x28 ∷ 0xec ∷ 0x96 ∷ 0xd5 ∷ 0x47 ∷ 0xbf
    ∷ 0xee ∷ 0x9a ∷ 0xce ∷ 0x80 ∷ 0x3a ∷ 0xc0 ∷ []

module _ (c : Curve) where
  -- The error of ParsePubKey is ignored, and the key is a nil pointer then.
  unfoldable pub unspendable_key : Option c.PublicKey
  unspendable_key = c.parse_compressed unspendable_point

module _ (c : Curve) (tx : Txscript) where
  unfoldable pub p2tr_script : c.PublicKey → Option Str
  p2tr_script key = tx.build (op tx.op_1 ∷ push (c.serialize key) ∷ [])

  -- The loop of `ElementsTapTree`, from closure `i`.
  unfoldable pub leaf_scripts : ℕ → List (Closure c.PublicKey) → Result ElementsError (List Str)
  leaf_scripts i [] = ok []
  leaf_scripts i (closure ∷ closures) = do
    s ← wrap_err (closure_failed i) (script c tx closure)
    rest ← leaf_scripts (suc i) closures
    ok (s ∷ rest)

module _ (c : Curve) (tx : Txscript) (taproot : Taproot c.PublicKey) where
  unfoldable pub elements_tap_tree :
      List (Closure c.PublicKey) → Result ElementsError (c.PublicKey × taproot.Tree)
  elements_tap_tree closures = do
    leaves ← leaf_scripts c tx 0 closures
    let tree = taproot.assemble leaves
    ok (taproot.output_key (unspendable_key c) (taproot.root_hash tree), tree)

  -- `leafIndex` is an index that is not negative.
  unfoldable pub elements_leaf_script :
      List (Closure c.PublicKey) → ℕ → Result ElementsError (Str × Str)
  unfolding elements_tap_tree
  elements_leaf_script closures leaf_index = do
    closure ← or_err (leaf_out_of_range leaf_index) (get_elem? closures leaf_index)
    script_bytes ← wrap_err leaf_failed (script c tx closure)
    (_, tree) ← elements_tap_tree closures
    proof ← or_err leaf_not_found (taproot.leaf_proof tree script_bytes)
    control_block ← or_err control_block_failed (taproot.control_block proof (unspendable_key c))
    ok (script_bytes, control_block)

  unfoldable pub elements_address : List (Closure c.PublicKey) → Str → Result ElementsError Str
  unfolding elements_tap_tree
  elements_address closures hrp = do
    (key, _) ← elements_tap_tree closures
    wrap_err address_failed (encode_bech32m hrp (c.serialize key))

  unfoldable pub elements_p2tr_script : List (Closure c.PublicKey) → Result ElementsError Str
  unfolding elements_tap_tree p2tr_script
  elements_p2tr_script closures = do
    (key, _) ← elements_tap_tree closures
    or_err p2tr_failed (p2tr_script c tx key)
