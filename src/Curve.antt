-- ===== src/Curve.antt =====
-- The elliptic curve library (btcec and schnorr of btcsuite/btcd), which is not part of the
-- repository: the calls that the program makes, and what it relies on.
use ark_escrow.Base.{Str, Option, some, ◌≡◌, length, IsBytes}

pub record Curve : Type 1 where
  pub PublicKey : Type 0
  pub PrivateKey : Type 0
  -- schnorr.ParsePubKey and btcec.ParsePubKey
  pub parse_x_only : Str → Option PublicKey
  pub parse_compressed : Str → Option PublicKey
  -- schnorr.SerializePubKey
  pub serialize : PublicKey → Str
  -- btcec.PrivKeyFromBytes, PrivateKey.Serialize, PrivateKey.PubKey
  pub priv_key_from_bytes : Str → PrivateKey
  pub serialize_priv : PrivateKey → Str
  pub pub_key : PrivateKey → PublicKey

-- The documented behaviour: BIP340 keys are 32 bytes that parse back to a key with the same x
-- coordinate, and private keys are 32 bytes that give the key back.
pub record IsCurve (c : Curve) : Type 0 where
  pub length-serialize : (k : c.PublicKey) → length (c.serialize k) ≡ 32
  pub serialize-IsBytes : (k : c.PublicKey) → IsBytes (c.serialize k)
  pub parse_x_only-serialize :
      (k : c.PublicKey)
      → (k' : c.PublicKey) × (c.parse_x_only (c.serialize k) ≡ some k')
        × (c.serialize k' ≡ c.serialize k)
  pub length-serialize_priv : (k : c.PrivateKey) → length (c.serialize_priv k) ≡ 32
  pub serialize_priv-IsBytes : (k : c.PrivateKey) → IsBytes (c.serialize_priv k)
  pub priv_key_from_bytes-serialize_priv :
      (k : c.PrivateKey) → c.priv_key_from_bytes (c.serialize_priv k) ≡ k
