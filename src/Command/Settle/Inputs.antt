-- ===== src/Command/Settle/Inputs.antt =====
-- The checks of `releaseAction` and `disputeAction` of cmd/escrow/commands.go, before the node is asked.
use ark_escrow.Base.{
  ℕ, Str, lit, ok, Result, ◌>>=◌, ◌>>◌, or_err, wrap_err, require, is_empty, not, str_eq,
  if◌then◌else◌, ◌||◌, ◌≡◌, arith,
}
use ark_escrow.Hex
use ark_escrow.Curve.{Curve}
use ark_escrow.Deal.{Deal}
use ark_escrow.Command.{
  CommandError, seller_key_missing, buyer_key_missing, secret_missing, invalid_secret,
  invalid_winner, invalid_seller_key, invalid_buyer_key, invalid_oracle_key, parse_priv_key,
  stored_key,
}

-- The values of `EscrowLeaf`.
abbrev pub leaf_release : ℕ
leaf_release = 0

abbrev pub leaf_timeout : ℕ
leaf_timeout = 1

abbrev pub leaf_dispute_seller : ℕ
leaf_dispute_seller = 2

abbrev pub leaf_dispute_buyer : ℕ
leaf_dispute_buyer = 3

module _ (c : Curve) where
  -- The seller's key and the preimage.
  unfoldable pub release_inputs : Deal → Result CommandError (c.PrivateKey × Str)
  release_inputs deal = do
    require (not (is_empty deal.seller_priv_key)) seller_key_missing
    require (not (is_empty deal.secret)) secret_missing
    seller_key ← wrap_err invalid_seller_key (parse_priv_key c deal.seller_priv_key)
    preimage ← or_err invalid_secret (Hex.decode_string deal.secret)
    ok (seller_key, preimage)

  -- The winner's key and leaf.
  unfoldable pub winner_of : Str → Deal → Result CommandError (c.PrivateKey × ℕ)
  winner_of winner deal =
      if str_eq winner (lit "seller")
      then (stored_key c seller_key_missing invalid_seller_key deal.seller_priv_key >>= λ key.
          ok (key, leaf_dispute_seller))
      else (stored_key c buyer_key_missing invalid_buyer_key deal.buyer_priv_key >>= λ key.
          ok (key, leaf_dispute_buyer))

  -- The oracle's key, the winner's, and the winner's leaf.
  unfoldable pub dispute_inputs :
      Str → Str → Deal → Result CommandError (c.PrivateKey × c.PrivateKey × ℕ)
  unfolding winner_of
  dispute_inputs winner oracle_priv_key deal = do
    require (str_eq winner (lit "seller") || str_eq winner (lit "buyer")) invalid_winner
    oracle_key ← wrap_err invalid_oracle_key (parse_priv_key c oracle_priv_key)
    (winner_key, leaf) ← winner_of winner deal
    ok (oracle_key, winner_key, leaf)

  pub dispute_inputs-leaf :
      (winner oracle_priv_key : Str) (deal : Deal) (oracle_key winner_key : c.PrivateKey) (leaf : ℕ)
      → dispute_inputs winner oracle_priv_key deal ≡ ok (oracle_key, winner_key, leaf)
      → (if str_eq winner (lit "seller") then leaf_dispute_seller else leaf_dispute_buyer) ≡ leaf
  unfolding dispute_inputs winner_of
  dispute_inputs-leaf winner oracle_priv_key deal oracle_key winner_key leaf found = ground arith
