-- ===== src/Swap/Fund/Locking.antt =====
-- The calls of `Fund` in pkg/escrow/swap/fund.go lock the HTLC, and settle no invoice.
use ark_escrow.Base.{ℕ, Str, lit, Option, none, some, ◌≡◌, arith, is_empty, if◌then◌else◌}
use ark_escrow.Curve.{Curve}
use ark_escrow.Script.Txscript.{Txscript}
use ark_escrow.Escrow.Elements.{Taproot}
use ark_escrow.Swap.Services.{Services, Log}
use ark_escrow.Swap.Htlc.Funding.{create_and_fund_htlc, find_vout_by_address}
use ark_escrow.Swap.Fund.{FundConfig, fund_with_htlc, fund, or_else_number, htlc_default_timeout}
use ark_escrow.Swap.Fund.Settling.{settlements}

module _ (c : Curve) (tx : Txscript) (taproot : Taproot c.PublicKey) (services : Services) where
  settlements-create_and_fund_htlc :
      (receiver sender : Option c.PublicKey) (hash : Str) (amount blocks : ℕ) (hrp : Str)
      (log : Log)
      → settlements
          (create_and_fund_htlc services c tx taproot receiver sender hash amount blocks hrp log).1
        ≡ settlements log
  unfolding create_and_fund_htlc find_vout_by_address settlements
  settlements-create_and_fund_htlc receiver sender hash amount blocks hrp log = ground arith

  settlements-fund_with_htlc :
      (cfg : FundConfig c) (preimage hash : Str) (log : Log)
      → settlements (fund_with_htlc c tx taproot services cfg preimage hash log).1 ≡ settlements log
  unfolding fund_with_htlc settlements
  settlements-fund_with_htlc cfg preimage hash log = ground (
    arith,
    settlements-create_and_fund_htlc cfg.service_pub_key cfg.service_pub_key hash cfg.amount_sats
        (or_else_number htlc_default_timeout cfg.htlc_timeout)
        (if is_empty cfg.network_hrp then lit "ert" else cfg.network_hrp) log,
  )

  pub settlements-fund :
      (sha256 : Str → Str) (random : Option Str) (cfg : FundConfig c) (log : Log)
      → settlements (fund c tx taproot services sha256 random cfg log).1 ≡ settlements log
  unfolding fund
  settlements-fund sha256 none cfg log = ground arith
  settlements-fund sha256 (some preimage) cfg log =
      ground (arith, settlements-fund_with_htlc cfg preimage (sha256 preimage) log)
