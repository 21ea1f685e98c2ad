-- ===== src/Swap/Htlc/Amounts.antt =====
-- The output of `SpendHTLC` of pkg/escrow/swap/liquid_htlc.go, whose uint64 subtraction comes before
-- the only test of the amount.
use ark_escrow.Base.{ℕ, ◌+◌, ◌^◌, ◌<◌, ◌≡◌, arith, ◌↔◌, ◌⊎◌, true, leb, not}
use ark_escrow.Swap.Claim.{dust_limit}
use ark_escrow.Swap.Htlc.{sub_u64}

-- The test of the dust limit takes an output above the limit, and also any amount that is less
-- than a fee by fewer than 2 ^ 64 - 546.
pub dust_test_iff :
    (amount fee : ℕ)
    → amount < 2 ^ 64
    → fee < 2 ^ 64
    → (not (leb (sub_u64 amount fee) dust_limit) ≡ true)
      ↔ ((fee + dust_limit < amount) ⊎ ((amount < fee) × (fee + dust_limit < amount + 2 ^ 64)))
dust_test_iff amount fee p q = ground arith
