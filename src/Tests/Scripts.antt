-- ===== src/Tests/Scripts.antt =====
-- The theorems on internal/script/locktime.go at concrete locktimes.
use ark_escrow.Base.{◌≡◌, ◌↔◌, ◌⊎◌, ◌<◌, ◌^◌, refl, arith, some, ok}
use ark_escrow.Script.Locktime.{RelativeLocktime, second, block, bip68_sequence}
use ark_escrow.Script.Locktime.Bounds.{enforced, enforced-bip68_sequence_iff}
use ark_escrow.Tests.Txscript.{txscript, txscript-IsTxscript}

abbrev day : RelativeLocktime
day = record { type = block; value = 144 }

abbrev minutes : RelativeLocktime
minutes = record { type = second; value = 1024 }

day_sequence : bip68_sequence txscript day ≡ ok 144
unfolding bip68_sequence
day_sequence = refl

minutes_sequence : bip68_sequence txscript minutes ≡ ok 4194306
unfolding bip68_sequence
minutes_sequence = refl

enforced_example : (enforced 144 ≡ some day) ↔ ((block ≡ second) ⊎ (144 < 2 ^ 16))
enforced_example =
    enforced-bip68_sequence_iff txscript txscript-IsTxscript day 144 (omega arith) day_sequence
