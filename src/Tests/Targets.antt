-- ===== src/Tests/Targets.antt =====
-- A hash on either side of a target.
use cpuminer.Base.{◌≤◌, ◌≡◌, ◌↔◌, refl, true, false, arith}
use cpuminer.Sha.{Regs}
use cpuminer.Target.{fulltest, swab32, bswap_16}
use cpuminer.Target.Order.{hash_number, target_number, fulltest-rc_iff, fulltest_accepts_above}

abbrev zeros : Regs
zeros = record { a = 0; b = 0; c = 0; d = 0; e = 0; f = 0; g = 0; h = 0 }

abbrev some_hash : Regs
some_hash = record zeros { g = 0x01000000 }

abbrev some_target : Regs
some_target = record zeros { g = 1 }

abbrev high_hash : Regs
high_hash = record zeros { g = 0x02000000 }

swab32_bytes_swapped : swab32 0x01020304 ≡ 0x04030201
unfolding swab32 bswap_16
swab32_bytes_swapped = refl

fulltest-rc_iff_example :
    ((fulltest some_hash some_target).rc ≡ true)
    ↔ (hash_number some_hash ≤ target_number some_target)
fulltest-rc_iff_example = fulltest-rc_iff some_hash some_target (omega arith) (omega arith)

fulltest_accepts_above_example :
    ((fulltest high_hash some_target).returned ≡ true)
    × ((fulltest high_hash some_target).rc ≡ false)
fulltest_accepts_above_example =
    fulltest_accepts_above high_hash some_target (omega arith) (omega arith) (omega arith)
