-- ===== src/TimeVal/Limit.antt =====
-- The scan limit that follows from the last scan's hashes and seconds.
use cpuminer.Base.{
  ℕ, ◌+◌, ◌*◌, ◌/◌, ◌%◌, ◌^◌, ◌<◌, ◌≤◌, ◌≡◌, refl, ltb, if◌then◌else◌, Bool-cases, inl, inr, arith,
  ◌⊎◌, ltb-lt, ltb_lt, ltb_le,
}
use native.Mathlib.Decide.{dec_lt}
use cpuminer.Base.Int.{pos, ◌+ℤ◌}
use cpuminer.TimeVal.{Timeval, rounded, adjust_max_nonce}

-- The new limit never passes 0xfffffffa when the old one does not.
pub adjust_max_nonce-le :
    (hashes scantime : ℕ) (diff : Timeval) (max_nonce : ℕ)
    → max_nonce ≤ 0xfffffffa
    → adjust_max_nonce hashes scantime diff max_nonce ≤ 0xfffffffa
unfolding adjust_max_nonce
adjust_max_nonce-le hashes scantime diff max_nonce h = ground arith

capped_lem :
    (work secs : ℕ)
    → 0 < secs
    → let limit = (if ltb 0xfffffffa (work / secs) then 0xfffffffa else work / secs) % 2 ^ 32 in
      (limit * secs ≤ work) × ((work < (limit + 1) * secs) ⊎ (limit ≡ 0xfffffffa))
capped_lem work secs p = elim (Bool-cases (ltb 0xfffffffa (work / secs))) [
  | inl h ↦ let low = ltb_lt _ _ h in rw h (grind arith, inr refl)
  | inr h ↦
      let high = ltb_le _ _ h in
      let same : work / secs % 2 ^ 32 ≡ work / secs = omega arith in
      rw (h, same) (grind arith, inl (grind arith))
]

-- The limit after a scan of `secs` seconds with that many hashes: the old one for no seconds, else the
-- largest number of hashes that the rate of the scan allows in the target time, or the cap.
abbrev pub IsAdjusted : (hashes scantime secs max_nonce limit : ℕ) → Type 0
IsAdjusted hashes scantime secs max_nonce limit =
    ((secs ≡ 0) × (limit ≡ max_nonce))
    ⊎ ((0 < secs)
        × (limit * secs ≤ hashes * scantime)
        × ((hashes * scantime < (limit + 1) * secs) ⊎ (limit ≡ 0xfffffffa)))

-- The seconds that are nearest, and of two the fewer, are the rounded ones.
rounded_lem :
    (s u secs : ℕ)
    → u ≤ 1000000
    → 1000000 * secs < 1000000 * s + u + 500000
    → 1000000 * s + u ≤ 1000000 * secs + 500000
    → rounded (record { tv_sec = pos s; tv_usec = pos u }) ≡ pos secs
unfolding rounded ◌+ℤ◌
rounded_lem s u secs small up down = ground arith

-- After a scan of `s` seconds and `u` microseconds, and for `secs` the nearest number of seconds, the
-- fewer of two that are as near: with no seconds the limit stays; otherwise the new limit is the
-- largest number of hashes that the rate of the scan allows in the target time, or the cap of
-- 0xfffffffa where that is lower. The product of the hashes and the target time is below 2^64, and
-- `u` is at most a million.
pub adjust_max_nonce_lem :
    (hashes scantime s u secs max_nonce : ℕ)
    → u ≤ 1000000
    → 1000000 * secs < 1000000 * s + u + 500000
    → 1000000 * s + u ≤ 1000000 * secs + 500000
    → hashes * scantime < 2 ^ 64
    → IsAdjusted hashes scantime secs max_nonce
        (adjust_max_nonce hashes scantime (record { tv_sec = pos s; tv_usec = pos u }) max_nonce)
unfolding adjust_max_nonce
adjust_max_nonce_lem hashes scantime s u secs max_nonce small up down q =
    let e = rounded_lem s u secs small up down in
    elim (dec_lt 0 secs) [
      | yes p ↦
          let wraps : hashes * scantime % 2 ^ 64 ≡ hashes * scantime = omega arith in
          let test = ltb-lt 0 (secs + 0) (omega arith) in
          rw (e, test, wraps)
            (inr (let lem = capped_lem (hashes * scantime) secs p in (p, lem.0, lem.1)))
      | no none_left ↦ let z : secs ≡ 0 = omega arith in rw (e, z) (inl (refl, refl))
    ]
