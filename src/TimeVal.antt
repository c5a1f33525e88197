-- ===== src/TimeVal.antt =====
-- `timeval_subtract` of util.c, and the next scan limit that `miner_thread` of cpu-miner.c takes from
-- the elapsed time. Seconds and microseconds are signed.
pub mod Subtract
pub mod Limit
use cpuminer.Base.{
  ℕ, ◌+◌, ◌*◌, ◌/◌, ◌%◌, ◌^◌, ltb, if◌then◌else◌, Bool, true, false, Option, none, some, ◌>>=◌,
}
use cpuminer.Base.Int.{ℤ, pos, negsuc, pos_part, ◌+ℤ◌, ◌-ℤ◌, ltb_ℤ}

pub record Timeval : Type 0 where
  pub tv_sec : ℤ
  pub tv_usec : ℤ

-- `nsec` is an `int`, and `1000000 * nsec` is computed in `int`: `none` where it overflows, which C leaves
-- undefined.
abbrev pub int_product : ℕ → Option ℕ
int_product nsec = if ltb (1000000 * nsec) (2 ^ 31) then some (1000000 * nsec) else none

-- The carry into `y` when `x` has fewer microseconds; the difference is positive there.
unfoldable pub borrow : Timeval → Timeval → Option Timeval
borrow x y =
    let nsec = pos_part (y.tv_usec -ℤ x.tv_usec) / 1000000 + 1 in
    if ltb_ℤ x.tv_usec y.tv_usec
    then int_product nsec
      >>= (λ usec. some (record { tv_sec = y.tv_sec +ℤ pos nsec; tv_usec = y.tv_usec -ℤ pos usec }))
    else some y

-- The carry out of `y` when `x` has over a second of microseconds more.
unfoldable pub carry : Timeval → Timeval → Option Timeval
carry x y =
    let nsec = pos_part (x.tv_usec -ℤ y.tv_usec) / 1000000 in
    if ltb_ℤ (pos 1000000) (x.tv_usec -ℤ y.tv_usec)
    then int_product nsec
      >>= (λ usec. some (record { tv_sec = y.tv_sec -ℤ pos nsec; tv_usec = y.tv_usec +ℤ pos usec }))
    else some y

-- `*result`, `*y` as the function leaves it, and whether it returns 1.
pub record Difference : Type 0 where
  pub result : Timeval
  pub y : Timeval
  pub negative : Bool

unfoldable pub timeval_subtract : Timeval → Timeval → Option Difference
unfolding borrow carry
timeval_subtract x y = do
  borrowed ← borrow x y
  y' ← carry x borrowed
  some (record {
    result = record { tv_sec = x.tv_sec -ℤ y'.tv_sec; tv_usec = x.tv_usec -ℤ y'.tv_usec };
    y = y';
    negative = ltb_ℤ x.tv_sec y'.tv_sec;
  })

-- The seconds of a scan, rounded.
unfoldable pub rounded : Timeval → ℤ
rounded diff = if ltb_ℤ (pos 500000) diff.tv_usec then diff.tv_sec +ℤ pos 1 else diff.tv_sec

-- "adjust max_nonce to meet target scan time": the new `max_nonce`.
unfoldable pub adjust_max_nonce : ℕ → ℕ → Timeval → ℕ → ℕ
unfolding rounded
adjust_max_nonce hashes_done opt_scantime diff max_nonce =
    let max64 = hashes_done * opt_scantime % 2 ^ 64 / pos_part (rounded diff) in
    let capped = if ltb 0xfffffffa max64 then 0xfffffffa else max64 in
    if ltb_ℤ (pos 0) (rounded diff) then capped % 2 ^ 32 else max_nonce
