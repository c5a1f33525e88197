-- ===== src/Tests/Times.antt =====
-- Times and scan limits.
use cpuminer.Base.{◌≡◌, refl, arith, some, false}
use cpuminer.Base.Int.{negsuc, int_laws, pos, ◌+ℤ◌, ◌-ℤ◌}
use cpuminer.TimeVal.{Timeval, Difference, timeval_subtract, adjust_max_nonce}
use cpuminer.TimeVal.Subtract.{IsSubtracted, timeval_subtract-IsSubtracted}
use cpuminer.TimeVal.Limit.{IsAdjusted, adjust_max_nonce_lem}

abbrev start : Timeval
start = record { tv_sec = pos 100; tv_usec = pos 900000 }

abbrev end : Timeval
end = record { tv_sec = pos 105; tv_usec = pos 200000 }

elapsed :
    timeval_subtract end start
    ≡ some (record {
      result = record { tv_sec = pos 4; tv_usec = pos 300000 };
      y = record { tv_sec = pos 101; tv_usec = negsuc 99999 };
      negative = false;
    })
unfolding timeval_subtract ◌-ℤ◌ ◌+ℤ◌
elapsed = refl

timeval_subtract-IsSubtracted_example :
    (d : Difference) × (timeval_subtract end start ≡ some d) × IsSubtracted end start d
timeval_subtract-IsSubtracted_example =
    timeval_subtract-IsSubtracted end start (omega int_laws) (omega int_laws)

abbrev scan_time : Timeval
scan_time = record { tv_sec = pos 4; tv_usec = pos 300000 }

adjust_max_nonce_lem_example :
    IsAdjusted 16777215 5 4 0xffffff (adjust_max_nonce 16777215 5 scan_time 0xffffff)
adjust_max_nonce_lem_example =
    adjust_max_nonce_lem 16777215 5 4 300000 4 0xffffff (omega arith) (omega arith) (omega arith)
      (omega arith)
