-- ===== src/TimeFunctions.antt =====
-- time_functions.c. A function that fills in a buffer returns the value; the seconds and
-- microseconds are integers that do not overflow.
pub mod Order
use upush_chat.Base.{ℕ, ◌==◌, if◌then◌else◌}
use upush_chat.Int.{ℤ, pos, negsuc, ◌+ℤ◌, ◌-ℤ◌, ltb_ℤ, eq_ℤ}

pub record Timeval : Type 0 where
  pub tv_sec : ℤ
  pub tv_usec : ℤ

unfoldable pub set_time : (sec usec : ℤ) → Timeval
set_time sec usec = record { tv_sec = sec; tv_usec = usec }

unfoldable pub compare_time : Timeval → Timeval → ℤ
compare_time first second =
    if ltb_ℤ second.tv_sec first.tv_sec
    then pos 1
    else if ltb_ℤ first.tv_sec second.tv_sec
    then negsuc 0
    else if ltb_ℤ second.tv_usec first.tv_usec
    then pos 1
    else if ltb_ℤ first.tv_usec second.tv_usec
    then negsuc 0
    else pos 0

unfoldable pub set_time_minus_time : Timeval → Timeval → Timeval
unfolding ◌+ℤ◌ ◌-ℤ◌
set_time_minus_time first second =
    let difference : Timeval = record {
      tv_sec = first.tv_sec -ℤ second.tv_sec;
      tv_usec = first.tv_usec -ℤ second.tv_usec;
    } in
    if ltb_ℤ first.tv_usec second.tv_usec
    then record { tv_sec = difference.tv_sec -ℤ pos 1; tv_usec = difference.tv_usec +ℤ pos 1000000 }
    else difference

unfoldable pub set_time_difference : Timeval → Timeval → Timeval
set_time_difference first second =
    if eq_ℤ (compare_time first second) (pos 1)
    then set_time_minus_time first second
    else set_time_minus_time second first

-- The buffer and the value returned.
unfoldable pub set_smallest_time : Timeval → Timeval → Timeval × ℤ
unfolding compare_time set_time
set_smallest_time first second =
    if ltb_ℤ (compare_time first second) (pos 0)
    then (set_time first.tv_sec first.tv_usec, pos 1)
    else (set_time second.tv_sec second.tv_usec, pos 2)
