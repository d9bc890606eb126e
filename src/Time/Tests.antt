-- ===== src/Time/Tests.antt =====
-- Dates of concrete seconds.
use oj_windows.Base.{◌≡◌, refl, arith}
use oj_windows.Base.Int.{pos, negsuc, ◌+ℤ◌, ◌*ℤ◌}
use oj_windows.Time.{TimeInfo, split_cycle, sec_as_time}
use oj_windows.Time.Calendar.{IsDate, split_cycle-IsDate}

-- The 59th year of a cycle, for one.
split_cycle-IsDate_example : IsDate 1861920000 (split_cycle 1861920000)
split_cycle-IsDate_example = split_cycle-IsDate 1861920000 (omega arith)

abbrev no_time : TimeInfo
no_time = record { sec = 0; min = 0; hour = 0; day = 0; mon = 0; year = pos 0 }

-- The 29th of February 2024 at noon.
leap_day :
    sec_as_time (pos 1709208000) no_time
    ≡ record { sec = 0; min = 0; hour = 12; day = 29; mon = 2; year = pos 2024 }
unfolding sec_as_time ◌+ℤ◌ ◌*ℤ◌
leap_day = refl

-- A second before the epoch.
before_epoch :
    sec_as_time (negsuc 0) no_time
    ≡ record { sec = 59; min = 59; hour = 23; day = 31; mon = 12; year = pos 1969 }
unfolding sec_as_time ◌+ℤ◌ ◌*ℤ◌
before_epoch = refl
