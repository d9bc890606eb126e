-- ===== src/Time.antt =====
-- ext/oj_windows/util.c: seconds since the epoch as a date and a time of the day.
pub mod Calendar
mod Tests
use oj_windows.Base.{
  ℕ, suc, ◌+◌, ◌-◌, ◌*◌, ◌/◌, ◌%◌, ◌^◌, Bool, true, false, List, [], ◌∷◌, ltb, leb, if◌then◌else◌,
}
use oj_windows.Base.Int.{ℤ, pos, negsuc, sub_ℕ, ◌+ℤ◌, ◌*ℤ◌}

pub record TimeInfo : Type 0 where
  pub sec : ℕ
  pub min : ℕ
  pub hour : ℕ
  pub day : ℕ
  pub mon : ℕ
  pub year : ℤ

abbrev pub secs_per_day : ℕ
secs_per_day = 86400

abbrev pub secs_per_year : ℕ
secs_per_year = 31536000

abbrev pub secs_per_leap : ℕ
secs_per_leap = 31622400

abbrev pub secs_per_quad_year : ℕ
secs_per_quad_year = 126230400

abbrev pub secs_per_cent : ℕ
secs_per_cent = 3155673600

abbrev pub secs_per_leap_cent : ℕ
secs_per_leap_cent = 3155760000

abbrev pub secs_per_quad_cent : ℕ
secs_per_quad_cent = 12622780800

abbrev pub eom_secs : List ℕ
eom_secs =
    2678400 ∷ 5097600 ∷ 7776000 ∷ 10368000 ∷ 13046400 ∷ 15638400 ∷ 18316800 ∷ 20995200 ∷ 23587200
    ∷ 26265600 ∷ 28857600 ∷ 31536000 ∷ []

abbrev pub eom_leap_secs : List ℕ
eom_leap_secs =
    2678400 ∷ 5184000 ∷ 7862400 ∷ 10454400 ∷ 13132800 ∷ 15724800 ∷ 18403200 ∷ 21081600 ∷ 23673600
    ∷ 26352000 ∷ 28944000 ∷ 31622400 ∷ []

-- The variables of `sec_as_time` once the year is known.
pub record Split : Type 0 where
  pub c : ℕ
  pub qy : ℕ
  pub y : ℕ
  pub leap : Bool
  pub secs : ℕ

abbrev quad_year : ℕ → ℕ → ℕ → Split
quad_year c qy secs =
    if ltb secs secs_per_leap
    then record { c = c; qy = qy; y = 0; leap = true; secs = secs }
    else (let s = secs - secs_per_leap in
        record {
          c = c;
          qy = qy;
          y = s / secs_per_year + 1;
          leap = false;
          secs = s % secs_per_year;
        })

abbrev common_cent : ℕ → ℕ → Split
common_cent c secs =
    if ltb secs (secs_per_year * 4)
    then record {
      c = c;
      qy = 0;
      y = secs / secs_per_year;
      leap = false;
      secs = secs % secs_per_year;
    }
    else (let s = secs - secs_per_year * 4 in
        quad_year c (s / secs_per_quad_year + 1) (s % secs_per_quad_year))

-- The seconds of a cycle of 400 years.
unfoldable pub split_cycle : ℕ → Split
split_cycle secs =
    if ltb secs secs_per_quad_year
    then quad_year 0 0 secs
    else if ltb secs secs_per_leap_cent
    then quad_year 0 (secs / secs_per_quad_year) (secs % secs_per_quad_year)
    else (let s = secs - secs_per_leap_cent in
        common_cent (s / secs_per_cent + 1) (s % secs_per_cent))

-- The month and the seconds in it; with no month that fits the field stays as it was.
unfoldable pub month_of : ℕ → ℕ → List ℕ → ℕ → ℕ → ℕ × ℕ
month_of old m [] before secs = (old, secs)
month_of old m (e ∷ es) before secs =
    let later = month_of old (m + 1) es e secs in
    if ltb secs e then (m, if ltb 1 m then secs - before else secs) else later

-- The cycle, as an offset from the year 0, and the seconds in it.
unfoldable pub cycle : ℤ → ℤ × ℕ
cycle secs = elim (secs +ℤ pos 62167219200) [
  | pos n ↦ (pos (n / secs_per_quad_cent), n % secs_per_quad_cent)
  | negsuc k ↦
      let shift = (k + 1) / secs_per_quad_cent + 1 in
      let n = shift * secs_per_quad_cent - (k + 1) in
      (sub_ℕ (n / secs_per_quad_cent) shift, n % secs_per_quad_cent)
]

unfoldable pub day_time : ℕ → TimeInfo → TimeInfo
day_time secs ti =
    let rest = secs % 86400 in
    record ti {
      day = secs / 86400 + 1;
      hour = rest / 3600;
      min = rest % 3600 / 60;
      sec = rest % 3600 % 60;
    }

-- The conversion of a 64-bit integer to `int`.
unfoldable pub to_int32 : ℤ → ℤ
to_int32 (pos n) = sub_ℕ (n % 2 ^ 32) (if ltb (n % 2 ^ 32) (2 ^ 31) then 0 else 2 ^ 32)
to_int32 (negsuc n) =
    sub_ℕ (2 ^ 32 - 1 - n % 2 ^ 32) (if ltb (n % 2 ^ 32) (2 ^ 31) then 2 ^ 32 else 0)

unfoldable pub sec_as_time : ℤ → TimeInfo → TimeInfo
unfolding split_cycle month_of cycle day_time to_int32
sec_as_time secs ti =
    let (qc, left) = cycle secs in
    let s = split_cycle left in
    let (mon, rest) = month_of ti.mon 1 (if s.leap then eom_leap_secs else eom_secs) 0 s.secs in
    day_time rest
      (record ti { mon = mon; year = to_int32 (qc *ℤ pos 400 +ℤ pos (s.c * 100 + s.qy * 4 + s.y)) })
