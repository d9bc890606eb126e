-- ===== src/Time/Calendar.antt =====
-- ext/oj_windows/util.c: the year that `sec_as_time` finds, against the rule of the calendar.
use oj_windows.Base.{
  ℕ, ◌+◌, ◌-◌, ◌*◌, ◌/◌, ◌%◌, ◌≤◌, ◌<◌, ◌≡◌, refl, sym, ◌∙◌, false, ltb, ◌==◌, if◌then◌else◌, arith,
  Bool-cases, ltb→lt, ◌⊎◌, inl, inr,
}
use oj_windows.Time.{Split, split_cycle, quad_year, common_cent}

-- The days in front of the year `n` of a cycle of 400 years: every fourth year has one more, but of the
-- full centuries only the first.
abbrev pub days_before : ℕ → ℕ
days_before n = n * 365 + (n + 3) / 4 + (n + 399) / 400 - (n + 99) / 100

abbrev pub year_of : Split → ℕ
year_of s = s.c * 100 + s.qy * 4 + s.y

pub record IsDate (secs : ℕ) (s : Split) : Type 0 where
  pub whole : secs ≡ days_before (year_of s) * 86400 + s.secs
  pub days : days_before (year_of s + 1) ≡ days_before (year_of s) + (if s.leap then 366 else 365)
  pub inside : s.secs < (days_before (year_of s + 1) - days_before (year_of s)) * 86400

not-ltb : (a b : ℕ) → ltb a b ≡ false → b ≤ a
not-ltb a b h = ground arith

-- The same date for the same number of seconds.
IsDate-at : {a b : ℕ} {s : Split} → a ≡ b → IsDate a s → IsDate b s
IsDate-at e d = record { whole = sym e ∙ d.whole; inside = d.inside; days = d.days }

-- Days in front of the years of a leap year's group of four.
group :
    (c qy y : ℕ)
    → c < 4
    → qy < 25
    → y < 5
    → (c ≡ 0) ⊎ (0 < qy)
    → days_before (c * 100 + qy * 4 + y)
      ≡ days_before (c * 100 + qy * 4) + y * 365 + (if y == 0 then 0 else 1)
group c qy y h k l (inl e) = ground arith
group c qy y h k l (inr e) = ground arith

century :
    (c qy : ℕ)
    → c < 4
    → qy < 25
    → days_before (c * 100 + qy * 4)
      ≡ c * 36524 + qy * 1461 + (if c == 0 then 0 else if qy == 0 then 1 else 0)
century c qy h k = ground arith

IsDate-quad_year :
    (c qy secs : ℕ)
    → c < 4
    → qy < 25
    → (c ≡ 0) ⊎ (0 < qy)
    → secs < 126230400
    → IsDate (days_before (c * 100 + qy * 4) * 86400 + secs) (quad_year c qy secs)
IsDate-quad_year c qy secs h k l r = elim (Bool-cases (ltb secs 31622400)) [
  | inl e ↦ rw e (record {
    whole = ground (arith, group c qy 0 h k (omega arith) l);
    days = ground (arith, group c qy 0 h k (omega arith) l, group c qy 1 h k (omega arith) l);
    inside = ground (
      arith,
      group c qy 0 h k (omega arith) l,
      group c qy 1 h k (omega arith) l,
      ltb→lt secs 31622400 e,
    );
  })
  | inr e ↦
      let big = not-ltb secs 31622400 e in
      let y = (secs - 31622400) / 31536000 + 1 in
      let small : y < 4 = omega arith in
      rw e (record {
        whole = ground (arith, group c qy y h k (omega arith) l, big);
        days =
            ground
              (arith, group c qy y h k (omega arith) l, group c qy (y + 1) h k (omega arith) l);
        inside =
            ground
              (arith, group c qy y h k (omega arith) l, group c qy (y + 1) h k (omega arith) l);
      })
]

-- The years of a century that does not begin with a leap year, up to its first leap year.
plain :
    (c y : ℕ) → 0 < c → c < 4 → y < 5 → days_before (c * 100 + 0 * 4 + y) ≡ c * 36524 + 1 + y * 365
plain c y g h l = ground arith

common :
    (c qy : ℕ)
    → 0 < c
    → c < 4
    → 0 < qy
    → qy < 25
    → days_before (c * 100 + qy * 4) ≡ c * 36524 + qy * 1461
common c qy g h k l = ground arith

IsDate-common_cent :
    (c secs : ℕ)
    → 0 < c
    → c < 4
    → secs < 3155673600
    → IsDate ((c * 36524 + 1) * 86400 + secs) (common_cent c secs)
IsDate-common_cent c secs g h r = elim (Bool-cases (ltb secs 126144000)) [
  | inl e ↦
      let y = secs / 31536000 in
      let small : y < 4 = omega (arith, ltb→lt secs 126144000 e) in
      rw e (record {
        whole = omega (arith, plain c y g h (omega arith));
        days = omega (arith, plain c y g h (omega arith), plain c (y + 1) g h (omega arith));
        inside = omega (arith, plain c y g h (omega arith), plain c (y + 1) g h (omega arith));
      })
  | inr e ↦
      let big = not-ltb secs 126144000 e in
      let s = secs - 126144000 in
      let qy = s / 126230400 + 1 in
      let small : qy < 25 = omega arith in
      rw e (
        IsDate-at (omega (arith, big, common c qy g h (omega arith) small))
          (IsDate-quad_year c qy (s % 126230400) h small (inr (omega arith)) (omega arith)))
]

first_century : (qy : ℕ) → qy < 25 → days_before (0 * 100 + qy * 4) ≡ qy * 1461
first_century qy h = ground arith

-- For the seconds of a cycle of 400 years: the year, counted from the cycle's first, the leap flag and
-- the seconds in the year are those of the calendar.
pub split_cycle-IsDate : (secs : ℕ) → secs < 12622780800 → IsDate secs (split_cycle secs)
unfolding split_cycle
split_cycle-IsDate secs h = elim (Bool-cases (ltb secs 126230400)) [
  | inl e ↦ rw e (
      IsDate-at (omega arith) (
        IsDate-quad_year 0 0 secs (omega arith) (omega arith) (inl refl) (ltb→lt secs 126230400 e)))
  | inr e ↦ elim (Bool-cases (ltb secs 3155760000)) [
    | inl f ↦
        let qy = secs / 126230400 in
        let small : qy < 25 = omega (arith, ltb→lt secs 3155760000 f) in
        rw (e, f)
          (IsDate-at (omega (arith, first_century qy small))
            (IsDate-quad_year 0 qy (secs % 126230400) (omega arith) small (inl refl) (omega arith)))
    | inr f ↦
        let big = not-ltb secs 3155760000 f in
        let s = secs - 3155760000 in
        let c = s / 3155673600 + 1 in
        rw (e, f)
          (IsDate-at (omega (arith, big))
            (IsDate-common_cent c (s % 3155673600) (omega arith) (omega arith) (omega arith)))
  ]
]
