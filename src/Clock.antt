-- ===== src/Clock.antt =====
-- kernel/clock.c: the wall clock. The uptime in microseconds, which the hardware timer gives, is an
-- argument. A text is the list of its characters before the NUL; `none` where nothing is written.
pub mod Digits
use ubiqos.Common.{
  ltb, leb, ◌==◌, if◌then◌else◌, ℕ, suc, ◌+◌, ◌-◌, ◌*◌, ◌/◌, ◌%◌, ◌^◌, Bool, true, Option, none,
  some, List, [], ◌∷◌, ◌++◌,
}
use ubiqos.Common.Int.{ℤ, pos, negsuc}

pub record WallClock : Type 0 where
  pub base_utc : ℕ
  pub base_us : ℕ
  pub have_it : Bool
  pub offset_min : ℤ

pub clock_set_offset : WallClock → ℤ → WallClock
clock_set_offset c minutes = record c { offset_min = minutes }

pub clock_set : WallClock → ℕ → ℕ → WallClock
clock_set c utc_seconds now = record c { base_utc = utc_seconds; base_us = now; have_it = true }

unfoldable pub clock_utc : WallClock → ℕ → ℕ
clock_utc c now =
    if c.have_it then (c.base_utc + (now + 2 ^ 64 - c.base_us) % 2 ^ 64 / 1000000) % 2 ^ 32 else 0

-- offset_min * 60, as the 32-bit number that is added.
unfoldable pub offset_seconds : ℤ → ℕ
offset_seconds (pos n) = n * 60 % 2 ^ 32
offset_seconds (negsuc n) = (2 ^ 32 - suc n * 60 % 2 ^ 32) % 2 ^ 32

unfoldable pub clock_local : WallClock → ℕ → ℕ
unfolding clock_utc offset_seconds
clock_local c now =
    if c.have_it then (clock_utc c now + offset_seconds c.offset_min) % 2 ^ 32 else 0

pub record Civil : Type 0 where
  pub year : ℕ
  pub month : ℕ
  pub day : ℕ

-- Of a number of days that is not negative, as every caller's is.
unfoldable pub civil_from_days : ℕ → Civil
civil_from_days z =
    let era = (z + 719468) / 146097 in
    let doe = z + 719468 - era * 146097 in
    let yoe = (doe - doe / 1460 + doe / 36524 - doe / 146096) / 365 in
    let doy = doe - (365 * yoe + yoe / 4 - yoe / 100) in
    let mp = (5 * doy + 2) / 153 in
    let m = if ltb mp 10 then mp + 3 else mp - 9 in
    record {
      year = yoe + era * 400 + (if leb m 2 then 1 else 0);
      month = m;
      day = doy - (153 * mp + 2) / 5 + 1;
    }

unfoldable pub two : ℕ → List ℕ
two v = (48 + v / 10 % 10) ∷ (48 + v % 10) ∷ []

-- hh:mm:ss of a number of seconds.
unfoldable pub hms : ℕ → List ℕ
unfolding two
hms s = two (s / 3600) ++ (58 ∷ (two (s / 60 % 60) ++ (58 ∷ two (s % 60))))

unfoldable pub stamp_text : ℕ → List ℕ
unfolding civil_from_days two hms
stamp_text t =
    let date = civil_from_days (t / 86400) in
    (48 + date.year / 1000 % 10)
    ∷ (48 + date.year / 100 % 10)
    ∷ (two date.year ++ (45 ∷ (two date.month ++ (45 ∷ (two date.day ++ (32 ∷ hms (t % 86400)))))))

-- "--------- --:--:--"
abbrev pub unset : List ℕ
unset = 45 ∷ 45 ∷ 45 ∷ 45 ∷ 45 ∷ 45 ∷ 45 ∷ 45 ∷ 45 ∷ 32 ∷ 45 ∷ 45 ∷ 58 ∷ 45 ∷ 45 ∷ 58 ∷ 45 ∷ 45 ∷ []

unfoldable pub clock_stamp : WallClock → ℕ → ℕ → Option (List ℕ)
unfolding clock_local stamp_text
clock_stamp c now cap =
    if ltb cap 20
    then if cap == 0 then none else some []
    else if c.have_it
    then some (stamp_text (clock_local c now))
    else some unset

unfoldable pub clock_time_only : WallClock → ℕ → ℕ → Option (List ℕ)
unfolding clock_local hms
clock_time_only c now cap =
    if ltb cap 9
    then if cap == 0 then none else some []
    else if c.have_it
    then some (hms (clock_local c now % 86400))
    else some []
