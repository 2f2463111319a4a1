-- ===== src/Clock/Digits.antt =====
-- kernel/clock.c: the texts that the clock writes.
use ubiqos.Common.{
  ltb, ◌==◌, if◌then◌else◌, length, ℕ, ◌+◌, ◌-◌, ◌*◌, ◌/◌, ◌%◌, ◌≤◌, ◌<◌, ◌≡◌, refl, ap, subst,
  Bool, true, false, Option, none, some, List, [], ◌∷◌, arith, dec_lt,
}
use mathlib.Core.Option.{some-injective}
use ubiqos.Clock.{
  WallClock, two, hms, stamp_text, unset, clock_local, clock_stamp, clock_time_only,
  civil_from_days,
}

hms-length : (s : ℕ) → length (hms s) ≡ 8
unfolding hms two
hms-length s = refl

stamp_text-length : (t : ℕ) → length (stamp_text t) ≡ 19
unfolding stamp_text two hms
stamp_text-length t = refl

-- A stamp, with the NUL behind it, never passes the end of its buffer, whatever the capacity.
pub clock_stamp-fits :
    (c : WallClock) (now cap : ℕ) (s : List ℕ) → clock_stamp c now cap ≡ some s → length s < cap
unfolding clock_stamp
clock_stamp-fits c now cap s e = elim (dec_lt cap 20) [
  | yes lt ↦ let t : ltb cap 20 ≡ true = ground arith in short (cap == 0) refl (rw t at e)
  | no ge ↦ let t : ltb cap 20 ≡ false = ground arith in long c.have_it (omega arith) (rw t at e)
]
  where
    short :
        (b : Bool)
        → (cap == 0) ≡ b
        → ◌≡◌ {A = Option (List ℕ)} (if b then none else some []) (some s)
        → length s < cap
    short true z k = cc
    short false z k = subst (λ s. length s < cap) (some-injective _ _ k) (ground arith)

    long :
        (b : Bool)
        → 20 ≤ cap
        → ◌≡◌ {A = Option (List ℕ)}
            (if b then some (stamp_text (clock_local c now)) else some unset)
            (some s)
        → length s < cap
    long true room k =
        let n : length (stamp_text (clock_local c now)) ≡ 19 =
          stamp_text-length (clock_local c now) in
        subst (λ s. length s < cap) (some-injective _ _ k) (omega (arith, n))
    long false room k = subst (λ s. length s < cap) (some-injective _ _ k) (omega arith)

-- The number that two characters from "00" on stand for.
abbrev pub read_two : ℕ → ℕ → ℕ
read_two a b = (a - 48) * 10 + (b - 48)

-- The seconds that a text hh:mm:ss stands for; 0 for a text of another length.
abbrev pub read_hms : List ℕ → ℕ
read_hms (a ∷ b ∷ x ∷ c ∷ d ∷ y ∷ e ∷ f ∷ []) =
    read_two a b * 3600 + read_two c d * 60 + read_two e f
read_hms _ = 0

hms-reads : (s : ℕ) → s < 86400 → read_hms (hms s) ≡ s
unfolding hms two
hms-reads s lt = omega arith

time_only_set :
    (c : WallClock) (now cap : ℕ)
    → c.have_it ≡ true
    → 9 ≤ cap
    → clock_time_only c now cap ≡ some (hms (clock_local c now % 86400))
unfolding clock_time_only
time_only_set c now cap set_ room =
    let t : ltb cap 9 ≡ false = ground arith in
    rw t (ap (λ b. if b then some (hms (clock_local c now % 86400)) else some []) set_)

-- The time of day that the clock writes, once it is set and where 9 characters fit, reads back as the
-- seconds since the local midnight.
pub clock_time_only-reads :
    (c : WallClock) (now cap : ℕ)
    → c.have_it ≡ true
    → 9 ≤ cap
    → (s : List ℕ) × (clock_time_only c now cap ≡ some s) × (read_hms s ≡ clock_local c now % 86400)
clock_time_only-reads c now cap set_ room = (
  hms (clock_local c now % 86400),
  time_only_set c now cap set_ room,
  hms-reads (clock_local c now % 86400) (omega arith),
)

-- The day of a year that begins in March and the month and day that stand for it.
march_day :
    (doy mp : ℕ)
    → (5 * doy + 2) / 153 ≡ mp
    → (1 ≤ doy - (153 * mp + 2) / 5 + 1) × (doy - (153 * mp + 2) / 5 + 1 ≤ 31)
march_day doy mp e = (omega arith, omega (arith, e))

-- The day of the year that begins in March, of a day of the era.
day_of_year :
    (doe : ℕ)
    → doe < 146097
    → let yoe = (doe - doe / 1460 + doe / 36524 - doe / 146096) / 365 in
      doe - (365 * yoe + yoe / 4 - yoe / 100) ≤ 365
day_of_year doe lt = omega arith

-- A date has a month from 1 to 12 and a day from 1 to 31.
pub civil_from_days-bounds :
    (z : ℕ)
    → ((1 ≤ (civil_from_days z).month) × ((civil_from_days z).month ≤ 12))
      × ((1 ≤ (civil_from_days z).day) × ((civil_from_days z).day ≤ 31))
unfolding civil_from_days
civil_from_days-bounds z =
    bounds _ (day_of_year (z + 719468 - (z + 719468) / 146097 * 146097) (omega arith))
  where
    bounds :
        (doy : ℕ)
        → doy ≤ 365
        → let mp = (5 * doy + 2) / 153 in
          let m = if ltb mp 10 then mp + 3 else mp - 9 in
          ((1 ≤ m) × (m ≤ 12))
          × ((1 ≤ doy - (153 * mp + 2) / 5 + 1) × (doy - (153 * mp + 2) / 5 + 1 ≤ 31))
    bounds doy le = (
      elim (dec_lt ((5 * doy + 2) / 153) 10) [
        | yes lt ↦
            let t : ltb ((5 * doy + 2) / 153) 10 ≡ true = ground arith in
            rw t (omega arith, omega arith)
        | no ge ↦
            let t : ltb ((5 * doy + 2) / 153) 10 ≡ false = ground arith in
            rw t (omega arith, omega arith)
      ],
      march_day doy ((5 * doy + 2) / 153) refl,
    )
