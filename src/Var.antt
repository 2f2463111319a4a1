-- ===== src/Var.antt =====
-- kernel/varfs.c: the files of /var. What the clock writes (kernel/clock.c), the uptime and the ring of
-- kernel messages (kernel/main.c) are arguments. A text is the list of its characters before the NUL.
pub mod Decimal
use ubiqos.Common.{
  ltb, leb, ◌==◌, if◌then◌else◌, length, take, drop, ℕ, zero, suc, ◌+◌, ◌/◌, ◌%◌, ◌^◌, Bool, true,
  false, not, ◌||◌, Option, none, some, List, [], ◌∷◌, ◌++◌,
}
use ubiqos.Common.Int.{ℤ, pos, failed}
use ubiqos.Clock.{WallClock, clock_utc, clock_stamp}

unfoldable pub name_is : List ℕ → List ℕ → Bool
name_is [] [] = true
name_is [] (w ∷ ws) = false
name_is (p ∷ ps) [] = false
name_is (p ∷ ps) (w ∷ ws) = let rest = name_is ps ws in if p == w then rest else false

-- The loop that fills `tmp`, the last digit first; 10 rounds are enough for a 32-bit number.
unfoldable pub tmp_digits : ℕ → ℕ → List ℕ
tmp_digits zero v = []
tmp_digits (suc fuel) v =
    let rest = tmp_digits fuel (v / 10) in (48 + v % 10) ∷ (if v / 10 == 0 then [] else rest)

-- out[i] = tmp[n - 1 - i], before what follows.
unfoldable pub backwards : List ℕ → List ℕ → List ℕ
backwards [] after = after
backwards (d ∷ ds) after = backwards ds (d ∷ after)

unfoldable pub decimal : ℕ → List ℕ → List ℕ
unfolding tmp_digits backwards
decimal v after = backwards (tmp_digits 10 v) after

-- Nothing but the NUL when the clock is not set.
unfoldable pub utc_line : Bool → ℕ → ℕ → List ℕ
unfolding decimal
utc_line is_set utc cap = if not is_set || ltb cap 12 then [] else decimal utc (10 ∷ [])

unfoldable pub uptime_line : ℕ → ℕ → List ℕ
unfolding decimal
uptime_line now_us cap =
    let ms = now_us / 1000 in
    let frac = ms % 1000 in
    if ltb cap 24
    then []
    else decimal (ms / 1000 % 2 ^ 32)
        (46 ∷ (48 + frac / 100) ∷ (48 + frac / 10 % 10) ∷ (48 + frac % 10) ∷ 10 ∷ [])

-- "/dmesg", "/time", "/utc" and "/uptime"
abbrev dmesg_path : List ℕ
dmesg_path = 47 ∷ 100 ∷ 109 ∷ 101 ∷ 115 ∷ 103 ∷ []

abbrev time_path : List ℕ
time_path = 47 ∷ 116 ∷ 105 ∷ 109 ∷ 101 ∷ []

abbrev utc_path : List ℕ
utc_path = 47 ∷ 117 ∷ 116 ∷ 99 ∷ []

abbrev uptime_path : List ℕ
uptime_path = 47 ∷ 117 ∷ 112 ∷ 116 ∷ 105 ∷ 109 ∷ 101 ∷ []

-- The room of the buffer that a line is made in.
abbrev line_size : ℕ
line_size = 24

time_line : WallClock → ℕ → ℕ → List ℕ
time_line c now cap =
    let out : List ℕ = elim (clock_stamp c now cap) [ none ↦ [] | some s ↦ s ] in
    if leb (length out + 2) cap then out ++ 10 ∷ [] else out

is_line : List ℕ → Bool
unfolding name_is
is_line path = name_is path time_path || name_is path utc_path || name_is path uptime_path

small_line : WallClock → ℕ → List ℕ → ℕ → List ℕ
unfolding name_is utc_line uptime_line time_line
small_line c now path cap =
    if name_is path utc_path
    then utc_line c.have_it (clock_utc c now) cap
    else if name_is path uptime_path
    then uptime_line now cap
    else time_line c now cap

module _ (dmesg_size : ℕ) (dmesg_at : ℕ → Option ℕ) where
  -- At most `n` characters of the ring from `offset`, up to the end of what was said.
  dmesg_read : ℕ → ℕ → List ℕ
  dmesg_read offset zero = []
  dmesg_read offset (suc n) =
      let rest = dmesg_read (suc offset) n in
      elim (dmesg_at offset) [ none ↦ [] | some c ↦ c ∷ rest ]

  -- The result and what was stored at `buf`.
  pub var_read_at : WallClock → ℕ → List ℕ → ℕ → ℕ → ℤ × List ℕ
  unfolding is_line small_line dmesg_read
  var_read_at c now path offset len =
      let part = take len (drop offset (small_line c now path line_size)) in
      let said = dmesg_read offset len in
      if is_line path
      then (pos (length part), part)
      else if name_is path dmesg_path
      then (pos (length said), said)
      else (failed, [])

  -- The attribute and the size.
  pub var_stat : WallClock → ℕ → List ℕ → ℤ × ℕ
  unfolding is_line small_line
  var_stat c now path =
      if name_is path (47 ∷ [])
      then (pos 16, 0)
      else if is_line path
      then (pos 0, length (small_line c now path line_size))
      else if name_is path dmesg_path
      then (pos 0, dmesg_size)
      else (failed, 0)
