-- ===== src/Go/Clock.antt =====
-- Package `time`: an instant is its number of nanoseconds since 1970, a duration its number of
-- nanoseconds, an int64.
use httshark.Base.{
  ℕ, ◌+◌, ◌-◌, ◌*◌, ◌/◌, ◌^◌, ◌<◌, ℤ, pos, negsuc, ◌+ℤ◌, ◌-ℤ◌, ◌*ℤ◌, ltb_ℤ, if◌then◌else◌, ◌≡◌,
  arith,
}

abbrev pub Time : Type 0
Time = ℤ

abbrev pub Duration : Type 0
Duration = ℤ

-- Package `time` counts the seconds from the year 1 on in an int64, which wraps: the span of all
-- instants, and the distance of 1970 from their middle.
abbrev pub span : ℕ
span = 2 ^ 64 * 1_000_000_000

abbrev pub epoch : ℕ
epoch = 62_135_596_800 * 1_000_000_000

-- the first instant, counted from 1970, that is too late
abbrev pub too_late : ℕ
too_late = 2 ^ 63 * 1_000_000_000 - epoch

-- `time.Unix(sec, nsec)`, of two int64
unfoldable pub unix : ℤ → ℤ → Time
unfolding ◌-ℤ◌
unix sec nsec =
    let n = sec *ℤ pos 1_000_000_000 +ℤ nsec in
    if ltb_ℤ n (negsuc (2 ^ 63 * 1_000_000_000 + epoch - 1))
    then n +ℤ pos span
    else if ltb_ℤ n (pos too_late)
    then n
    else n -ℤ pos span

-- `t.Sub(u)` stops at the largest and the smallest duration
unfoldable pub sub : Time → Time → Duration
unfolding ◌-ℤ◌
sub t u =
    let d = t -ℤ u in
    if ltb_ℤ (pos (2 ^ 63 - 1)) d
    then pos (2 ^ 63 - 1)
    else if ltb_ℤ d (negsuc (2 ^ 63 - 1))
    then negsuc (2 ^ 63 - 1)
    else d

-- `d.Milliseconds()`: Go's division rounds toward zero
unfoldable pub milliseconds : Duration → ℤ
milliseconds (pos n) = pos (n / 1_000_000)
milliseconds (negsuc n) = pos 0 -ℤ pos ((n + 1) / 1_000_000)

total_pos : (a b : ℕ) → pos a *ℤ pos 1_000_000_000 +ℤ pos b ≡ pos (a * 1_000_000_000 + b)
unfolding ◌+ℤ◌ ◌*ℤ◌
total_pos a b = ground arith

pub unix_pos :
    (a b : ℕ)
    → a * 1_000_000_000 + b < too_late
    → unix (pos a) (pos b) ≡ pos (a * 1_000_000_000 + b)
unfolding unix
unix_pos a b h = rw (total_pos a b) (ground arith)
