-- ===== src/Tshark/Bulk/Instant.antt =====
-- The instant that `parseTime` reads.
use httshark.Base.{◌≡◌, ◌≢◌, ◌<◌, ◌*◌, ◌+◌, ◌^◌, List, [], ◌∷◌, ◌++◌, arith, Bytes, pos}
use httshark.Go.Text.{Lacks, split_of_Lacks, split_at_sep}
use httshark.Go.Number.{IsDigits, value, atoi_of_IsDigits}
use httshark.Go.Clock.{unix_pos, too_late}
use httshark.Tshark.Bulk.Layers.{Layers}
use httshark.Tshark.Bulk.Convert.{ok, parse_time}

digits_lack_point : (s : Bytes) → IsDigits s → Lacks b'.' s
digits_lack_point [] h = tt
digits_lack_point (c ∷ s) (hc, hs) = (λ e. absurd (omega arith), digits_lack_point s hs)

-- A time of digits, a point and digits is read as that many seconds and as that many nanoseconds
-- since 1970, so that a fraction of nine digits is read at its true size, if the second number fits
-- an int64 and the instant comes before the one at which package time wraps, which is
-- 62135596800 seconds before the largest int64 plus one.
pub parse_time_lem :
    (layers : Layers) (seconds fraction : Bytes) (rest : List Bytes)
    → layers.time ≡ (seconds ++ (b'.' ∷ fraction)) ∷ rest
    → seconds ≢ []
    → fraction ≢ []
    → IsDigits seconds
    → IsDigits fraction
    → value 0 fraction < 2 ^ 63
    → value 0 seconds * 1_000_000_000 + value 0 fraction < too_late
    → parse_time layers ≡ ok (pos (value 0 seconds * 1_000_000_000 + value 0 fraction))
unfolding parse_time
parse_time_lem layers s f rest e ns nf ds df lf early = rw (
  e,
  split_at_sep b'.' s f (digits_lack_point s ds),
  split_of_Lacks b'.' f (digits_lack_point f df),
  atoi_of_IsDigits s ns ds (omega (arith, early)),
  atoi_of_IsDigits f nf df lf,
  unix_pos (value 0 s) (value 0 f) early,
)
