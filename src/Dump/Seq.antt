-- ===== src/Dump/Seq.antt =====
-- httpdump/receive_window.go and tcp_assembly.go: the constants and `compareTCPSeq`. Go's `int`
-- has 64 bits, as on every platform that the capture runs on, so that a uint32 converts to it
-- unchanged.
pub mod Order
mod Tests
use httshark.Base.{
  ℕ, ◌+◌, ◌-◌, ◌%◌, ◌^◌, ◌≤◌, ◌<◌, Bool, ◌&&◌, ltb, ℤ, pos, negsuc, if◌then◌else◌, not, true, false,
  eq_ℤ,
}

abbrev pub max_tcp_seq : ℕ
max_tcp_seq = 0xFFFFFFFF

abbrev pub tcp_seq_window : ℕ
tcp_seq_window = 0x0000FFFF

-- uint32 `a + b` and `a - b`
abbrev pub add32 : ℕ → ℕ → ℕ
add32 a b = (a + b) % 2 ^ 32

abbrev pub sub32 : ℕ → ℕ → ℕ
sub32 a b = (a + 2 ^ 32 - b) % 2 ^ 32

-- `int32(w)` of a uint32
abbrev pub signed32 : ℕ → ℤ
signed32 w = if ltb w (2 ^ 31) then pos w else negsuc (2 ^ 32 - w - 1)

-- `compareTCPSeq`
unfoldable pub compare_tcp_seq : ℕ → ℕ → ℤ
compare_tcp_seq seq₁ seq₂ =
    if ltb seq₁ tcp_seq_window && ltb (max_tcp_seq - tcp_seq_window) seq₂
    then pos (sub32 (add32 seq₁ max_tcp_seq) seq₂)
    else if ltb seq₂ tcp_seq_window && ltb (max_tcp_seq - tcp_seq_window) seq₁
    then pos (sub32 seq₁ (add32 max_tcp_seq seq₂))
    else signed32 (sub32 seq₁ seq₂)

-- the tests that its callers make
abbrev pub is_negative : ℤ → Bool
is_negative (pos n) = false
is_negative (negsuc n) = true

abbrev pub is_zero : ℤ → Bool
is_zero r = eq_ℤ r (pos 0)

abbrev pub is_positive : ℤ → Bool
is_positive r = not (is_negative r) && not (is_zero r)
