-- ===== src/Dump/Seq/Order.antt =====
-- Where `compareTCPSeq` orders sequence numbers, and where it does not.
use httshark.Base.{ℕ, ◌+◌, ◌-◌, ◌≤◌, ◌<◌, ◌^◌, ◌≡◌, false, ◌&&◌, arith, ltb, ◌⊎◌, not, sub_ℕ}
use httshark.Dump.Seq.{
  max_tcp_seq, tcp_seq_window, compare_tcp_seq, is_negative, is_zero, is_positive,
}

-- The two numbers do not stand on the two sides of the wrap, and less than half the numbers lie
-- between them.
pub record IsNear (a b : ℕ) : Type 0 where
  pub a_word : a < 2 ^ 32
  pub b_word : b < 2 ^ 32
  pub no_wrap : (tcp_seq_window ≤ a) ⊎ (b ≤ max_tcp_seq - tcp_seq_window)
  pub no_wrap' : (tcp_seq_window ≤ b) ⊎ (a ≤ max_tcp_seq - tcp_seq_window)
  pub below : a < b + 2 ^ 31
  pub above : b < a + 2 ^ 31

-- Of two near numbers the comparison is their difference: negative exactly if the first is
-- smaller, zero exactly if they are equal, positive exactly if the first is larger.
pub compare_tcp_seq_near :
    (a b : ℕ)
    → IsNear a b
    → (is_negative (compare_tcp_seq a b) ≡ ltb a b)
      × (is_zero (compare_tcp_seq a b) ≡ (not (ltb a b) && not (ltb b a)))
      × (is_positive (compare_tcp_seq a b) ≡ ltb b a)
      × (compare_tcp_seq a b ≡ sub_ℕ a b)
unfolding compare_tcp_seq
compare_tcp_seq_near a b h = ground arith

-- A number just below the wrap and one just above it: the first is the earlier, by less than
-- 2 ^ 17, and yet the comparison is negative in neither order, so that neither counts as earlier.
pub compare_tcp_seq_wrap :
    (a b : ℕ)
    → max_tcp_seq - tcp_seq_window < a
    → a < 2 ^ 32
    → b < tcp_seq_window
    → (b + 2 ^ 32 - a < 2 ^ 17)
      × (is_negative (compare_tcp_seq a b) ≡ false)
      × (is_negative (compare_tcp_seq b a) ≡ false)
unfolding compare_tcp_seq
compare_tcp_seq_wrap a b la lb hb = ground arith
