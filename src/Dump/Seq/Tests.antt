-- ===== src/Dump/Seq/Tests.antt =====
-- Tests of the comparison, and its theorems at concrete inputs.
use httshark.Base.{◌≡◌, refl, ◌+◌, ◌-◌, ◌<◌, ◌^◌, false, pos, negsuc, arith}
use httshark.Dump.Seq.{compare_tcp_seq, is_negative}
use httshark.Dump.Seq.Order.{compare_tcp_seq_wrap}

earlier : compare_tcp_seq 100 160 ≡ negsuc 59
unfolding compare_tcp_seq
earlier = refl

-- Both ways round across the wrap, and a pair that counts as equal.
across :
    (compare_tcp_seq 0xFFFFFFF0 5 ≡ pos 4294967276)
    × (compare_tcp_seq 5 0xFFFFFFF0 ≡ pos 20)
    × (compare_tcp_seq 0 0xFFFFFFFF ≡ pos 0)
unfolding compare_tcp_seq
across = (refl, refl, refl)

compare_tcp_seq_wrap_example :
    (5 + 2 ^ 32 - 0xFFFFFFF0 < 2 ^ 17)
    × (is_negative (compare_tcp_seq 0xFFFFFFF0 5) ≡ false)
    × (is_negative (compare_tcp_seq 5 0xFFFFFFF0) ≡ false)
compare_tcp_seq_wrap_example =
    compare_tcp_seq_wrap 0xFFFFFFF0 5 (omega arith) (omega arith) (omega arith)
