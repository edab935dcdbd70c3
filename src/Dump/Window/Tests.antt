-- ===== src/Dump/Window/Tests.antt =====
-- Runs of the window, and its theorems at concrete inputs.
use mathlib.Core.Option
use httshark.Base.{
  zero, suc, get_elem?, ◌%◌, ℕ, ◌+◌, ◌<◌, ◌≡◌, refl, true, false, Option, none, some, List, [], ◌∷◌,
  arith, codes, Bytes, length, All, if◌then◌else◌, ◌==◌, ◌||◌,
}
use httshark.Dump.Packet.{Tcp}
use httshark.Dump.Seq.{compare_tcp_seq, is_negative}
use httshark.Dump.Window.{ReceiveWindow, insert, confirm, is_delivered}
use httshark.Dump.Window.Held.{Holds, filled}
use httshark.Dump.Window.Slots.{slot}
use httshark.Dump.Window.Insert.{Makes, insert_list, insert_refines}
use httshark.Dump.Window.Confirm.{confirm_list, confirm_refines}
use httshark.Dump.Window.Sorted.{InRegion, IsSorted, sorted_insert, insert_sorts}
use httshark.Dump.Window.Stream.{segment}

abbrev part : ℕ → Bytes → Tcp
part seq payload = record {
  src_port = 1024;
  dst_port = 80;
  seq = seq;
  ack_number = 1;
  syn = false;
  ack = true;
  fin = false;
  rst = false;
  payload = payload;
}

-- a buffer of three slots whose two packets go round its end
abbrev window : ReceiveWindow
window = record {
  size = 2;
  start = 2;
  buffer = some (part 70_020 (codes "klmno")) ∷ none ∷ some (part 70_000 (codes "abcde")) ∷ [];
  last_ack = 0;
  expect_begin = 69_998;
  key_description = codes "up";
}

abbrev held : List Tcp
held = part 70_000 (codes "abcde") ∷ part 70_020 (codes "klmno") ∷ []

window_slots : (i : ℕ) → i < 2 → slot window.buffer window.start i ≡ filled (get_elem? held i)
unfolding slot
window_slots zero h = refl
window_slots (suc zero) h = refl
window_slots (suc (suc i)) h = absurd (omega arith)

window-Holds : Holds window held
window-Holds = record {
  count = refl;
  fits = omega arith;
  start_in = omega arith;
  slots = window_slots;
}

abbrev late : Tcp
late = part 70_010 (codes "fghij")

-- The packet goes between the two, round the end of the buffer.
insert_between :
    insert window late
    ≡ some (record window {
      size = 3;
      buffer =
          some late ∷ some (part 70_020 (codes "klmno")) ∷ some (part 70_000 (codes "abcde")) ∷ [];
    })
unfolding insert compare_tcp_seq
insert_between = refl

abbrev window_rest : List (Option Tcp)
window_rest = some (part 70_020 (codes "klmno")) ∷ some (part 70_000 (codes "abcde")) ∷ []

-- A full window is doubled.
grows :
    Option.map
      (λ (w : ReceiveWindow). length w.buffer)
      (insert
        (record window { size = 3; buffer = some late ∷ window_rest })
        (part 70_040 (codes "p")))
    ≡ some 6
unfolding insert compare_tcp_seq
grows = refl

insert_refines_example : Makes window (insert window late) (insert_list 69_998 late held)
insert_refines_example = insert_refines window late held window-Holds

confirm_refines_example :
    let out = confirm_list 70_010 69_998 held in
    (w' : ReceiveWindow) × (confirm window 70_010 ≡ some (w', out.sent))
    × Holds w' out.kept
    × (w'.expect_begin ≡ out.expect_begin)
    × (w'.last_ack ≡ (if is_negative (compare_tcp_seq 0 70_010) || 0 == 0 then 70_010 else 0))
confirm_refines_example = confirm_refines window 70_010 held window-Holds

late_is_new : is_delivered 69_998 late ≡ false
unfolding compare_tcp_seq
late_is_new = refl

insert_sorts_example :
    Makes window (insert window late) (sorted_insert late held)
    × IsSorted (sorted_insert late held)
    × All (InRegion 65_535) (sorted_insert late held)
insert_sorts_example =
    insert_sorts 65_535 (omega arith) late (omega arith) window held window-Holds (omega arith)
      (omega arith) late_is_new refl

-- a stream of letters
abbrev letter : ℕ → ℕ
letter n = b'a' + n % 26

abbrev overlapping : List Tcp
overlapping =
    part 70_000 (segment letter 70_000 5)
    ∷ part 70_000 (segment letter 70_000 3)
    ∷ part 70_003 (segment letter 70_003 6)
    ∷ []

abbrev overlapped : ReceiveWindow
overlapped = record {
  size = 3;
  start = 1;
  buffer =
      none
      ∷ some (part 70_000 (segment letter 70_000 5))
      ∷ some (part 70_000 (segment letter 70_000 3))
      ∷ some (part 70_003 (segment letter 70_003 6))
      ∷ [];
  last_ack = 0;
  expect_begin = 70_000;
  key_description = codes "up";
}
