-- ===== src/Dump/Stream/Reassembly.antt =====
-- A byte stream that was cut into packets, captured out of order and more than once, comes out of
-- `Read` as it was: the window, the channel and the reader together.
pub mod State
pub mod Delivery
mod Tests
use mathlib.Core.Path.{subst}
use native.Mathlib.Nat.{le_refl}
use httshark.Base.{
  tests, ℕ, zero, suc, ◌+◌, ◌-◌, ◌≤◌, ◌<◌, ◌^◌, max, ◌≡◌, refl, sym, ap, ap₂, ◌∙◌, Bool, true,
  false, some, List, [], ◌∷◌, ◌++◌, arith, length, All, Has, All-has, All-of_Has, Bool-cases, ◌⊎◌,
  inl, inr, ◌==◌, ltb, if◌then◌else◌, Bytes,
}
use httshark.Dump.Packet.{Tcp}
use httshark.Dump.Seq.{compare_tcp_seq, is_negative}
use httshark.Dump.Seq.Order.{IsNear, compare_tcp_seq_near}
use httshark.Dump.Window.{ReceiveWindow, insert, is_delivered, seq_end}
use httshark.Dump.Window.Held.{Holds}
use httshark.Dump.Window.Insert.{insert_refines, Makes}
use httshark.Dump.Window.Confirm.{confirm_refines, confirm_list}
use httshark.Dump.Window.Sorted.{IsRegion, InRegion, IsSorted, sorted_insert, insert_sorts}
use httshark.Dump.Window.Stream.{segment, segment_add, payloads, payloads-append, IsPart}
use httshark.Dump.Window.Placed.{IsCut, IsCut-parts, Begins, Places, insert-Places}
use httshark.Dump.Window.Covered.{
  Covering, Covers, Advances, confirm_list-Advances, confirm_list_from_start,
}
use httshark.Dump.Stream.{
  NetworkStream, StreamConfig, Progress, done, ◌>>=◌, Meanwhile, new_network_stream, append_packet,
  wait_for_channel_space, confirm_packet, finish, Select, ready,
}
use httshark.Dump.Stream.Active.{
  IsActive, new_network_stream-IsActive, append_packet_of, confirm_packet_of,
}
use httshark.Dump.Stream.Read.{unread}
use httshark.Dump.Stream.ReadAll.{read_all, read_all_lem}

-- what the assembler calls on a stream: `appendPacket`, and `confirmPacket` with what goes on
-- meanwhile
pub data Event : Type 0 where
  arrives : Tcp → Event
  acks : ℕ → Meanwhile → Event

unfoldable pub on_event : StreamConfig → Event → NetworkStream → Progress NetworkStream
on_event config (arrives x) s = append_packet x s
on_event config (acks ack meanwhile) s = confirm_packet config meanwhile ack s

unfoldable pub run : StreamConfig → List Event → NetworkStream → Progress NetworkStream
unfolding on_event
run config [] s = done s
run config (ev ∷ evs) s = on_event config ev s >>= run config evs

-- the furthest acknowledgement, from `a` on
abbrev pub acked_to : ℕ → List Event → ℕ
acked_to a [] = a
acked_to a (arrives x ∷ evs) = acked_to a evs
acked_to a (acks ack meanwhile ∷ evs) = acked_to (max a ack) evs

module _ (config : StreamConfig) (byte_at size_at : ℕ → ℕ) (lo : ℕ) (region : IsRegion lo)
    (positive : 0 < lo) where
  -- What a run is given. Each packet is a part of the stream, and those with data that begin at the
  -- same byte have the same size. When an acknowledgement comes, each byte before it has been
  -- captured; and of a channel with all packets that have been captured the wait would find that
  -- it has space, and they would not be more than it has room for and the reader takes by then.
  abbrev pub Admissible : List Tcp → List Event → Type 0
  Admissible seen [] = Unit
  Admissible seen (arrives x ∷ evs) =
      IsPart byte_at lo region positive x
      × ((length x.payload == 0) ≡ false → length x.payload ≡ size_at x.seq)
      × Admissible (x ∷ seen) evs
  Admissible seen (acks ack meanwhile ∷ evs) =
      (lo ≤ ack)
      × (ack < lo + 2 ^ 31)
      × Covers lo ack seen
      × (wait_for_channel_space config (length seen) meanwhile.rounds ≡ done true)
      × (length seen ≤ config.channel_size + meanwhile.taken)
      × Admissible seen evs
