-- ===== src/Dump/Stream/Active.antt =====
-- The operations of the assembler on a stream that is in use, while the channel has space.
use httshark.Base.{
  ℕ, ◌+◌, ◌≤◌, length, ◌≡◌, refl, ◌∙◌, true, false, ◌||◌, some, List, [], ◌++◌, arith, Bytes,
  if_false,
}
use httshark.Dump.Packet.{Tcp}
use httshark.Dump.Window.{ReceiveWindow, insert, confirm}
use httshark.Dump.Window.Held.{Holds, new_receive_window-Holds}
use httshark.Dump.Window.Insert.{insert_refines, insert_list}
use httshark.Dump.Window.Confirm.{confirm_refines, confirm_list}
use httshark.Dump.Stream.{
  NetworkStream, StreamConfig, done, Meanwhile, new_network_stream, wait_for_channel_space,
  append_packet, confirm_window, confirm_packet,
}
use httshark.Dump.Stream.Safe.{send_lem}

-- The stream is in use, its channel is open, and its window holds the list.
pub record IsActive (s : NetworkStream) (l : List Tcp) : Type 0 where
  pub in_use : (s.ignore || s.eof_simulated) ≡ false
  pub open_channel : s.ended ≡ false
  pub held : Holds s.window l

pub new_network_stream-IsActive : (key : Bytes) → IsActive (new_network_stream key) []
unfolding new_network_stream
new_network_stream-IsActive key = record {
  in_use = refl;
  open_channel = refl;
  held = new_receive_window-Holds 64 key (omega arith);
}

-- The window takes the packet.
pub append_packet_of :
    (tcp : Tcp) (s : NetworkStream) (w : ReceiveWindow)
    → (s.ignore || s.eof_simulated) ≡ false
    → insert s.window tcp ≡ some w
    → append_packet tcp s ≡ done (record s { window = w })
unfolding append_packet
append_packet_of tcp s w h q = if_false _ _ _ h ∙ rw q refl

-- The wait finds the channel with space, and it has room for `n` packets more, with those that the
-- reader takes during the call.
abbrev pub HasRoom : StreamConfig → Meanwhile → NetworkStream → ℕ → Type 0
HasRoom config meanwhile s n =
    (wait_for_channel_space config (length s.c) meanwhile.rounds ≡ done true)
    × (length s.c + n ≤ config.channel_size + meanwhile.taken)

-- What the window confirms goes into the channel.
pub confirm_packet_of :
    (config : StreamConfig) (meanwhile : Meanwhile) (ack : ℕ) (s : NetworkStream)
    (w : ReceiveWindow) (sent : List Tcp)
    → (s.ignore || s.eof_simulated) ≡ false
    → s.ended ≡ false
    → HasRoom config meanwhile s (length sent)
    → confirm s.window ack ≡ some (w, sent)
    → confirm_packet config meanwhile ack s ≡ done (record s { window = w; c = s.c ++ sent })
unfolding confirm_packet confirm_window
confirm_packet_of config meanwhile ack s w sent h e (space, room) q =
    if_false _ _ _ h
    ∙ rw (space, q) (send_lem config meanwhile.taken sent (record s { window = w }) e room)

pub append_packet_lem :
    (tcp : Tcp) (s : NetworkStream) (l : List Tcp)
    → IsActive s l
    → (w : ReceiveWindow) × (append_packet tcp s ≡ done (record s { window = w }))
      × Holds w (insert_list s.window.expect_begin tcp l)
append_packet_lem tcp s l h =
    let (w, q, held, _, _) = insert_refines s.window tcp l h.held in
    (w, append_packet_of tcp s w h.in_use q, held)

pub confirm_packet_lem :
    (config : StreamConfig) (meanwhile : Meanwhile) (ack : ℕ) (s : NetworkStream) (l : List Tcp)
    → IsActive s l
    → HasRoom config meanwhile s (length (confirm_list ack s.window.expect_begin l).sent)
    → let out = confirm_list ack s.window.expect_begin l in
      (w : ReceiveWindow) × (confirm_packet config meanwhile ack s
        ≡ done (record s { window = w; c = s.c ++ out.sent }))
      × Holds w out.kept
confirm_packet_lem config meanwhile ack s l h space =
    let (w, q, held, _, _) = confirm_refines s.window ack l h.held in
    let sent = (confirm_list ack s.window.expect_begin l).sent in
    (w, confirm_packet_of config meanwhile ack s w sent h.in_use h.open_channel space q, held)
