-- ===== src/Dump/Connection/Safe.antt =====
-- What keeps the operations on a connection from panicking.
use httshark.Base.{
  arith, ◌≡◌, refl, Bool, true, false, ◌||◌, Bytes, if◌then◌else◌, Bool-cases, inl, inr,
}
use httshark.Go.Clock.{Time}
use httshark.Dump.Packet.{Tcp}
use httshark.Dump.Endpoint.{Endpoint}
use httshark.Dump.Detect.{is_http_request_data}
use httshark.Dump.Stream.{
  NetworkStream, StreamConfig, Progress, done, Meanwhile, append_packet, finish,
}
use httshark.Dump.Stream.Safe.{
  Ensures, Ensures->>=, IsOpen, new_network_stream-IsOpen, append_packet-Ensures,
  confirm_packet-Ensures,
}
use httshark.Dump.Connection.{
  TcpConnection, new_tcp_connection, send_stream, confirm_stream, with_streams, confirm_if,
  deliver_to, on_receive, finish_both, force_close, is_up,
}

-- A connection of this key, both of whose streams are open.
pub record IsLive (key : Bytes) (connection : TcpConnection) : Type 0 where
  pub same_key : connection.key ≡ key
  pub up : IsOpen connection.up_stream
  pub down : IsOpen connection.down_stream

pub new_tcp_connection-IsLive :
    (zero_time : Time) (key : Bytes) → IsLive key (new_tcp_connection zero_time key)
unfolding new_tcp_connection
new_tcp_connection-IsLive zero_time key = record {
  same_key = refl;
  up = new_network_stream-IsOpen _;
  down = new_network_stream-IsOpen _;
}

if-IsOpen : (b : Bool) (x y : NetworkStream) → IsOpen x → IsOpen y → IsOpen (if b then x else y)
if-IsOpen true x y hx hy = hx
if-IsOpen false x y hx hy = hy

with_streams-IsLive :
    (key : Bytes) (connection : TcpConnection) (src : Endpoint) (x y : NetworkStream)
    → connection.key ≡ key
    → IsOpen x
    → IsOpen y
    → IsLive key (with_streams connection src x y)
with_streams-IsLive key connection src x y k hx hy = elim (Bool-cases (is_up connection src)) [
  | inl t ↦ rw t (record { same_key = k; up = hx; down = hy })
  | inr f ↦ rw f (record { same_key = k; up = hy; down = hx })
]

if-Ensures :
    {A : Type 0} (P : A → Type 0) (b : Bool) (x y : Progress A)
    → Ensures P x
    → Ensures P y
    → Ensures P (if b then x else y)
if-Ensures P true x y hx hy = hx
if-Ensures P false x y hx hy = hy

module _ (config : StreamConfig) (meanwhile : Meanwhile) (src : Endpoint) (tcp : Tcp) where
  confirm_if-Ensures :
      (s : NetworkStream) → IsOpen s → Ensures IsOpen (confirm_if config meanwhile tcp s)
  confirm_if-Ensures s h = elim (Bool-cases tcp.ack) [
    | inl t ↦ rw t (confirm_packet-Ensures config meanwhile tcp.ack_number s h)
    | inr f ↦ rw f h
  ]

  deliver_to-Ensures :
      (key : Bytes) (connection : TcpConnection)
      → IsLive key connection
      → Ensures (IsLive key) (deliver_to config meanwhile src tcp connection)
  unfolding deliver_to
  deliver_to-Ensures key connection h =
      Ensures->>= IsOpen (IsLive key) (append_packet tcp (send_stream connection src)) _
        (append_packet-Ensures tcp (send_stream connection src)
          (if-IsOpen (is_up connection src) _ _ h.up h.down))
        (λ sent hs.
          Ensures->>= IsOpen (IsLive key)
            (confirm_if config meanwhile tcp (confirm_stream connection src)) _
            (confirm_if-Ensures (confirm_stream connection src)
              (if-IsOpen (is_up connection src) _ _ h.down h.up))
            (λ confirmed hc.
              with_streams-IsLive key connection src
                (record sent { closed = sent.closed || tcp.fin || tcp.rst }) confirmed h.same_key
                (record { open_channel = hs.open_channel; packets = hs.packets; held = hs.held })
                hc))

  -- A packet on a live connection does not panic, and leaves a live connection of the same key.
  pub on_receive-Ensures :
      (timestamp : Time) (key : Bytes) (connection : TcpConnection)
      → IsLive key connection
      → Ensures (IsLive key) (on_receive config meanwhile src tcp timestamp connection)
  unfolding on_receive
  on_receive-Ensures timestamp key connection h =
      if-Ensures (IsLive key) connection.is_http _ _
        (deliver_to-Ensures key (record connection { last_timestamp = timestamp })
          (record { same_key = h.same_key; up = h.up; down = h.down }))
        (if-Ensures (IsLive key) (is_http_request_data tcp.payload) _ _
          (deliver_to-Ensures key
            (record connection { last_timestamp = timestamp; client_id = src; is_http = true })
            (record { same_key = h.same_key; up = h.up; down = h.down }))
          (record { same_key = h.same_key; up = h.up; down = h.down }))

-- both channels closed
abbrev pub with_ended : TcpConnection → TcpConnection
with_ended connection =
    let up = connection.up_stream in
    let down = connection.down_stream in
    record connection {
      up_stream = record up { ended = true };
      down_stream = record down { ended = true };
    }

pub finish_both_lem :
    (key : Bytes) (connection : TcpConnection)
    → IsLive key connection
    → finish_both connection ≡ done (with_ended connection)
unfolding finish_both finish
finish_both_lem key connection h =
    let up = h.up.open_channel in let down = h.down.open_channel in ground arith

abbrev pub with_closed : TcpConnection → TcpConnection
with_closed connection =
    let up = connection.up_stream in
    let down = connection.down_stream in
    record connection {
      up_stream = record up { closed = true };
      down_stream = record down { closed = true };
    }

pub force_close_lem :
    (key : Bytes) (connection : TcpConnection)
    → IsLive key connection
    → force_close connection ≡ done (with_ended (with_closed connection))
unfolding force_close finish_both finish
force_close_lem key connection h =
    let up = h.up.open_channel in let down = h.down.open_channel in ground arith
