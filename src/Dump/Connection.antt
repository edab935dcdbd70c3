-- ===== src/Dump/Connection.antt =====
-- httpdump/tcp_connection.go: the two streams of a connection.
pub mod Safe
pub mod Direction
pub mod Delivery
pub mod Tests
use httshark.Base.{
  ℕ, Bool, true, false, ◌&&◌, ◌||◌, not, List, [], ◌∷◌, ◌++◌, Bytes, codes, if◌then◌else◌, pos,
}
use httshark.Go.Clock.{Time}
use httshark.Dump.Packet.{Tcp}
use httshark.Dump.Endpoint.{Endpoint, equals}
use httshark.Dump.Detect.{is_http_request_data}
use httshark.Dump.Stream.{
  NetworkStream, StreamConfig, Progress, done, waits, panics, ◌>>=◌, Meanwhile, new_network_stream,
  append_packet, confirm_packet, finish,
}

-- Each stream is the opposite of the other one. `last_timestamp` is the zero instant at first.
pub record TcpConnection : Type 0 where
  pub up_stream : NetworkStream
  pub down_stream : NetworkStream
  pub client_id : Endpoint
  pub last_timestamp : Time
  pub is_http : Bool
  pub key : Bytes

-- `newTCPConnection`; the zero `time.Time`, which is in the year 1, is an argument
unfoldable pub new_tcp_connection : Time → Bytes → TcpConnection
new_tcp_connection zero_time key = record {
  up_stream = new_network_stream (codes "up " ++ key);
  down_stream = new_network_stream (codes "down " ++ key);
  client_id = record { ip = []; port = 0 };
  last_timestamp = zero_time;
  is_http = false;
  key = key;
}

-- the stream that gets a packet of the sender
abbrev pub is_up : TcpConnection → Endpoint → Bool
is_up connection src = equals connection.client_id src

abbrev pub send_stream : TcpConnection → Endpoint → NetworkStream
send_stream connection src =
    if is_up connection src then connection.up_stream else connection.down_stream

abbrev pub confirm_stream : TcpConnection → Endpoint → NetworkStream
confirm_stream connection src =
    if is_up connection src then connection.down_stream else connection.up_stream

abbrev pub with_streams : TcpConnection → Endpoint → NetworkStream → NetworkStream → TcpConnection
with_streams connection src sent confirmed =
    if is_up connection src
    then record connection { up_stream = sent; down_stream = confirmed }
    else record connection { up_stream = confirmed; down_stream = sent }

abbrev pub confirm_if : StreamConfig → Meanwhile → Tcp → NetworkStream → Progress NetworkStream
confirm_if config meanwhile tcp s =
    if tcp.ack then confirm_packet config meanwhile tcp.ack_number s else done s

-- the part of `onReceive` from `var sendStream` on
unfoldable pub deliver_to :
    StreamConfig → Meanwhile → Endpoint → Tcp → TcpConnection → Progress TcpConnection
deliver_to config meanwhile src tcp connection =
    append_packet tcp (send_stream connection src) >>= λ sent.
    confirm_if config meanwhile tcp (confirm_stream connection src) >>= λ confirmed. done (
      with_streams connection src (record sent { closed = sent.closed || tcp.fin || tcp.rst })
        confirmed)

-- `onReceive`, with what goes on while it runs
unfoldable pub on_receive :
    StreamConfig → Meanwhile → Endpoint → Tcp → Time → TcpConnection → Progress TcpConnection
unfolding deliver_to
on_receive config meanwhile src tcp timestamp connection =
    let seen = record connection { last_timestamp = timestamp } in
    let first = record seen { client_id = src; is_http = true } in
    if connection.is_http
    then deliver_to config meanwhile src tcp seen
    else if is_http_request_data tcp.payload
    then deliver_to config meanwhile src tcp first
    else done seen

-- `closed`
abbrev pub is_closed : TcpConnection → Bool
is_closed connection = connection.up_stream.closed && connection.down_stream.closed

-- `finish`
unfoldable pub finish_both : TcpConnection → Progress TcpConnection
finish_both connection = finish connection.up_stream >>= λ up.
    finish connection.down_stream >>= λ down.
    done (record connection { up_stream = up; down_stream = down })

-- `forceClose`
unfoldable pub force_close : TcpConnection → Progress TcpConnection
unfolding finish_both
force_close connection =
    let up = connection.up_stream in
    let down = connection.down_stream in
    finish_both (record connection {
      up_stream = record up { closed = true };
      down_stream = record down { closed = true };
    })
