-- ===== src/Dump/Connection/Delivery/Steps.antt =====
-- What `onReceive` makes of a packet, and what comes before the first request.
use httshark.Base.{
  All, if_false, if_true, ◌≡◌, refl, ap, ◌∙◌, true, false, ◌||◌, List, [], ◌∷◌, ◌++◌, arith,
}
use httshark.Go.Clock.{Time}
use httshark.Dump.Endpoint.{equals}
use httshark.Dump.Detect.{is_http_request_data}
use httshark.Dump.Stream.{NetworkStream, StreamConfig, done, ◌>>=◌, append_packet}
use httshark.Dump.Connection.{TcpConnection, on_receive, deliver_to, confirm_if}
use httshark.Dump.Connection.Delivery.{Captured, run_packets}

-- A packet of the client, on a connection that carries HTTP.
pub receive_up :
    (config : StreamConfig) (p : Captured) (c : TcpConnection) (u d : NetworkStream)
    → c.is_http ≡ true
    → equals c.client_id p.src ≡ true
    → append_packet p.tcp c.up_stream ≡ done u
    → confirm_if config p.meanwhile p.tcp c.down_stream ≡ done d
    → on_receive config p.meanwhile p.src p.tcp p.timestamp c
      ≡ done (record c {
        last_timestamp = p.timestamp;
        up_stream = record u { closed = u.closed || p.tcp.fin || p.tcp.rst };
        down_stream = d;
      })
unfolding on_receive deliver_to
receive_up config p c u d http from q r = ground (arith, http, from, q, r)

-- A packet of the other side.
pub receive_down :
    (config : StreamConfig) (p : Captured) (c : TcpConnection) (u d : NetworkStream)
    → c.is_http ≡ true
    → equals c.client_id p.src ≡ false
    → append_packet p.tcp c.down_stream ≡ done d
    → confirm_if config p.meanwhile p.tcp c.up_stream ≡ done u
    → on_receive config p.meanwhile p.src p.tcp p.timestamp c
      ≡ done (record c {
        last_timestamp = p.timestamp;
        up_stream = u;
        down_stream = record d { closed = d.closed || p.tcp.fin || p.tcp.rst };
      })
unfolding on_receive deliver_to
receive_down config p c u d http from q r = ground (arith, http, from, q, r)

pub run_packets-cons :
    (config : StreamConfig) (p : Captured) (ps : List Captured) (c c₁ c' : TcpConnection)
    → on_receive config p.meanwhile p.src p.tcp p.timestamp c ≡ done c₁
    → run_packets config ps c₁ ≡ done c'
    → run_packets config (p ∷ ps) c ≡ done c'
unfolding run_packets
run_packets-cons config p ps c c₁ c' q r = rw q r

-- Before the first request the packets leave the streams alone.
abbrev pub IsBefore : Captured → Type 0
IsBefore p = is_http_request_data p.tcp.payload ≡ false

on_receive_before :
    (config : StreamConfig) (p : Captured) (c : TcpConnection)
    → c.is_http ≡ false
    → IsBefore p
    → on_receive config p.meanwhile p.src p.tcp p.timestamp c
      ≡ done (record c { last_timestamp = p.timestamp })
unfolding on_receive
on_receive_before config p c quiet before =
    if_false c.is_http _ _ quiet ∙ if_false (is_http_request_data p.tcp.payload) _ _ before

pub run_before :
    (config : StreamConfig) (pre ps : List Captured) (c : TcpConnection)
    → c.is_http ≡ false
    → All IsBefore pre
    → (t : Time) × (run_packets config (pre ++ ps) c
        ≡ run_packets config ps (record c { last_timestamp = t }))
unfolding run_packets
run_before config [] ps c quiet h = (c.last_timestamp, refl)
run_before config (p ∷ pre) ps c quiet (hp, h) =
    let (t, q) = run_before config pre ps (record c { last_timestamp = p.timestamp }) quiet h in
    (t, ap (λ m. m >>= run_packets config (pre ++ ps)) (on_receive_before config p c quiet hp) ∙ q)

-- The first request makes its sender the client.
pub first_request :
    (config : StreamConfig) (p : Captured) (ps : List Captured) (c : TcpConnection)
    → c.is_http ≡ false
    → is_http_request_data p.tcp.payload ≡ true
    → run_packets config (p ∷ ps) c
      ≡ run_packets config (p ∷ ps) (record c { client_id = p.src; is_http = true })
unfolding run_packets on_receive
first_request config p ps c quiet asks =
    ap (λ m. m >>= run_packets config ps)
      (if_false c.is_http _ _ quiet ∙ if_true (is_http_request_data p.tcp.payload) _ _ asks)
