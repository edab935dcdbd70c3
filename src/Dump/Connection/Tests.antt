-- ===== src/Dump/Connection/Tests.antt =====
-- A request on a new connection.
use httshark.Base.{◌≡◌, refl, true, [], ◌∷◌, codes, pos, inl, arith}
use httshark.Dump.Packet.{Tcp}
use httshark.Dump.Endpoint.{Endpoint}
use httshark.Dump.Stream.{done, Meanwhile, new_network_stream, wait_for_channel_space}
use httshark.Dump.Stream.Active.{new_network_stream-IsActive}
use httshark.Dump.Stream.Tests.{packet, small}
use httshark.Dump.Window.Confirm.{confirm_list}
use httshark.Dump.Connection.{TcpConnection, new_tcp_connection, deliver_to}
use httshark.Dump.Connection.Direction.{IsReceived, deliver_to_lem}

abbrev pub client : Endpoint
client = record { ip = codes "10.0.0.7"; port = 51000 }

abbrev http_connection : TcpConnection
http_connection = record (new_tcp_connection (pos 0) (codes "a-b")) {
  client_id = client;
  is_http = true;
}

abbrev pub get : Tcp
get = packet (codes "GET / HTTP/1.1")

abbrev pub one_round : Meanwhile
one_round = record { rounds = record { taken = 0; passed = pos 0 } ∷ []; taken = 0 }

deliver_to_lem_example :
    (c' : TcpConnection) × (deliver_to small one_round client get http_connection ≡ done c')
    × IsReceived get [] [] http_connection.up_stream http_connection.down_stream c'.up_stream
        c'.down_stream
    × (c'.client_id ≡ client)
    × (c'.is_http ≡ true)
deliver_to_lem_example =
    deliver_to_lem small one_round client get http_connection (inl refl) [] []
      (unfold new_tcp_connection in new_network_stream-IsActive (codes "up a-b"))
      (unfold new_tcp_connection in new_network_stream-IsActive (codes "down a-b"))
      (unfold wait_for_channel_space new_tcp_connection new_network_stream confirm_list in
        (refl, omega arith))
