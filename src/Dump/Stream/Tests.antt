-- ===== src/Dump/Stream/Tests.antt =====
-- A stream with two packets in its channel.
use httshark.Base.{
  ◌≡◌, refl, Bool, true, false, some, List, [], ◌∷◌, arith, Bytes, codes, pos, replicate,
}
use httshark.Dump.Packet.{Tcp}
use httshark.Dump.Stream.{
  NetworkStream, StreamConfig, done, Round, new_network_stream, wait_for_channel_space, ready,
}
use httshark.Dump.Stream.Wait.{wait_for_channel_space_ends}
use httshark.Dump.Stream.Read.{unread}
use httshark.Dump.Stream.ReadAll.{read_all, read_all_lem}

abbrev pub packet : Bytes → Tcp
packet payload = record {
  src_port = 51000;
  dst_port = 80;
  seq = 70_000;
  ack_number = 1;
  syn = false;
  ack = true;
  fin = false;
  rst = false;
  payload = payload;
}

abbrev pub small : StreamConfig
small = record { channel_size = 2; full_channel_timeout = pos 50; response_timeout = pos 100 }

abbrev two_packets : NetworkStream
two_packets = record (new_network_stream (codes "up")) {
  c = packet (codes "GET ") ∷ packet [] ∷ packet (codes "/") ∷ [];
  ended = true;
}

-- the channel is full three times, 20 apart
abbrev full_rounds : List Round
full_rounds =
    record { taken = 0; passed = pos 3 }
    ∷ record { taken = 0; passed = pos 25 }
    ∷ record { taken = 0; passed = pos 48 }
    ∷ record { taken = 0; passed = pos 70 }
    ∷ []

wait_for_channel_space_ends_example :
    (has_space : Bool) × (wait_for_channel_space small 2 full_rounds ≡ done has_space)
wait_for_channel_space_ends_example =
    wait_for_channel_space_ends small 2 20 50 3 full_rounds refl (omega arith) refl (omega arith)

read_all_lem_example :
    read_all small 3 9 (replicate 4 ready) two_packets ≡ some (unread two_packets)
read_all_lem_example =
    read_all_lem 3 (omega arith) small 9 4 two_packets (unfold new_network_stream in omega arith)
      (omega arith) refl

all_read : unread two_packets ≡ codes "GET /"
unfolding new_network_stream
all_read = refl
