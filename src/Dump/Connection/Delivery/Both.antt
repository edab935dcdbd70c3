-- ===== src/Dump/Connection/Delivery/Both.antt =====
-- Both directions of a connection, from its first request on.
use httshark.Base.{ℕ, suc, ◌≡◌, some, List, length, replicate}
use httshark.Dump.Packet.{Tcp}
use httshark.Dump.Window.Stream.{segment}
use httshark.Dump.Stream.{NetworkStream, StreamConfig, done, ready}
use httshark.Dump.Stream.ReadAll.{read_all}
use httshark.Dump.Stream.Reassembly.{Event, acked_to}
use httshark.Dump.Connection.{TcpConnection}
use httshark.Dump.Connection.Delivery.{Captured, run_packets, Flow, Stands}

module _ (config : StreamConfig) (up down : Flow) where
  -- what a run from `c` leads to
  pub record Arrives (c : TcpConnection) (a b : ℕ) (ups downs : List Event) (ps : List Captured)
      : Type 0 where
    pub after : TcpConnection
    pub runs : run_packets config ps c ≡ done after
    pub seen_up : List Tcp
    pub seen_down : List Tcp
    pub up_stands : Stands config up after.up_stream seen_up (acked_to a ups)
    pub down_stands : Stands config down after.down_stream seen_down (acked_to b downs)

module _ (config : StreamConfig) (up down : Flow) where
  -- what a reader gets of a stream with `n` bytes of room
  abbrev pub Reads : ℕ → Flow → ℕ → NetworkStream → Type 0
  Reads n f m s =
      read_all config n (suc m) (replicate (suc (length s.c)) ready) s
      ≡ some (segment f.byte_at f.lo m)
