-- ===== src/Dump/Assembler/Tests.antt =====
-- The assembler from its start, and with one connection.
use httshark.Base.{
  ◌≡◌, ◌≢◌, refl, [], ◌∷◌, map, codes, pos, Bytes, none, if◌then◌else◌, bytes_eq, lookup,
}
use httshark.Go.Clock.{Time}
use httshark.Dump.Packet.{Tcp}
use httshark.Dump.Endpoint.{Endpoint}
use httshark.Dump.Stream.{done, panics, Meanwhile}
use httshark.Dump.Stream.Tests.{small}
use httshark.Dump.Connection.{new_tcp_connection}
use httshark.Dump.Connection.Safe.{with_ended, with_closed, new_tcp_connection-IsLive}
use httshark.Dump.Assembler.{
  Connections, TcpAssembler, new_tcp_assembler, assemble, older_than, flush_older_than,
}
use httshark.Dump.Assembler.Safe.{IsSafe}
use httshark.Dump.Assembler.Run.{Reach, here, next, tick, run-ne-panics}
use httshark.Dump.Assembler.Flush.{is_older, flush_older_than_lem}

-- a walk in the order of the list
abbrev in_table_order : Connections → Connections
in_table_order m = m

one_tick : Reach small (pos 0) in_table_order new_tcp_assembler new_tcp_assembler
one_tick = next here (tick (pos 5) (new_tcp_assembler, []) (unfold flush_older_than in refl) refl)

run-ne-panics_example :
    ((meanwhile : Meanwhile) (src dst : Endpoint) (tcp : Tcp) (timestamp : Time)
      → assemble small (pos 0) meanwhile src dst tcp timestamp new_tcp_assembler ≢ panics)
    × ((time : Time) → flush_older_than in_table_order time new_tcp_assembler ≢ panics)
run-ne-panics_example = run-ne-panics small (pos 0) in_table_order (λ m d. (d, λ k. refl)) one_tick

abbrev one_connection : TcpAssembler
one_connection = record {
  connection_dict = (codes "a-b", new_tcp_connection (pos 0) (codes "a-b")) ∷ [];
}

one_connection-IsSafe : IsSafe one_connection
unfolding lookup
one_connection-IsSafe = record {
  distinct = (refl, tt);
  live = (new_tcp_connection-IsLive (pos 0) (codes "a-b"), tt);
}

flush_older_than_lem_example :
    (a' : TcpAssembler) × (flush_older_than in_table_order (pos 9) one_connection
      ≡ done (
        a',
        map
            (λ c. with_ended (with_closed c))
            (older_than (pos 9) (in_table_order one_connection.connection_dict)),
      ))
    × ((k : Bytes)
        → lookup k a'.connection_dict ≡ (
            if is_older (pos 9) (lookup k one_connection.connection_dict)
            then none
            else lookup k one_connection.connection_dict))
flush_older_than_lem_example =
    flush_older_than_lem in_table_order (λ m d. (d, λ k. refl)) (pos 9) one_connection
      one_connection-IsSafe
