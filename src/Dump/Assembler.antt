-- ===== src/Dump/Assembler.antt =====
-- httpdump/tcp_assembly.go: the table of connections. One goroutine runs `assemble` and
-- `flushOlderThan`, so that the lock never makes it wait. The flow of a packet gives its two
-- endpoints. The order in which Go walks through a map is an argument.
pub mod Safe
pub mod Flush
pub mod Run
mod Tests
use httshark.Base.{
  ℕ, Bool, true, false, ◌&&◌, ◌||◌, not, Option, none, some, List, [], ◌∷◌, Bytes, if◌then◌else◌,
  ltb_ℤ, bytes_eq, lookup, insert, erase,
}
use httshark.Go.Clock.{Time}
use httshark.Dump.Packet.{Tcp}
use httshark.Dump.Endpoint.{Endpoint, connection_key}
use httshark.Dump.Detect.{is_http_request_data}
use httshark.Dump.Stream.{StreamConfig, Progress, done, waits, panics, ◌>>=◌, Meanwhile}
use httshark.Dump.Connection.{
  TcpConnection, new_tcp_connection, on_receive, is_closed, finish_both, force_close,
}

abbrev pub Connections : Type 0
Connections = List (Bytes × TcpConnection)

-- `TCPAssembler` holds the map `connectionDict` and a lock.
pub record TcpAssembler : Type 0 where
  pub connection_dict : Connections

-- `newTCPAssembler`
abbrev pub new_tcp_assembler : TcpAssembler
new_tcp_assembler = record { connection_dict = [] }

-- `deleteConnection`
unfoldable pub delete_connection : Bytes → TcpAssembler → TcpAssembler
delete_connection key a = record a { connection_dict = erase key a.connection_dict }

-- What a packet leads to: the assembler, the arguments of a call of `newHttpTrafficHandler`, and
-- the connections that leave the table with their channels closed.
pub record Assembled : Type 0 where
  pub assembler : TcpAssembler
  pub started : List (Bytes × Endpoint × Endpoint)
  pub finished : List TcpConnection

-- `tcp.SYN && !tcp.ACK || isHTTPRequestData(tcp.Payload)`
abbrev pub create_new_conn : Tcp → Bool
create_new_conn tcp = (tcp.syn && not tcp.ack) || is_http_request_data tcp.payload

module _ (config : StreamConfig) (zero_time : Time) where
  -- `retrieveConnection`, with the call of `newHttpTrafficHandler`
  unfoldable pub retrieve_connection :
      Endpoint
      → Endpoint
      → Bytes
      → Bool
      → TcpAssembler
      → Option (TcpConnection × TcpAssembler × List (Bytes × Endpoint × Endpoint))
  retrieve_connection src dst key init a = elim (lookup key a.connection_dict) [
    | some connection ↦ some (connection, a, [])
    | none ↦
        let connection = new_tcp_connection zero_time key in
        if init
        then some (
          connection,
          record a { connection_dict = insert key connection a.connection_dict },
          (key, src, dst) ∷ [],
        )
        else none
  ]

  -- the end of `assemble`: the connection is the table's own object
  unfoldable pub after_receive :
      Bytes → TcpAssembler → List (Bytes × Endpoint × Endpoint) → TcpConnection → Progress Assembled
  unfolding delete_connection
  after_receive key a started connection =
      let open_still = record a { connection_dict = insert key connection a.connection_dict } in
      let leave = λ (ended : TcpConnection). done (record {
        assembler = delete_connection key a;
        started = started;
        finished = ended ∷ [];
      }) in
      if is_closed connection
      then (finish_both connection >>= leave)
      else done (record { assembler = open_still; started = started; finished = [] })

  unfoldable pub receive_on :
      Meanwhile
      → Endpoint
      → Tcp
      → Time
      → Bytes
      → TcpAssembler
      → Option (TcpConnection × TcpAssembler × List (Bytes × Endpoint × Endpoint))
      → Progress Assembled
  receive_on meanwhile src tcp timestamp key a none =
      done (record { assembler = a; started = []; finished = [] })
  receive_on meanwhile src tcp timestamp key a (some (connection, a', started)) =
      on_receive config meanwhile src tcp timestamp connection >>= after_receive key a' started

  -- `assemble`
  unfoldable pub assemble :
      Meanwhile → Endpoint → Endpoint → Tcp → Time → TcpAssembler → Progress Assembled
  unfolding after_receive retrieve_connection receive_on
  assemble meanwhile src dst tcp timestamp a =
      let key = connection_key src dst in
      receive_on meanwhile src tcp timestamp key a
        (retrieve_connection src dst key (create_new_conn tcp) a)

-- the connections whose last packet came before `time`, in the order of the walk
unfoldable pub older_than : Time → Connections → List TcpConnection
older_than time [] = []
older_than time ((key, connection) ∷ dict) =
    let rest = older_than time dict in
    if ltb_ℤ connection.last_timestamp time then connection ∷ rest else rest

unfoldable pub delete_all : List TcpConnection → Connections → Connections
delete_all [] dict = dict
delete_all (connection ∷ connections) dict = delete_all connections (erase connection.key dict)

unfoldable pub force_close_all : List TcpConnection → Progress (List TcpConnection)
force_close_all [] = done []
force_close_all (connection ∷ connections) =
    force_close connection >>= λ ended. force_close_all connections >>= λ rest. done (ended ∷ rest)

-- `flushOlderThan`: the assembler, and the connections that were closed
unfoldable pub flush_older_than :
    (Connections → Connections) → Time → TcpAssembler → Progress (TcpAssembler × List TcpConnection)
unfolding older_than delete_all force_close_all
flush_older_than arrange time a =
    let connections = older_than time (arrange a.connection_dict) in
    force_close_all connections >>= λ ended.
    done (record a { connection_dict = delete_all connections a.connection_dict }, ended)
