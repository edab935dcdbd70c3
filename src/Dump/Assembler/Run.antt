-- ===== src/Dump/Assembler/Run.antt =====
-- httpdump/main.go: the loop of `RunHttpDump`, beside the goroutines that read the streams. The
-- capture gives packets by gopacket; those without a TCP layer, and nil, are passed over.
use httshark.Base.{
  ◌≡◌, ◌≢◌, ◌∙◌, some, List, Bytes, bytes_eq, lookup, insert, insert-DistinctKeys, insert-Each,
  lookup-Each, WalksMap,
}
use httshark.Go.Clock.{Time}
use httshark.Dump.Packet.{Tcp}
use httshark.Dump.Endpoint.{Endpoint}
use httshark.Dump.Stream.{NetworkStream, StreamConfig, Progress, done, panics, Meanwhile}
use httshark.Dump.Stream.Safe.{Ensures, Ensures-ne-panics, IsOpen}
use httshark.Dump.Connection.{TcpConnection}
use httshark.Dump.Connection.Safe.{IsLive}
use httshark.Dump.Assembler.{
  Connections, TcpAssembler, Assembled, new_tcp_assembler, assemble, flush_older_than,
}
use httshark.Dump.Assembler.Safe.{IsSafe, assemble-Ensures, flush_older_than-Ensures}

-- What `Read` and `Close` may change of a stream: the window, the channel's state and `closed` are
-- not theirs.
pub record IsReadOf (s s' : NetworkStream) : Type 0 where
  pub same_window : s'.window ≡ s.window
  pub same_ended : s'.ended ≡ s.ended
  pub same_closed : s'.closed ≡ s.closed

module _ (config : StreamConfig) (zero_time : Time) (arrange : Connections → Connections) where
  -- A round of the loop that has come to its end, or a step of a reader.
  pub data Step (a b : TcpAssembler) : Type 0 where
    skipped : b ≡ a → Step a b
    packet :
        (meanwhile : Meanwhile) (src dst : Endpoint) (tcp : Tcp) (timestamp : Time)
        (out : Assembled)
        → assemble config zero_time meanwhile src dst tcp timestamp a ≡ done out
        → b ≡ out.assembler
        → Step a b
    tick :
        (time : Time) (out : TcpAssembler × List TcpConnection)
        → flush_older_than arrange time a ≡ done out
        → b ≡ out.0
        → Step a b
    reads :
        (key : Bytes) (c : TcpConnection) (up down : NetworkStream)
        → lookup key a.connection_dict ≡ some c
        → IsReadOf c.up_stream up
        → IsReadOf c.down_stream down
        → b ≡ record a {
          connection_dict =
              insert key (record c { up_stream = up; down_stream = down }) a.connection_dict;
        }
        → Step a b

  pub data Reach (a : TcpAssembler) : TcpAssembler → Type 0 where
    here : Reach a a
    next : {b c : TcpAssembler} → Reach a b → Step b c → Reach a c

  Ensures-of_done :
      {A : Type 0} → (P : A → Type 0) (m : Progress A) (x : A) → Ensures P m → m ≡ done x → P x
  Ensures-of_done P m x h e = rw e at h

  IsOpen-of_read : (s s' : NetworkStream) → IsOpen s → IsReadOf s s' → IsOpen s'
  IsOpen-of_read s s' h r = record {
    open_channel = r.same_ended ∙ h.open_channel;
    packets = h.packets;
    held = rw (r.same_window) (h.held);
  }

  module _ (walks : WalksMap arrange) where
    Step-IsSafe : (a b : TcpAssembler) → Step a b → IsSafe a → IsSafe b
    Step-IsSafe a b (skipped e) s = rw e s
    Step-IsSafe a b (packet meanwhile src dst tcp timestamp out q e) s = rw e (
        Ensures-of_done (λ o. IsSafe o.assembler) _ out
          (assemble-Ensures config zero_time meanwhile src dst tcp timestamp a s) q)
    Step-IsSafe a b (tick time out q e) s = rw e (
        Ensures-of_done (λ o. IsSafe o.0) _ out (flush_older_than-Ensures arrange walks time a s) q)
    Step-IsSafe a b (reads key c up down q hu hd e) s =
        let live = lookup-Each IsLive key c a.connection_dict s.live q in
        let c' : TcpConnection = record c { up_stream = up; down_stream = down } in
        rw e (record {
          distinct = insert-DistinctKeys key c' a.connection_dict s.distinct;
          live =
              insert-Each IsLive key c' a.connection_dict
                (record {
                  same_key = live.same_key;
                  up = IsOpen-of_read c.up_stream up live.up hu;
                  down = IsOpen-of_read c.down_stream down live.down hd;
                })
                s.live;
        })

    Reach-IsSafe : {a b : TcpAssembler} → IsSafe a → Reach a b → IsSafe b
    Reach-IsSafe s here = s
    Reach-IsSafe s (next r st) = Step-IsSafe _ _ st (Reach-IsSafe s r)

    start-IsSafe : IsSafe new_tcp_assembler
    start-IsSafe = record { distinct = tt; live = tt }

    -- However packets, ticks and readers follow one another from the start on, neither a packet nor
    -- a tick makes the assembler panic: it sends nothing on a closed channel, closes no channel
    -- twice, and no window reads through an empty slot or out of its buffer.
    pub run-ne-panics :
        {a : TcpAssembler}
        → Reach new_tcp_assembler a
        → ((meanwhile : Meanwhile) (src dst : Endpoint) (tcp : Tcp) (timestamp : Time)
            → assemble config zero_time meanwhile src dst tcp timestamp a ≢ panics)
          × ((time : Time) → flush_older_than arrange time a ≢ panics)
    run-ne-panics {a} r =
        let s = Reach-IsSafe start-IsSafe r in
        (
          λ meanwhile src dst tcp timestamp.
              Ensures-ne-panics _ _
                (assemble-Ensures config zero_time meanwhile src dst tcp timestamp a s),
          λ time. Ensures-ne-panics _ _ (flush_older_than-Ensures arrange walks time a s),
        )
