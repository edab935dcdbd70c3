-- ===== src/Dump/Assembler/Safe.antt =====
-- The assembler never panics: no packet is sent on a closed channel, no channel is closed twice,
-- and no window reads through an empty slot.
use httshark.Base.{
  ◌≡◌, refl, sym, ◌∙◌, Bool, Option, none, some, List, [], ◌∷◌, map, Bytes, ltb_ℤ, bytes_eq, lookup,
  erase, DistinctKeys, Each, insert-DistinctKeys, erase-DistinctKeys, insert-Each, erase-Each,
  lookup-Each, Each-of_lookup, WalksMap, Bool-cases, Option-cases, inl, inr, All,
}
use httshark.Go.Clock.{Time}
use httshark.Dump.Packet.{Tcp}
use httshark.Dump.Endpoint.{Endpoint, connection_key}
use httshark.Dump.Stream.{StreamConfig, done, Meanwhile}
use httshark.Dump.Stream.Safe.{Ensures, Ensures->>=}
use httshark.Dump.Connection.{TcpConnection, on_receive, is_closed}
use httshark.Dump.Connection.Safe.{
  IsLive, new_tcp_connection-IsLive, on_receive-Ensures, finish_both_lem, force_close_lem,
  with_ended, with_closed,
}
use httshark.Dump.Assembler.{
  receive_on, Connections, TcpAssembler, create_new_conn, retrieve_connection, after_receive,
  assemble, older_than, delete_all, force_close_all, flush_older_than, delete_connection,
}

-- Every connection in the table stands under its key and is live.
pub record IsSafe (a : TcpAssembler) : Type 0 where
  pub distinct : DistinctKeys a.connection_dict
  pub live : Each IsLive a.connection_dict

module _ (config : StreamConfig) (zero_time : Time) where
  after_receive-Ensures :
      (key : Bytes) (a : TcpAssembler) (started : List (Bytes × Endpoint × Endpoint))
      (connection : TcpConnection)
      → IsSafe a
      → IsLive key connection
      → Ensures
          (λ out. IsSafe out.assembler)
          (after_receive config zero_time key a started connection)
  unfolding after_receive delete_connection
  after_receive-Ensures key a started connection s h = elim (Bool-cases (is_closed connection)) [
    | inl t ↦
        rw (t, finish_both_lem key connection h)
          (record {
            distinct = erase-DistinctKeys key a.connection_dict s.distinct;
            live = erase-Each IsLive key a.connection_dict s.live;
          })
    | inr f ↦ rw f (record {
      distinct = insert-DistinctKeys key connection a.connection_dict s.distinct;
      live = insert-Each IsLive key connection a.connection_dict h s.live;
    })
  ]

  IsRetrieved :
      Bytes → Option (TcpConnection × TcpAssembler × List (Bytes × Endpoint × Endpoint)) → Type 0
  IsRetrieved key none = Unit
  IsRetrieved key (some (connection, a, started)) = IsLive key connection × IsSafe a

  retrieve_connection-IsRetrieved :
      (src dst : Endpoint) (key : Bytes) (init : Bool) (a : TcpAssembler)
      → IsSafe a
      → IsRetrieved key (retrieve_connection config zero_time src dst key init a)
  unfolding retrieve_connection IsRetrieved
  retrieve_connection-IsRetrieved src dst key init a s =
      elim (Option-cases (lookup key a.connection_dict)) [
        | inr (c, q) ↦
            rw (q, retrieve_connection) (lookup-Each IsLive key c a.connection_dict s.live q, s)
        | inl q ↦ elim (Bool-cases init) [
          | inr f ↦ rw (q, f, retrieve_connection) tt
          | inl t ↦
              rw (q, t, retrieve_connection)
                (
                  new_tcp_connection-IsLive zero_time key,
                  record {
                    distinct = insert-DistinctKeys key _ a.connection_dict s.distinct;
                    live =
                        insert-Each IsLive key _ a.connection_dict
                          (new_tcp_connection-IsLive zero_time key) s.live;
                  },
                )
        ]
      ]

  receive_on-Ensures :
      (meanwhile : Meanwhile) (src : Endpoint) (tcp : Tcp) (timestamp : Time) (key : Bytes)
      (a : TcpAssembler)
      (found : Option (TcpConnection × TcpAssembler × List (Bytes × Endpoint × Endpoint)))
      → IsSafe a
      → IsRetrieved key found
      → Ensures
          (λ out. IsSafe out.assembler)
          (receive_on config zero_time meanwhile src tcp timestamp key a found)
  unfolding receive_on IsRetrieved
  receive_on-Ensures meanwhile src tcp timestamp key a none s r = s
  receive_on-Ensures meanwhile src tcp timestamp key a (some (connection, a', started)) s (h, s') =
      Ensures->>= (IsLive key) (λ out. IsSafe out.assembler)
        (on_receive config meanwhile src tcp timestamp connection) _
        (on_receive-Ensures config meanwhile src tcp timestamp key connection h)
        (λ c hc. after_receive-Ensures key a' started c s' hc)

  pub assemble-Ensures :
      (meanwhile : Meanwhile) (src dst : Endpoint) (tcp : Tcp) (timestamp : Time) (a : TcpAssembler)
      → IsSafe a
      → Ensures
          (λ out. IsSafe out.assembler)
          (assemble config zero_time meanwhile src dst tcp timestamp a)
  unfolding assemble
  assemble-Ensures meanwhile src dst tcp timestamp a s =
      receive_on-Ensures meanwhile src tcp timestamp (connection_key src dst) a _ s
        (retrieve_connection-IsRetrieved src dst (connection_key src dst) (create_new_conn tcp) a s)

abbrev pub AllLive : List TcpConnection → Type 0
AllLive = All (λ c. IsLive c.key c)

-- Each of live connections is closed, in their order.
pub force_close_all_lem :
    (cs : List TcpConnection)
    → AllLive cs
    → force_close_all cs ≡ done (map (λ c. with_ended (with_closed c)) cs)
unfolding force_close_all
force_close_all_lem [] h = refl
force_close_all_lem (c ∷ cs) (h, hs) =
    rw (force_close_lem c.key c h, force_close_all_lem cs hs) refl

older_than-AllLive : (time : Time) (l : Connections) → Each IsLive l → AllLive (older_than time l)
unfolding older_than
older_than-AllLive time [] h = tt
older_than-AllLive time ((k, c) ∷ l) (h, hs) = elim (Bool-cases (ltb_ℤ c.last_timestamp time)) [
  | inl t ↦
      rw t (record { same_key = refl; up = h.up; down = h.down }, older_than-AllLive time l hs)
  | inr f ↦ rw f (older_than-AllLive time l hs)
]

module _ (arrange : Connections → Connections) (walks : WalksMap arrange) where
  pub arranged-Each : (a : TcpAssembler) → IsSafe a → Each IsLive (arrange a.connection_dict)
  arranged-Each a s =
      let (d, same) = walks a.connection_dict s.distinct in
      Each-of_lookup IsLive (arrange a.connection_dict) d
        (λ k c q. lookup-Each IsLive k c a.connection_dict s.live (sym (same k) ∙ q))

  pub arranged-AllLive :
      (time : Time) (a : TcpAssembler)
      → IsSafe a
      → AllLive (older_than time (arrange a.connection_dict))
  arranged-AllLive time a s =
      older_than-AllLive time (arrange a.connection_dict) (arranged-Each a s)

delete_all-IsSafe :
    (cs : List TcpConnection) (l : Connections)
    → DistinctKeys l
    → Each IsLive l
    → DistinctKeys (delete_all cs l) × Each IsLive (delete_all cs l)
unfolding delete_all
delete_all-IsSafe [] l d h = (d, h)
delete_all-IsSafe (c ∷ cs) l d h =
    delete_all-IsSafe cs (erase c.key l) (erase-DistinctKeys c.key l d)
      (erase-Each IsLive c.key l h)

pub flush_older_than-Ensures :
    (arrange : Connections → Connections)
    → WalksMap arrange
    → (time : Time) (a : TcpAssembler) → IsSafe a
    → Ensures (λ out. IsSafe out.0) (flush_older_than arrange time a)
unfolding flush_older_than
flush_older_than-Ensures arrange walks time a s =
    let cs = older_than time (arrange a.connection_dict) in
    let (d, live) = delete_all-IsSafe cs a.connection_dict s.distinct s.live in
    rw (force_close_all_lem cs (arranged-AllLive arrange walks time a s))
      (record { distinct = d; live = live })
