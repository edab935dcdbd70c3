-- ===== src/Dump/Assembler/Flush.antt =====
-- What `flushOlderThan` removes.
use httshark.Base.{
  ◌≡◌, refl, ap, ◌∙◌, Bool, false, ◌||◌, Option, none, some, List, [], ◌∷◌, map, arith, Bytes, same,
  same_iff, if◌then◌else◌, ltb_ℤ, bytes_eq, lookup, erase, lookup-erase, DistinctKeys, Each,
  WalksMap,
}
use httshark.Go.Clock.{Time}
use httshark.Dump.Stream.{done}
use httshark.Dump.Connection.{TcpConnection}
use httshark.Dump.Connection.Safe.{IsLive, with_ended, with_closed}
use httshark.Dump.Assembler.{Connections, TcpAssembler, older_than, delete_all, flush_older_than}
use httshark.Dump.Assembler.Safe.{IsSafe, arranged-Each, arranged-AllLive, force_close_all_lem}

abbrev has_key : Bytes → List TcpConnection → Bool
has_key k [] = false
has_key k (c ∷ cs) = same c.key k || has_key k cs

lookup-delete_all :
    (k : Bytes) (cs : List TcpConnection) (m : Connections)
    → lookup k (delete_all cs m) ≡ (if has_key k cs then none else lookup k m)
unfolding delete_all
lookup-delete_all k [] m = refl
lookup-delete_all k (c ∷ cs) m =
    ground (arith, lookup-delete_all k cs (erase c.key m), lookup-erase c.key k m)

-- whether an entry of the table is older than `time`
abbrev pub is_older : Time → Option TcpConnection → Bool
is_older time none = false
is_older time (some c) = ltb_ℤ c.last_timestamp time

has_key-older_than :
    (time : Time) (k : Bytes) (l : Connections)
    → DistinctKeys l
    → Each IsLive l
    → has_key k (older_than time l) ≡ is_older time (lookup k l)
unfolding older_than lookup
has_key-older_than time k [] d h = refl
has_key-older_than time k ((j, c) ∷ l) (dj, d) (hc, h) =
    let same_key = hc.same_key in
    ground (arith, has_key-older_than time k l d h, same_iff c.key k, same_iff j k)

-- A tick removes from the table exactly the connections whose last packet came before `time`, and
-- closes both channels of each of them and of no other; it does not panic.
pub flush_older_than_lem :
    (arrange : Connections → Connections)
    → WalksMap arrange
    → (time : Time) (a : TcpAssembler) → IsSafe a
    → (a' : TcpAssembler) × (flush_older_than arrange time a
        ≡ done (
          a',
          map (λ c. with_ended (with_closed c)) (older_than time (arrange a.connection_dict)),
        ))
      × ((k : Bytes)
          → lookup k a'.connection_dict ≡ (
              if is_older time (lookup k a.connection_dict)
              then none
              else lookup k a.connection_dict))
unfolding flush_older_than
flush_older_than_lem arrange walks time a s =
    let cs = older_than time (arrange a.connection_dict) in
    let (d, same_lookup) = walks a.connection_dict s.distinct in
    (
      record a { connection_dict = delete_all cs a.connection_dict },
      rw (force_close_all_lem cs (arranged-AllLive arrange walks time a s)) refl,
      λ k.
          lookup-delete_all k cs a.connection_dict
          ∙ ap (λ b. if b then none else lookup k a.connection_dict)
              (has_key-older_than time k (arrange a.connection_dict) d
                  (arranged-Each arrange walks a s)
                ∙ ap (is_older time) (same_lookup k)),
    )
