-- ===== src/Dump/Connection/Delivery.antt =====
-- A connection gets the packets of both sides, in the order in which they were captured: what its
-- two streams give to their readers.
mod Steps
pub mod Both
mod Tests
use mathlib.Core.Path.{subst}
use native.Mathlib.Nat.{le_refl}
use httshark.Base.{
  ℕ, zero, suc, ◌+◌, ◌-◌, ◌≤◌, ◌<◌, max, ◌≡◌, refl, sym, ap, ◌∙◌, Bool, true, false, not, ◌||◌,
  some, List, [], ◌∷◌, ◌++◌, arith, length, if◌then◌else◌, Bytes, replicate, Bool-cases, inl, inr,
}
use httshark.Go.Clock.{Time}
use httshark.Dump.Packet.{Tcp}
use httshark.Dump.Endpoint.{Endpoint, equals}
use httshark.Dump.Detect.{is_http_request_data}
use httshark.Dump.Window.Sorted.{IsRegion}
use httshark.Dump.Window.Stream.{segment}
use httshark.Dump.Stream.{
  NetworkStream, StreamConfig, Progress, done, ◌>>=◌, Meanwhile, new_network_stream, append_packet,
  confirm_packet, finish, ready,
}
use httshark.Dump.Stream.ReadAll.{read_all}
use httshark.Dump.Stream.Reassembly.{Event, arrives, acks, acked_to, Admissible}
use httshark.Dump.Stream.Reassembly.State.{IsAt, arrives_lem, acks_lem}
use httshark.Dump.Stream.Reassembly.Delivery.{starts, IsAt-read}
use httshark.Dump.Connection.{
  TcpConnection, new_tcp_connection, on_receive, deliver_to, confirm_if, finish_both,
}

-- a packet as `assemble` hands it to `onReceive`, with what goes on during `confirmPacket`
pub record Captured : Type 0 where
  pub src : Endpoint
  pub tcp : Tcp
  pub timestamp : Time
  pub meanwhile : Meanwhile

unfoldable pub run_packets : StreamConfig → List Captured → TcpConnection → Progress TcpConnection
run_packets config [] c = done c
run_packets config (p ∷ ps) c =
    on_receive config p.meanwhile p.src p.tcp p.timestamp c >>= run_packets config ps

-- what a packet is to the stream of its sender, and to the other one
abbrev pub stream_event : Bool → Captured → List Event
stream_event true p = arrives p.tcp ∷ []
stream_event false p = if p.tcp.ack then acks p.tcp.ack_number p.meanwhile ∷ [] else []

-- what the packets are to the stream of the client, and to that of the server
abbrev pub up_events : Endpoint → List Captured → List Event
up_events client [] = []
up_events client (p ∷ ps) = stream_event (equals client p.src) p ++ up_events client ps

abbrev pub down_events : Endpoint → List Captured → List Event
down_events client [] = []
down_events client (p ∷ ps) = stream_event (not (equals client p.src)) p ++ down_events client ps

-- a byte stream, and how it is cut into packets
pub record Flow : Type 0 where
  pub byte_at : ℕ → ℕ
  pub size_at : ℕ → ℕ
  pub lo : ℕ
  pub region : IsRegion lo
  pub positive : 0 < lo

module _ (config : StreamConfig) (f : Flow) where
  abbrev pub IsGiven : List Tcp → List Event → Type 0
  IsGiven = Admissible config f.byte_at f.size_at f.lo f.region f.positive

  -- where a stream stands that has bytes up to the furthest acknowledgement at least
  pub record Stands (s : NetworkStream) (seen : List Tcp) (a : ℕ) : Type 0 where
    pub held : List Tcp
    pub next : ℕ
    pub state : IsAt config f.byte_at f.size_at f.lo f.region f.positive s seen held next
    pub reaches : a ≤ next

  pub starts-Stands : (key : Bytes) → Stands (new_network_stream key) [] f.lo
  starts-Stands key = record {
    held = [];
    next = f.lo;
    state = starts config f.byte_at f.size_at f.lo f.region f.positive key;
    reaches = le_refl f.lo;
  }

  pub Stands-closed :
      (s : NetworkStream) (seen : List Tcp) (a : ℕ) (b : Bool)
      → Stands s seen a
      → Stands (record s { closed = b }) seen a
  Stands-closed s seen a b h =
      let t = h.state in
      record {
        held = h.held;
        next = h.next;
        state = record {
          active = record {
            in_use = t.active.in_use;
            open_channel = t.active.open_channel;
            held = t.active.held;
          };
          begins = t.begins;
          from_lo = t.from_lo;
          in_region = t.in_region;
          sorted = t.sorted;
          cuts = t.cuts;
          captured = t.captured;
          nothing_left = t.nothing_left;
          bytes = t.bytes;
          few = t.few;
        };
        reaches = h.reaches;
      }

  -- the sender's stream
  pub sender_lem :
      (p : Captured) (s : NetworkStream) (seen : List Tcp) (a : ℕ) (evs : List Event)
      → Stands s seen a
      → IsGiven seen (arrives p.tcp ∷ evs)
      → (s' : NetworkStream) × (append_packet p.tcp s ≡ done s') × Stands s' (p.tcp ∷ seen) a
  sender_lem p s seen a evs h (part, size, given) =
      let (s', l, e, q, at', le) =
        arrives_lem config f.byte_at f.size_at f.lo f.region f.positive p.tcp s seen h.held h.next
          h.state part size in
      (s', q, record { held = l; next = e; state = at'; reaches = omega (arith, h.reaches, le) })

  -- the other stream, with the events that are left
  abbrev pub Confirms : Captured → NetworkStream → List Tcp → ℕ → List Event → Type 0
  Confirms p s seen a evs =
      (s' : NetworkStream) × (a' : ℕ) × (confirm_if config p.meanwhile p.tcp s ≡ done s')
      × Stands s' seen a'
      × IsGiven seen evs
      × (acked_to a (stream_event false p ++ evs) ≡ acked_to a' evs)

  pub receiver_lem :
      (p : Captured) (s : NetworkStream) (seen : List Tcp) (a : ℕ) (evs : List Event)
      → Stands s seen a
      → IsGiven seen (stream_event false p ++ evs)
      → Confirms p s seen a evs
  receiver_lem p s seen a evs h given = elim (Bool-cases p.tcp.ack) [
    | inr n ↦ rw n (s, a, refl, h, rw n at given, refl)
    | inl t ↦ rw t (acked t (rw t at given))
  ]
    where
      acked :
          p.tcp.ack ≡ true
          → IsGiven seen (acks p.tcp.ack_number p.meanwhile ∷ evs)
          → (s' : NetworkStream) × (a' : ℕ) × (confirm_packet config p.meanwhile p.tcp.ack_number s
              ≡ done s')
            × Stands s' seen a'
            × IsGiven seen evs
            × (acked_to (max a p.tcp.ack_number) evs ≡ acked_to a' evs)
      acked t (from, to, cov, space, fits, given') =
          let (s', l, e, q, at', le) =
            acks_lem config f.byte_at f.size_at f.lo f.region f.positive p.tcp.ack_number
              p.meanwhile s seen h.held h.next a h.state h.reaches from to cov space fits in
          (
            s',
            max a p.tcp.ack_number,
            q,
            record { held = l; next = e; state = at'; reaches = le },
            given',
            refl,
          )
