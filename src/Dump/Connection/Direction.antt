-- ===== src/Dump/Connection/Direction.antt =====
-- Which stream gets a packet, and which one its acknowledgement confirms.
use httshark.Base.{
  ◌≡◌, ◌≢◌, ◌⊎◌, refl, ap, ◌∙◌, true, false, ◌||◌, List, [], ◌++◌, append-nil, length,
  if◌then◌else◌, if_true, if_false, Bool-cases, inl, inr,
}
use httshark.Dump.Packet.{Tcp}
use httshark.Dump.Endpoint.{Endpoint, equals}
use httshark.Dump.Endpoint.Symmetry.{equals_iff}
use httshark.Dump.Window.Held.{Holds}
use httshark.Dump.Window.Insert.{insert_list}
use httshark.Dump.Window.Confirm.{confirm_list}
use httshark.Dump.Stream.{NetworkStream, StreamConfig, done, Meanwhile}
use httshark.Dump.Stream.Active.{IsActive, HasRoom, append_packet_lem, confirm_packet_lem}
use httshark.Dump.Connection.{
  TcpConnection, send_stream, confirm_stream, with_streams, confirm_if, deliver_to, is_up,
}

-- the list that a window holds after the acknowledgement of a packet, if it has one, and what is
-- sent then
abbrev pub kept_by : Tcp → NetworkStream → List Tcp → List Tcp
kept_by tcp s l = if tcp.ack then (confirm_list tcp.ack_number s.window.expect_begin l).kept else l

abbrev pub sent_by : Tcp → NetworkStream → List Tcp → List Tcp
sent_by tcp s l = if tcp.ack then (confirm_list tcp.ack_number s.window.expect_begin l).sent else []

confirm_if_lem :
    (config : StreamConfig) (meanwhile : Meanwhile) (tcp : Tcp) (s : NetworkStream) (l : List Tcp)
    → IsActive s l
    → HasRoom config meanwhile s (length (sent_by tcp s l))
    → (s' : NetworkStream) × (confirm_if config meanwhile tcp s ≡ done s')
      × Holds s'.window (kept_by tcp s l)
      × (s'.c ≡ s.c ++ sent_by tcp s l)
      × (s'.closed ≡ s.closed)
confirm_if_lem config meanwhile tcp s l h space = elim (Bool-cases tcp.ack) [
  | inl t ↦
      let (w, q, held) = confirm_packet_lem config meanwhile tcp.ack_number s l h (rw t at space) in
      let out = confirm_list tcp.ack_number s.window.expect_begin l in
      (record s { window = w; c = s.c ++ out.sent }, rw t q, rw t held, rw t refl, refl)
  | inr f ↦ (s, rw f refl, rw f (h.held), rw (f, append-nil s.c) refl, refl)
]

-- What a packet changes on the sender's stream, whose window holds `l`, and on the opposite one,
-- whose window holds `k`.
pub record IsReceived (tcp : Tcp) (l k : List Tcp) (s f s' f' : NetworkStream) : Type 0 where
  pub inserted : Holds s'.window (insert_list s.window.expect_begin tcp l)
  pub same_queue : s'.c ≡ s.c
  pub closing : s'.closed ≡ (s.closed || tcp.fin || tcp.rst)
  pub confirmed : Holds f'.window (kept_by tcp f k)
  pub sent : f'.c ≡ f.c ++ sent_by tcp f k
  pub other_closed : f'.closed ≡ f.closed

abbrev pub Side : TcpConnection → Endpoint → Type 0
Side c src = (c.client_id ≡ src) ⊎ (c.client_id ≢ src)

equals_ne : (x y : Endpoint) → x ≢ y → equals x y ≡ false
equals_ne x y h = elim (Bool-cases (equals x y)) [
  | inl t ↦ absurd (h ((equals_iff x y).0 t))
  | inr f ↦ f
]

-- The client's packets belong to the first stream, those of the other side to the second one.
abbrev pub sender : {A B : Type 0} → A ⊎ B → TcpConnection → NetworkStream
sender (inl client) c = c.up_stream
sender (inr server) c = c.down_stream

abbrev pub opposite : {A B : Type 0} → A ⊎ B → TcpConnection → NetworkStream
opposite (inl client) c = c.down_stream
opposite (inr server) c = c.up_stream

module _ (config : StreamConfig) (meanwhile : Meanwhile) (src : Endpoint) (tcp : Tcp)
    (c : TcpConnection) where
  -- the packet on the streams `s` of its sender and `f`
  received_lem :
      (s f : NetworkStream) (l k : List Tcp)
      → send_stream c src ≡ s
      → confirm_stream c src ≡ f
      → IsActive s l
      → IsActive f k
      → HasRoom config meanwhile f (length (sent_by tcp f k))
      → (s' f' : NetworkStream) × (deliver_to config meanwhile src tcp c
          ≡ done (with_streams c src s' f'))
        × IsReceived tcp l k s f s' f'
  unfolding deliver_to
  received_lem s f l k is_s is_f hs hf room =
      let (w, q, held) = append_packet_lem tcp s l hs in
      let (f', r, kept, queue, still) = confirm_if_lem config meanwhile tcp f k hf room in
      (
        record s { window = w; closed = s.closed || tcp.fin || tcp.rst },
        f',
        rw (is_s, is_f, q, r) refl,
        record {
          inserted = held;
          same_queue = refl;
          closing = refl;
          confirmed = kept;
          sent = queue;
          other_closed = still;
        },
      )

  -- A packet on a connection that carries HTTP, with both streams in use and room in the channel
  -- for what the packet confirms. A packet of the client goes into the window of `upStream`, any
  -- other one into that of `downStream`; FIN or RST closes that stream and only that one; and if
  -- the packet has an acknowledgement, the opposite stream sends what it confirms, behind what its
  -- channel has. The client and whether the connection carries HTTP stay.
  pub deliver_to_lem :
      (side : Side c src) (l k : List Tcp)
      → IsActive (sender side c) l
      → IsActive (opposite side c) k
      → HasRoom config meanwhile (opposite side c) (length (sent_by tcp (opposite side c) k))
      → (c' : TcpConnection) × (deliver_to config meanwhile src tcp c ≡ done c')
        × IsReceived tcp l k (sender side c) (opposite side c) (sender side c') (opposite side c')
        × (c'.client_id ≡ c.client_id)
        × (c'.is_http ≡ c.is_http)
  deliver_to_lem (inl e) l k hs hf room =
      let is_client : is_up c src ≡ true = (equals_iff c.client_id src).1 e in
      let (s', f', q, received) =
        received_lem c.up_stream c.down_stream l k (if_true (is_up c src) _ _ is_client)
          (if_true (is_up c src) _ _ is_client) hs hf room in
      (
        record c { up_stream = s'; down_stream = f' },
        q ∙ ap done (if_true (is_up c src) _ _ is_client),
        received,
        refl,
        refl,
      )
  deliver_to_lem (inr e) l k hs hf room =
      let is_server : is_up c src ≡ false = equals_ne c.client_id src e in
      let (s', f', q, received) =
        received_lem c.down_stream c.up_stream l k (if_false (is_up c src) _ _ is_server)
          (if_false (is_up c src) _ _ is_server) hs hf room in
      (
        record c { up_stream = f'; down_stream = s' },
        q ∙ ap done (if_false (is_up c src) _ _ is_server),
        received,
        refl,
        refl,
      )
