-- ===== src/Dump/Stream/Safe.antt =====
-- What keeps the operations of the assembler on a stream from panicking.
use mathlib.Core.Path.{subst}
use httshark.Base.{
  ℕ, ◌≡◌, ◌≢◌, refl, sym, ap, ◌∙◌, ◌+◌, ◌≤◌, ltb, length, length-append, if_false, if_true, Bool,
  true, false, ◌||◌, List, [], ◌∷◌, ◌++◌, arith, Bytes, append_assoc, append-nil, if◌then◌else◌,
  Bool-cases, inl, inr, Option,
}
use httshark.Dump.Packet.{Tcp}
use httshark.Dump.Window.{ReceiveWindow, insert}
use httshark.Dump.Window.Held.{Holds, new_receive_window-Holds}
use httshark.Dump.Window.Insert.{insert_refines, Makes}
use httshark.Dump.Window.Confirm.{confirm_refines, confirm_list}
use httshark.Dump.Stream.{
  NetworkStream, StreamConfig, Progress, done, waits, panics, ◌>>=◌, or_panics, Meanwhile,
  new_network_stream, append_packet, wait_for_channel_space, send, confirm_window, confirm_packet,
}
use httshark.Dump.Stream.Wait.{wait-ne-panics}

-- An operation does not panic, and `P` holds of what it returns.
abbrev pub Ensures : {A : Type 0} → (A → Type 0) → Progress A → Type 0
Ensures P (done a) = P a
Ensures P waits = Unit
Ensures P panics = ⊥

pub Ensures->>= :
    {A B : Type 0} (P : A → Type 0) (Q : B → Type 0) (m : Progress A) (f : A → Progress B)
    → Ensures P m
    → ((a : A) → P a → Ensures Q (f a))
    → Ensures Q (m >>= f)
Ensures->>= P Q (done a) f h k = k a h
Ensures->>= P Q waits f h k = tt
Ensures->>= P Q panics f h k = h

pub Ensures-ne-panics : {A : Type 0} (P : A → Type 0) (m : Progress A) → Ensures P m → m ≢ panics
Ensures-ne-panics P (done a) h = cc
Ensures-ne-panics P waits h = cc
Ensures-ne-panics P panics h = absurd h

-- The channel is open, and the window holds a list of packets.
pub record IsOpen (s : NetworkStream) : Type 0 where
  pub open_channel : s.ended ≡ false
  pub packets : List Tcp
  pub held : Holds s.window packets

pub new_network_stream-IsOpen : (key : Bytes) → IsOpen (new_network_stream key)
unfolding new_network_stream
new_network_stream-IsOpen key = record {
  open_channel = refl;
  packets = [];
  held = new_receive_window-Holds 64 key (omega arith);
}

insert-Ensures :
    (s : NetworkStream) (o : Option ReceiveWindow) (l : List Tcp)
    → s.ended ≡ false
    → Makes s.window o l
    → Ensures IsOpen (or_panics o >>= λ w. done (record s { window = w }))
insert-Ensures s o l e (w, q, h, _, _) = rw q (record { open_channel = e; packets = l; held = h })

pub append_packet-Ensures :
    (tcp : Tcp) (s : NetworkStream) → IsOpen s → Ensures IsOpen (append_packet tcp s)
unfolding append_packet
append_packet-Ensures tcp s h = elim (Bool-cases (s.ignore || s.eof_simulated)) [
  | inl t ↦ rw t h
  | inr f ↦ rw f (
      insert-Ensures s (insert s.window tcp) _ h.open_channel
        (insert_refines s.window tcp h.packets h.held))
]

-- On an open channel with room for them the packets are queued in their order.
pub send_lem :
    (config : StreamConfig) (taken : ℕ) (packets : List Tcp) (s : NetworkStream)
    → s.ended ≡ false
    → length s.c + length packets ≤ config.channel_size + taken
    → send config taken packets s ≡ done (record s { c = s.c ++ packets })
unfolding send
send_lem config taken [] s e room = rw (append-nil s.c) refl
send_lem config taken (x ∷ packets) s e room =
    let s' = record s { c = s.c ++ (x ∷ []) } in
    if_false s.ended panics _ e
    ∙ if_true (ltb (length s.c) (config.channel_size + taken)) _ waits (ground arith)
    ∙ send_lem config taken packets s' e (omega (arith, room, length-append s.c (x ∷ [])))
    ∙ ap (λ c. done (record s { c = c })) (append_assoc s.c (x ∷ []) packets)

Ensures-or_waits :
    {A : Type 0} (P : A → Type 0) (b : Bool) (m : Progress A)
    → Ensures P m
    → Ensures P (if b then m else waits)
Ensures-or_waits P true m h = h
Ensures-or_waits P false m h = tt

-- Whether or not there is room, a send on an open channel does not panic.
send-Ensures :
    (config : StreamConfig) (taken : ℕ) (packets : List Tcp) (s : NetworkStream)
    → IsOpen s
    → Ensures IsOpen (send config taken packets s)
unfolding send
send-Ensures config taken [] s h = h
send-Ensures config taken (x ∷ packets) s h =
    let s' = record s { c = s.c ++ (x ∷ []) } in
    let later =
      send-Ensures config taken packets s'
        (record { open_channel = h.open_channel; packets = h.packets; held = h.held }) in
    subst (Ensures IsOpen) (sym (if_false s.ended panics _ h.open_channel))
      (Ensures-or_waits IsOpen (ltb (length s.c) (config.channel_size + taken)) _ later)

confirm_window-Ensures :
    (config : StreamConfig) (taken ack : ℕ) (s : NetworkStream)
    → IsOpen s
    → Ensures IsOpen (confirm_window config taken ack s)
unfolding confirm_window
confirm_window-Ensures config taken ack s h =
    let (w, q, held, _, _) = confirm_refines s.window ack h.packets h.held in
    let sent = (confirm_list ack s.window.expect_begin h.packets).sent in
    rw q (
      send-Ensures config taken sent (record s { window = w })
        (record { open_channel = h.open_channel; packets = _; held = held }))

Ensures-of_ne : {A : Type 0} → (m : Progress A) → m ≢ panics → Ensures (λ _. Unit {0}) m
Ensures-of_ne (done a) h = tt
Ensures-of_ne waits h = tt
Ensures-of_ne panics h = h refl

pub confirm_packet-Ensures :
    (config : StreamConfig) (meanwhile : Meanwhile) (ack : ℕ) (s : NetworkStream)
    → IsOpen s
    → Ensures IsOpen (confirm_packet config meanwhile ack s)
unfolding confirm_packet
confirm_packet-Ensures config meanwhile ack s h = elim (Bool-cases (s.ignore || s.eof_simulated)) [
  | inl t ↦ rw t h
  | inr f ↦ rw f (
      Ensures->>= (λ _. Unit {0}) IsOpen
        (wait_for_channel_space config (length s.c) meanwhile.rounds)
        (λ has_space.
          if has_space
          then confirm_window config meanwhile.taken ack s
          else done (record s { ignore = true }))
        (Ensures-of_ne (wait_for_channel_space config (length s.c) meanwhile.rounds)
          (wait-ne-panics config (length s.c) meanwhile.rounds))
        (λ has_space _. either has_space))
]
  where
    either :
        (b : Bool)
        → Ensures IsOpen (
            if b
            then confirm_window config meanwhile.taken ack s
            else done (record s { ignore = true }))
    either true = confirm_window-Ensures config meanwhile.taken ack s h
    either false = record { open_channel = h.open_channel; packets = h.packets; held = h.held }
