-- ===== src/Dump/Stream.antt =====
-- httpdump/network_stream.go: one direction of a connection, which the assembler's goroutine fills
-- and the handler's goroutine reads. The channel has room for `NetworkStreamChannelSize` packets, and
-- a write to it waits where it is full. What the clock and the other goroutine decide is an
-- argument: the rounds of the waiting loop, how many packets the reader takes during a call, and
-- which case `select` takes.
pub mod Wait
mod Read
pub mod ReadAll
pub mod Safe
pub mod Active
pub mod Reassembly
pub mod Tests
use httshark.Base.{
  ℕ, ◌+◌, ◌-◌, Bool, true, false, ◌||◌, Option, none, some, List, [], ◌∷◌, ◌++◌, Bytes, ◌==◌, ltb,
  if◌then◌else◌, ltb_ℤ, length, take, drop,
}
use httshark.Go.Clock.{Duration}
use httshark.Dump.Packet.{Tcp}
use httshark.Dump.Window.{ReceiveWindow, new_receive_window, insert, confirm}

-- `ended` tells whether the channel `c` has been closed; the pointer `opposite` is what the
-- connection pairs.
pub record NetworkStream : Type 0 where
  pub window : ReceiveWindow
  pub c : List Tcp
  pub ended : Bool
  pub remain : Bytes
  pub ignore : Bool
  pub closed : Bool
  pub eof_simulated : Bool
  pub key_description : Bytes

-- the configuration that is read here; a channel's size is not negative
pub record StreamConfig : Type 0 where
  pub channel_size : ℕ
  pub full_channel_timeout : Duration
  pub response_timeout : Duration

-- How an operation goes: it returns, it waits for what has not happened, or it panics.
pub data Progress (A : Type 0) : Type 0 where
  done : A → Progress A
  waits panics : Progress A

infixl 5 ◌>>=◌
abbrev pub ◌>>=◌ : {A B : Type 0} → Progress A → (A → Progress B) → Progress B
done a >>= f = f a
waits >>= f = waits
panics >>= f = panics

abbrev pub or_panics : {A : Type 0} → Option A → Progress A
or_panics none = panics
or_panics (some a) = done a

-- `newNetworkStream`
unfoldable pub new_network_stream : Bytes → NetworkStream
new_network_stream key = record {
  window = new_receive_window 64 key;
  c = [];
  ended = false;
  remain = [];
  ignore = false;
  closed = false;
  eof_simulated = false;
  key_description = key;
}

-- `appendPacket`
unfoldable pub append_packet : Tcp → NetworkStream → Progress NetworkStream
append_packet tcp s =
    if s.ignore || s.eof_simulated
    then done s
    else or_panics (insert s.window tcp) >>= λ w. done (record s { window = w })

-- A round of `waitForChannelSpace`: how many packets the reader has taken from the channel since
-- the call began, and the time passed that the round measures where the channel is full.
pub record Round : Type 0 where
  pub taken : ℕ
  pub passed : Duration

-- What goes on while `confirmPacket` runs: the rounds of its wait, and how many packets the reader
-- takes from the channel before the call ends. The reader takes them at the front and the call
-- adds at the back, so that `c` has them until the call has ended.
pub record Meanwhile : Type 0 where
  pub rounds : List Round
  pub taken : ℕ

-- `waitForChannelSpace`, of a channel that has `queued` packets when the call begins; a round that
-- goes on sleeps
unfoldable pub wait_for_channel_space : StreamConfig → ℕ → List Round → Progress Bool
wait_for_channel_space config queued [] = waits
wait_for_channel_space config queued (r ∷ rounds) =
    let rest = wait_for_channel_space config queued rounds in
    if ltb (queued - r.taken) config.channel_size
    then done true
    else if ltb_ℤ config.full_channel_timeout r.passed
    then done false
    else rest

-- `c <- packet` for each of the packets: a send on a closed channel panics, and one on a full
-- channel waits for ever if the reader takes no more than `taken` packets
unfoldable pub send : StreamConfig → ℕ → List Tcp → NetworkStream → Progress NetworkStream
send config taken [] s = done s
send config taken (packet ∷ packets) s =
    let rest = send config taken packets (record s { c = s.c ++ (packet ∷ []) }) in
    if s.ended
    then panics
    else if ltb (length s.c) (config.channel_size + taken)
    then rest
    else waits

-- `s.window.confirm(ack, s.c)`
unfoldable pub confirm_window : StreamConfig → ℕ → ℕ → NetworkStream → Progress NetworkStream
unfolding send
confirm_window config taken ack s = or_panics (confirm s.window ack) >>= λ out.
    send config taken (out.1) (record s { window = out.0 })

-- `confirmPacket`
unfoldable pub confirm_packet :
    StreamConfig → Meanwhile → ℕ → NetworkStream → Progress NetworkStream
unfolding wait_for_channel_space confirm_window
confirm_packet config meanwhile ack s =
    if s.ignore || s.eof_simulated
    then done s
    else wait_for_channel_space config (length s.c) meanwhile.rounds >>= λ has_space.
        if has_space
        then confirm_window config meanwhile.taken ack s
        else done (record s { ignore = true })

-- `finish`; closing a closed channel panics
unfoldable pub finish : NetworkStream → Progress NetworkStream
finish s = if s.ended then panics else done (record s { ended = true })

-- `Close`
abbrev pub close : NetworkStream → NetworkStream
close s = record s { ignore = true }

-- a round of the loop of `Read`: the channel is ready, or the timer fires, with the length of the
-- opposite channel and the time since the last packet
pub data Select : Type 0 where
  ready : Select
  timed_out : ℕ → Duration → Select

-- `packet, ok := <-s.c`
pub data Received : Type 0 where
  packet : NetworkStream → Received
  at_end nothing : Received

unfoldable pub receive : NetworkStream → Received
receive s = elim s.c [
  | [] ↦ if s.ended then at_end else nothing
  | tcp ∷ c ↦ packet (record s { c = c; remain = tcp.payload })
]

-- how the loop `for len(s.remain) == 0` ends, with the rounds that it has not used
pub data Filled : Type 0 where
  filled : NetworkStream → List Select → Filled
  simulated : NetworkStream → List Select → Filled
  still_waiting : Filled

abbrev pub at_eof : NetworkStream → List Select → Filled
at_eof s rounds = simulated (record s { eof_simulated = true }) rounds

unfoldable pub fill : StreamConfig → List Select → NetworkStream → Filled
unfolding receive
fill config [] s = elim s.remain [ [] ↦ still_waiting | b ∷ r ↦ filled s [] ]
fill config (ready ∷ rounds) s = elim s.remain [
  | b ∷ r ↦ filled s (ready ∷ rounds)
  | [] ↦ elim (receive s) [
    | packet s' ↦ fill config rounds s'
    | at_end ↦ at_eof s rounds
    | nothing ↦ still_waiting
  ]
]
fill config (timed_out opposite_length non_active ∷ rounds) s = elim s.remain [
  | b ∷ r ↦ filled s (timed_out opposite_length non_active ∷ rounds)
  | [] ↦
      let again = fill config rounds s in
      if opposite_length == config.channel_size
      then at_eof s rounds
      else if ltb_ℤ config.response_timeout non_active
      then at_eof s rounds
      else again
]

-- what `Read` returns: bytes, or `io.EOF`
pub data Returned : Type 0 where
  bytes : Bytes → NetworkStream → List Select → Returned
  eof : NetworkStream → List Select → Returned
  blocked : Returned

-- the copy into `p`, which has room for `n` bytes
unfoldable pub take_remain : ℕ → NetworkStream → Bytes × NetworkStream
take_remain n s =
    if ltb n (length s.remain)
    then (take n s.remain, record s { remain = drop n s.remain })
    else (s.remain, record s { remain = [] })

-- what follows the loop
unfoldable pub read_filled : ℕ → Filled → Returned
unfolding take_remain
read_filled n (filled s rounds) = let (out, s') = take_remain n s in bytes out s' rounds
read_filled n (simulated s rounds) = eof s rounds
read_filled n still_waiting = blocked

-- `Read`
unfoldable pub read : StreamConfig → ℕ → List Select → NetworkStream → Returned
unfolding fill read_filled
read config n rounds s = read_filled n (fill config rounds s)
