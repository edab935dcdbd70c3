-- ===== src/Dump/Window.antt =====
-- httpdump/receive_window.go: a circular buffer of packets, in order of their sequence numbers.
-- `none` stands for a panic: a read out of range, through a nil packet, or modulo 0.
pub mod Slots
pub mod Copy
pub mod Held
pub mod Expand
pub mod Insert
pub mod Confirm
pub mod Sorted
pub mod Stream
pub mod Covered
pub mod Placed
mod Tests
use httshark.Base.{
  ℕ, zero, suc, ◌+◌, ◌-◌, ◌*◌, ◌%◌, ◌^◌, Bool, true, false, ◌&&◌, ◌||◌, not, Option, none, some,
  List, [], ◌∷◌, ◌++◌, Bytes, ◌==◌, ltb, leb, if◌then◌else◌, length, get_elem?, set, take, drop,
  replicate,
}
use httshark.Dump.Packet.{Tcp}
use httshark.Dump.Seq.{compare_tcp_seq, add32, sub32, is_negative, is_zero, is_positive}

pub record ReceiveWindow : Type 0 where
  pub size : ℕ
  pub start : ℕ
  pub buffer : List (Option Tcp)
  pub last_ack : ℕ
  pub expect_begin : ℕ
  pub key_description : Bytes

-- `newReceiveWindow`
unfoldable pub new_receive_window : ℕ → Bytes → ReceiveWindow
new_receive_window initial_size key = record {
  size = 0;
  start = 0;
  buffer = replicate initial_size none;
  last_ack = 0;
  expect_begin = 0;
  key_description = key;
}

-- `destroy`
unfoldable pub destroy : ReceiveWindow → ReceiveWindow
destroy w = record w { size = 0; start = 0; buffer = [] }

-- `(i + w.start) % len(w.buffer)`
abbrev pub index_of : List (Option Tcp) → ℕ → ℕ → ℕ
index_of buffer start i = (i + start) % length buffer

-- the packet in a slot of the buffer
unfoldable pub packet_at : List (Option Tcp) → ℕ → ℕ → Option Tcp
packet_at buffer start i = elim (get_elem? buffer (index_of buffer start i)) [
  | none ↦ none
  | some slot ↦ slot
]

-- `packet.Seq + uint32(len(packet.Payload))`
abbrev pub seq_end : Tcp → ℕ
seq_end p = add32 p.seq (length p.payload % 2 ^ 32)

-- `copy(dst, src)`
unfoldable pub copy {ℓ} : {A : Type ℓ} → List A → List A → List A
copy [] src = []
copy (d ∷ dst) [] = d ∷ dst
copy (d ∷ dst) (s ∷ src) = s ∷ copy dst src

-- `copy(dst[k:], src)`
unfoldable pub copy_at {ℓ} : {A : Type ℓ} → ℕ → List A → List A → List A
unfolding copy
copy_at k dst src = take k dst ++ copy (drop k dst) src

-- `expand`
unfoldable pub expand : ReceiveWindow → ReceiveWindow
unfolding copy copy_at
expand w =
    let cap = length w.buffer in
    let buffer = replicate (cap * 2) none in
    let end = w.start + w.size in
    record w {
      start = 0;
      buffer =
          if ltb end cap
          then copy buffer (take w.size (drop w.start w.buffer))
          else copy_at (cap - w.start) (copy buffer (drop w.start w.buffer))
              (take (end - cap) w.buffer);
    }

-- where the backward scan of `insert` ends
pub data Place : Type 0 where
  duplicate fault : Place
  at : ℕ → Place

-- The loop `for ; idx > 0; idx--`, from `idx`.
unfoldable pub find_place : List (Option Tcp) → ℕ → Tcp → ℕ → Place
unfolding packet_at
find_place buffer start packet zero = at 0
find_place buffer start packet (suc i) =
    let earlier = find_place buffer start packet i in
    elim (packet_at buffer start i) [
      | none ↦ fault
      | some prev ↦
          let result = compare_tcp_seq prev.seq packet.seq in
          if is_zero result then duplicate else if is_negative result then at (suc i) else earlier
    ]

-- A slot of the buffer is written over another one, as the loop of `shift` does.
unfoldable pub copy_slot : List (Option Tcp) → ℕ → ℕ → List (Option Tcp)
copy_slot buffer next current = elim (get_elem? buffer current) [
  | none ↦ buffer
  | some slot ↦ set buffer next slot
]

-- The loop `for i := w.size - 1; i >= idx; i--` for the last `n` slots, where `i` is `idx + n - 1`.
unfoldable pub shift : ℕ → ℕ → ℕ → List (Option Tcp) → List (Option Tcp)
unfolding copy_slot
shift start idx zero buffer = buffer
shift start idx (suc n) buffer =
    shift start idx n
      (copy_slot buffer (index_of buffer start (idx + n + 1)) (index_of buffer start (idx + n)))

-- The rest of `insert`, from `if idx == w.size`.
unfoldable pub store : ReceiveWindow → ℕ → Tcp → ReceiveWindow
unfolding shift
store w idx packet =
    let buffer = (if idx == w.size then w.buffer else shift w.start idx (w.size - idx) w.buffer) in
    record w {
      buffer = set buffer (index_of w.buffer w.start idx) (some packet);
      size = w.size + 1;
    }

-- the first test of `insert`: everything in the packet has been delivered
abbrev pub is_delivered : ℕ → Tcp → Bool
is_delivered expect_begin packet =
    not (expect_begin == 0) && not (is_negative (compare_tcp_seq expect_begin (seq_end packet)))

-- What `insert` does once the scan has ended. An empty buffer stays empty when it is doubled, and
-- the index modulo its length panics.
unfoldable pub insert_place : ReceiveWindow → Tcp → Place → Option ReceiveWindow
unfolding expand store
insert_place w packet fault = none
insert_place w packet duplicate = some w
insert_place w packet (at idx) =
    let roomy = (if w.size == length w.buffer then expand w else w) in
    if length roomy.buffer == 0 then none else some (store roomy idx packet)

-- `insert`
unfoldable pub insert : ReceiveWindow → Tcp → Option ReceiveWindow
unfolding find_place insert_place
insert w packet =
    if is_delivered w.expect_begin packet
    then some w
    else if length packet.payload == 0
    then some w
    else insert_place w packet (find_place w.buffer w.start packet w.size)

-- What the loop of `confirm` does with a packet: `none` for `continue`, otherwise the packet that
-- is sent, cut down to what has not been delivered.
unfoldable pub deliver : ℕ → Tcp → Option Tcp
deliver expect_begin packet =
    let duplicated_size = sub32 expect_begin packet.seq in
    if not (expect_begin == 0) && is_positive (compare_tcp_seq expect_begin packet.seq)
    then if leb (length packet.payload % 2 ^ 32) duplicated_size
      then none
      else some (record packet { payload = drop duplicated_size packet.payload })
    else some packet

-- what a round that sends nothing, or sends `packet`, leaves in `expectBegin`
abbrev pub next_expect : Option Tcp → ℕ → Tcp → ℕ
next_expect none expect_begin packet = expect_begin
next_expect (some sent) expect_begin packet = seq_end packet

abbrev pub sent_list {ℓ} : {A : Type ℓ} → Option A → List A
sent_list none = []
sent_list (some a) = a ∷ []

-- the variables of the loop, and the packets sent through the channel so far
pub record Confirming : Type 0 where
  pub idx : ℕ
  pub buffer : List (Option Tcp)
  pub expect_begin : ℕ
  pub sent : List Tcp

-- one round with a packet that `ack` confirms
unfoldable pub confirm_round : ℕ → Confirming → Tcp → Confirming
unfolding deliver
confirm_round start s packet =
    let out = deliver s.expect_begin packet in
    record {
      idx = s.idx + 1;
      buffer = set s.buffer (index_of s.buffer start s.idx) none;
      expect_begin = next_expect out s.expect_begin packet;
      sent = s.sent ++ sent_list out;
    }

-- The loop of `confirm`, with `n` packets left from `idx`.
unfoldable pub confirm_loop : ℕ → ℕ → ℕ → Confirming → Option Confirming
unfolding packet_at confirm_round
confirm_loop ack start zero s = some s
confirm_loop ack start (suc n) s = elim (packet_at s.buffer start s.idx) [
  | none ↦ none
  | some packet ↦
      let more = confirm_loop ack start n (confirm_round start s packet) in
      if is_negative (compare_tcp_seq packet.seq ack) then more else some s
]

-- the assignments after the loop of `confirm`, where the buffer is not empty
unfoldable pub confirm_end : ReceiveWindow → ℕ → Confirming → ReceiveWindow
confirm_end w ack s = record w {
  buffer = s.buffer;
  expect_begin = s.expect_begin;
  start = (w.start + s.idx) % length s.buffer;
  size = w.size - s.idx;
  last_ack =
      if is_negative (compare_tcp_seq w.last_ack ack) || w.last_ack == 0 then ack else w.last_ack;
}

abbrev pub before_loop : ReceiveWindow → Confirming
before_loop w = record { idx = 0; buffer = w.buffer; expect_begin = w.expect_begin; sent = [] }

-- `confirm`: the window, and what it sent through the channel; the index modulo the length of an
-- empty buffer panics after the loop
unfoldable pub confirm : ReceiveWindow → ℕ → Option (ReceiveWindow × List Tcp)
unfolding confirm_loop confirm_end
confirm w ack = elim (confirm_loop ack w.start w.size (before_loop w)) [
  | none ↦ none
  | some s ↦ if length s.buffer == 0 then none else some (confirm_end w ack s, s.sent)
]
