-- ===== src/Dump/Packet.antt =====
-- The fields of gopacket's `layers.TCP` that package httpdump reads. Sequence numbers, here and
-- below, are numbers below 2 ^ 32; `seq` is `Seq`, `ack_number` is `Ack`, `ack` the flag `ACK`.
use httshark.Base.{ℕ, Bool, Bytes}

pub record Tcp : Type 0 where
  pub src_port : ℕ
  pub dst_port : ℕ
  pub seq : ℕ
  pub ack_number : ℕ
  pub syn : Bool
  pub ack : Bool
  pub fin : Bool
  pub rst : Bool
  pub payload : Bytes
