-- ===== src/Dump/Connection/Delivery/Tests.antt =====
-- A handshake's packet, a request, its answer, and the acknowledgement of the answer.
use httshark.Base.{
  ℕ, ◌-◌, ◌<◌, Option, none, some, List, [], ◌∷◌, codes, pos, arith, Bytes, inl, get_elem?, length,
  true,
}
use httshark.Dump.Endpoint.{Endpoint}
use httshark.Dump.Window.Sorted.{IsRegion}
use httshark.Dump.Stream.Tests.{packet}
use httshark.Dump.Connection.Tests.{client, one_round}
use httshark.Dump.Connection.Delivery.{Captured, Flow}

abbrev server : Endpoint
server = record { ip = codes "10.0.0.1"; port = 80 }

abbrev asked : Bytes
asked = codes "GET / HTTP/1.1"

abbrev answered : Bytes
answered = codes "HTTP/1.1 200"

abbrev or_0 : Option ℕ → ℕ
or_0 none = 0
or_0 (some b) = b

abbrev size_in : Bytes → ℕ → ℕ → ℕ
size_in text lo seq = length text - (seq - lo)

up_region : IsRegion 70_000
up_region = (omega arith, inl (omega arith))

down_region : IsRegion 90_000
down_region = (omega arith, inl (omega arith))

up_positive : 0 < 70_000
up_positive = omega arith

down_positive : 0 < 90_000
down_positive = omega arith

abbrev up : Flow
up = record {
  byte_at = λ n. or_0 (get_elem? asked (n - 70_000));
  size_at = size_in asked 70_000;
  lo = 70_000;
  region = up_region;
  positive = up_positive;
}

abbrev down : Flow
down = record {
  byte_at = λ n. or_0 (get_elem? answered (n - 90_000));
  size_at = size_in answered 90_000;
  lo = 90_000;
  region = down_region;
  positive = down_positive;
}

abbrev captured : Endpoint → ℕ → ℕ → Bytes → Captured
captured src seq ack payload = record {
  src = src;
  tcp = record (packet payload) { seq = seq; ack_number = ack; ack = true };
  timestamp = pos 1;
  meanwhile = one_round;
}

abbrev handshake : Captured
handshake = captured client 69_999 0 []

abbrev request : Captured
request = captured client 70_000 90_000 asked

abbrev answer : Captured
answer = captured server 90_000 70_014 answered

abbrev confirmation : Captured
confirmation = captured client 70_014 90_012 []

abbrev exchange : List Captured
exchange = answer ∷ confirmation ∷ []
