-- ===== src/Core/Entries.antt =====
-- core/http_entries.go: requests, responses and transactions.
use httshark.Base.{Option, List, [], Bytes, ℤ, pos}
use httshark.Go.Clock.{Time}

-- `Time` is a pointer that every producer sets, so that it is the instant here; `body` is `Data`.
pub record HttpEntry : Type 0 where
  pub time : Time
  pub stream : ℤ
  pub body : Bytes
  pub version : Bytes
  pub headers : List Bytes

pub record HttpIpAndPort : Type 0 where
  pub dst_ip : Bytes
  pub dst_port : ℤ

-- The embedded `HttpEntry` is the field `http_entry`.
pub record HttpRequest : Type 0 where
  pub http_entry : HttpEntry
  pub method : Bytes
  pub path : Bytes
  pub query : Bytes
  pub http_ip_and_port : HttpIpAndPort

pub record HttpResponse : Type 0 where
  pub http_entry : HttpEntry
  pub code : ℤ

pub record HttpTransaction : Type 0 where
  pub request : HttpRequest
  pub response : Option HttpResponse

-- What goes through the correlator's `chan interface{}`: a request, a response or anything else.
pub data Entry : Type 0 where
  request : HttpRequest → Entry
  response : HttpResponse → Entry
  other : Entry

-- The zero value of a request, which a read of a missing key gives.
abbrev pub zero_request : HttpRequest
zero_request = record {
  http_entry = record { time = pos 0; stream = pos 0; body = []; version = []; headers = [] };
  method = [];
  path = [];
  query = [];
  http_ip_and_port = record { dst_ip = []; dst_port = pos 0 };
}
