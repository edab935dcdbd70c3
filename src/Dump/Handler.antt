-- ===== src/Dump/Handler.antt =====
-- httpdump/http_traffic_handler.go: the goroutine that reads requests and responses from the two
-- streams of a connection. What `http.ReadRequest`, `http.ReadResponse` and the reads of bodies
-- give is an argument, in the order of the calls; so is the connection's `lastTimestamp` after each
-- call, which another goroutine sets.
pub mod Session
mod Tests
use httshark.Base.{
  Bool, true, false, ◌&&◌, Option, none, some, List, [], ◌∷◌, ◌++◌, Bytes, codes, same, ℤ, pos,
  eq_ℤ, if◌then◌else◌,
}
use httshark.Go.Clock.{Time}
use httshark.Core.Entries.{HttpEntry, HttpRequest, HttpResponse, HttpTransaction, HttpIpAndPort}
use httshark.Dump.Endpoint.{Endpoint}
use httshark.Dump.Header.{convert_headers}
use httshark.Dump.Stream.{close}
use httshark.Dump.Connection.{TcpConnection}

abbrev pub Header : Type 0
Header = List (Bytes × Bytes × List Bytes)

-- `Get`: the first value of the name
abbrev pub header_get : Bytes → Header → Bytes
header_get name [] = []
header_get name ((key, value, more) ∷ header) =
    if same key name then value else header_get name header

-- The parts of `*http.Request` that are read. `ioutil.ReadAll` of the body gives `first_read`, and
-- where it is called again `second_read`; `none` is an error. The last two tell whether
-- `discardAll` of the body meets an error other than the end of file, at its calls.
pub record Request : Type 0 where
  pub method : Bytes
  pub host : Bytes
  pub path : Bytes
  pub raw_query : Bytes
  pub proto : Bytes
  pub header : Header
  pub first_read : Option Bytes
  pub second_read : Option Bytes
  pub first_discard_fails : Bool
  pub second_discard_fails : Bool

pub record Response : Type 0 where
  pub status_code : ℤ
  pub proto : Bytes
  pub header : Header
  pub body : Option Bytes

-- a call of `http.ReadRequest`, with `lastTimestamp` after it
pub data RequestRead : Type 0 where
  request : Request → Time → RequestRead
  request_eof request_error : Time → RequestRead

-- a call of `http.ReadResponse`; `response_eof` is `io.EOF` or `io.ErrUnexpectedEOF`
pub data ResponseRead : Type 0 where
  response : Response → Time → ResponseRead
  response_eof response_error : ResponseRead

-- the calls of `aggregated.Warn`, without the text of the error
pub data Warning : Type 0 where
  parsing_request parsing_response parsing_continue : Warning
  request_body response_body discarding : Warning

-- `HTTPTrafficHandler` without `buffer`, which is never read, with the transactions for which
-- `processor` was called and the warnings. A transaction has the times as they are at its call.
pub record HttpTrafficHandler : Type 0 where
  pub start_time : Time
  pub end_time : Time
  pub key : Endpoint × Endpoint
  pub original_key : Bytes
  pub sent : List HttpTransaction
  pub warned : List Warning

-- `newHttpTrafficHandler`; the zero `time.Time` is an argument
unfoldable pub new_http_traffic_handler :
    Time → Bytes → Endpoint → Endpoint → TcpConnection → HttpTrafficHandler
new_http_traffic_handler zero_time original_key src dst connection = record {
  start_time = connection.last_timestamp;
  end_time = zero_time;
  key = (src, dst);
  original_key = original_key;
  sent = [];
  warned = [];
}

abbrev pub warn : Warning → HttpTrafficHandler → HttpTrafficHandler
warn w h = record h { warned = h.warned ++ (w ∷ []) }

-- `discardAll`
abbrev pub discard_all : Bool → HttpTrafficHandler → HttpTrafficHandler
discard_all fails h = if fails then warn discarding h else h

-- the request of a transaction in `report`
unfoldable pub request_of : Request → Bytes → Time → HttpRequest
request_of req body time = record {
  http_entry = record {
    time = time;
    stream = pos 0;
    body = body;
    version = req.proto;
    headers = convert_headers req.header;
  };
  method = req.method;
  path = codes "http://" ++ (req.host ++ req.path);
  query = req.raw_query;
  http_ip_and_port = record { dst_ip = []; dst_port = pos 0 };
}

-- the response of a transaction in `report`
unfoldable pub response_of : Response → Bytes → Time → HttpResponse
response_of res body time = record {
  http_entry = record {
    time = time;
    stream = pos 0;
    body = body;
    version = res.proto;
    headers = convert_headers res.header;
  };
  code = res.status_code;
}

abbrev pub send : HttpRequest → Option HttpResponse → HttpTrafficHandler → HttpTrafficHandler
send req res h = record h { sent = h.sent ++ (record { request = req; response = res } ∷ []) }

-- `report` from the response on
unfoldable pub report_response :
    HttpRequest → Option Response → HttpTrafficHandler → HttpTrafficHandler
unfolding response_of
report_response req none h = send req none h
report_response req (some res) h = elim res.body as (λ x. HttpTrafficHandler) [
  | some body ↦ send req (some (response_of res body h.end_time)) h
  | none ↦ send req (some (response_of res (codes "UNKNOWN") h.end_time)) (warn response_body h)
]

-- `report`, with what `ioutil.ReadAll(req.Body)` gives
unfoldable pub report :
    Option Bytes → Request → Option Response → HttpTrafficHandler → HttpTrafficHandler
unfolding request_of report_response
report none req res h = warn request_body h
report (some body) req res h = report_response (request_of req body h.start_time) res h

-- how a turn of the loop of `handle` ends, with the responses that are left
pub data Turn : Type 0 where
  goes_on : HttpTrafficHandler → List ResponseRead → Turn
  breaks : HttpTrafficHandler → Turn
  waits : HttpTrafficHandler → Turn

abbrev pub expect_continue : Request → Bool
expect_continue req = same (header_get (codes "Expect") req.header) (codes "100-continue")

-- the part for the real response after a code 100
unfoldable pub read_continued : Request → List ResponseRead → HttpTrafficHandler → Turn
unfolding report
read_continued req [] h = waits h
read_continued req (response res time ∷ reads) h =
    goes_on (report req.second_read req (some res) h) reads
read_continued req (response_eof ∷ reads) h =
    breaks (discard_all req.second_discard_fails (report req.second_read req none h))
read_continued req (response_error ∷ reads) h = breaks (
    discard_all req.second_discard_fails
      (report req.second_read req none (warn parsing_continue h)))

-- a turn from the first `http.ReadResponse` on
unfoldable pub read_answer : Request → List ResponseRead → HttpTrafficHandler → Turn
unfolding read_continued report
read_answer req [] h = waits h
read_answer req (response res time ∷ reads) h =
    let reported = report req.first_read req (some res) (record h { end_time = time }) in
    let h' = discard_all req.first_discard_fails reported in
    if expect_continue req && eq_ℤ res.status_code (pos 100)
    then read_continued req reads h'
    else goes_on h' reads
read_answer req (response_eof ∷ reads) h =
    breaks (discard_all req.first_discard_fails (report req.first_read req none h))
read_answer req (response_error ∷ reads) h =
    breaks (
      discard_all req.first_discard_fails
        (report req.first_read req none (warn parsing_response h)))

-- the loop of `handle`: how it stands when it has broken off, or waits for a read
pub data Loop : Type 0 where
  ended : HttpTrafficHandler → Loop
  waiting : HttpTrafficHandler → Loop

unfoldable pub loop : List RequestRead → List ResponseRead → HttpTrafficHandler → Loop
unfolding read_answer
loop [] responses h = waiting h
loop (request_eof time ∷ requests) responses h = ended (record h { start_time = time })
loop (request_error time ∷ requests) responses h =
    ended (warn parsing_request (record h { start_time = time }))
loop (request req time ∷ requests) responses h =
    elim (read_answer req responses (record h { start_time = time })) [
      | goes_on h' responses' ↦ loop requests responses' h'
      | breaks h' ↦ ended h'
      | waits h' ↦ waiting h'
    ]

-- the calls that `handle` has deferred: whether each discarding fails, and the connection
unfoldable pub leave :
    Bool → Bool → TcpConnection → HttpTrafficHandler → HttpTrafficHandler × TcpConnection
leave response_fails request_fails connection h = (
  discard_all request_fails (discard_all response_fails h),
  record connection {
    down_stream = close connection.down_stream;
    up_stream = close connection.up_stream;
  },
)

-- What a transaction reads once the handler has gone on: its times are pointers to the handler's.
unfoldable pub read_later : HttpTrafficHandler → HttpTransaction → HttpTransaction
read_later h t =
    let req = t.request in
    let req_entry = t.request.http_entry in
    let asked = record req { http_entry = record req_entry { time = h.start_time } } in
    record t {
      request = asked;
      response = elim t.response as (λ x. Option HttpResponse) [
        | none ↦ none
        | some res ↦
            let res_entry = res.http_entry in
            some (record res { http_entry = record res_entry { time = h.end_time } })
      ];
    }

-- `handle`, where it comes to an end
unfoldable pub handle :
    List RequestRead
    → List ResponseRead
    → Bool
    → Bool
    → TcpConnection
    → HttpTrafficHandler
    → Option (HttpTrafficHandler × TcpConnection)
unfolding loop leave
handle requests responses response_fails request_fails connection h =
    elim (loop requests responses h) [
      | ended h' ↦ some (leave response_fails request_fails connection h')
      | waiting h' ↦ none
    ]
