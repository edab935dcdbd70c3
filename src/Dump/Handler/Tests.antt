-- ===== src/Dump/Handler/Tests.antt =====
-- A handler on a connection with three requests, two of which expect the code 100.
use httshark.Base.{◌≡◌, refl, true, false, none, some, List, [], ◌∷◌, ◌++◌, codes, ℤ, pos}
use httshark.Core.Entries.{HttpTransaction}
use httshark.Dump.Connection.{TcpConnection, new_tcp_connection}
use httshark.Dump.Handler.{
  Request, Response, HttpTrafficHandler, new_http_traffic_handler, handle, read_later, Header,
}
use httshark.Dump.Handler.Session.{
  Item, answered, continued, requests_of, responses_of, End, failed, not_continued, request_at,
  responses_at, reported_of, reported_at,
}
use httshark.Dump.Handler.Session.Ended.{handle_session}

abbrev connection : TcpConnection
connection = new_tcp_connection (pos 0) (codes "10.0.0.7:51000-10.0.0.1:80")

abbrev handler : HttpTrafficHandler
handler =
    new_http_traffic_handler (pos 0) (codes "key") (record { ip = codes "10.0.0.7"; port = 51000 })
      (record { ip = codes "10.0.0.1"; port = 80 }) connection

abbrev put_with : Header → Request
put_with header = record {
  method = codes "PUT";
  host = codes "shop";
  path = codes "/orders";
  raw_query = [];
  proto = codes "HTTP/1.1";
  header = header;
  first_read = some (codes "{}");
  second_read = some [];
  first_discard_fails = false;
  second_discard_fails = false;
}

abbrev answer_with : ℤ → Response
answer_with code = record { status_code = code; proto = codes "HTTP/1.1"; header = []; body = none }

abbrev expecting : Request
expecting = put_with ((codes "Expect", codes "100-continue", []) ∷ [])

abbrev session : List Item
session =
    answered (put_with []) (pos 5) (answer_with (pos 201)) (pos 6)
    ∷ continued expecting (pos 7) (answer_with (pos 100)) (pos 8) (answer_with (pos 201)) (pos 9)
    ∷ []

-- the last answer cannot be read
abbrev last_request : End
last_request = not_continued expecting (pos 10) (answer_with (pos 100)) (pos 11) failed

handle_session_example :
    (h' : HttpTrafficHandler) × (connection' : TcpConnection) × (handle
        (requests_of session ++ (request_at last_request ∷ []))
        (responses_of session ++ (responses_at last_request ++ []))
        true
        false
        connection
        handler
      ≡ some (h', connection'))
    × (h'.sent ≡ handler.sent ++ (reported_of session ++ reported_at last_request))
    × (connection'.up_stream.ignore ≡ true)
    × (connection'.down_stream.ignore ≡ true)
    × ((t : HttpTransaction) → (read_later h' t).request.http_entry.time ≡ pos 10)
handle_session_example =
    handle_session session last_request [] [] true false connection handler (refl, (refl, tt)) refl
