-- ===== src/Export/Convert/Tests.antt =====
-- The exporter's `convert` at a concrete transaction.
use httshark.Base.{
  ◌≡◌, refl, true, ◌&&◌, none, some, List, [], ◌∷◌, map, arith, Bytes, codes, pos, length,
  if◌then◌else◌,
}
use httshark.Go.Space.{first_space, last_space}
use httshark.Core.Entries.{HttpRequest, HttpResponse, HttpTransaction}
use httshark.Dump.Header.{convert_headers}
use httshark.Export.Convert.{Outside, get_headers, get_headers_size, should_keep, convert}
use httshark.Export.Convert.Text.{convert_response_text}
use httshark.Export.Convert.Header.{get_headers-convert_headers, IsHeader}

abbrev pub plain : Outside
plain = record { format_time = λ t. []; parse_query = λ query. some []; unicode_lower = λ s. s }

abbrev json_types : List Bytes
json_types = codes "json" ∷ []

abbrev json_header : Bytes
json_header = codes "Content-Type: application/json"

abbrev pub post : HttpRequest
post = record {
  http_entry = record {
    time = pos 5;
    stream = pos 1;
    body = codes "{}";
    version = codes "HTTP/1.1";
    headers = codes "Accept: text/html" ∷ [];
  };
  method = codes "POST";
  path = codes "/orders";
  query = [];
  http_ip_and_port = record { dst_ip = codes "10.0.0.1"; dst_port = pos 80 };
}

abbrev answer : HttpResponse
answer = record {
  http_entry = record {
    time = pos 9;
    stream = pos 1;
    body = codes "[1]";
    version = codes "HTTP/1.1";
    headers = json_header ∷ [];
  };
  code = pos 200;
}

abbrev answered : HttpTransaction
answered = record { request = post; response = some answer }

abbrev pub unanswered : HttpTransaction
unanswered = record { request = post; response = none }

convert_response_text_example :
    let e = convert plain json_types answered in
    (e.response.exists ≡ true)
    × (e.response.content.text ≡ (
        if should_keep plain json_types (get_headers answer.http_entry.headers)
          && should_keep plain json_types (get_headers post.http_entry.headers)
        then answer.http_entry.body
        else []))
    × (e.response.content.size ≡ pos (length answer.http_entry.body))
    × (e.response.body_size ≡ pos (length answer.http_entry.body))
    × (e.response.headers_size ≡ pos (get_headers_size answer.http_entry.headers))
convert_response_text_example = convert_response_text plain json_types answered answer refl

abbrev received : List (Bytes × Bytes × List Bytes)
received =
    (codes "Host", codes "a:80", []) ∷ (codes "Accept", codes "text/html", codes "*" ∷ []) ∷ []

host-IsHeader : IsHeader (codes "Host", codes "a:80", [])
unfolding first_space last_space
host-IsHeader = record {
  no_colon = ground arith;
  name_trimmed = record { front = refl; back = refl };
  value_trimmed = record { front = refl; back = refl };
}

accept-IsHeader : IsHeader (codes "Accept", codes "text/html", codes "*" ∷ [])
unfolding first_space last_space
accept-IsHeader = record {
  no_colon = ground arith;
  name_trimmed = record { front = refl; back = refl };
  value_trimmed = record { front = refl; back = refl };
}

get_headers-convert_headers_example :
    get_headers (convert_headers received) ≡ map (λ h. record { name = h.0; value = h.1 }) received
get_headers-convert_headers_example =
    get_headers-convert_headers received (host-IsHeader, (accept-IsHeader, tt))
