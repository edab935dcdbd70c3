-- ===== src/Tshark/Bulk/Tests.antt =====
-- Runs of the bulk processor, and its theorems at concrete inputs.
use httshark.Base.{
  ◌≡◌, ◌≢◌, refl, true, List, [], ◌∷◌, Bytes, codes, arith, pos, some, ◌+◌, ◌*◌, ◌+ℤ◌, ◌*ℤ◌,
}
use httshark.Go.Text.{split, contains}
use httshark.Go.Number.{atoi, value}
use httshark.Go.Clock.{unix}
use httshark.Core.Entries.{HttpRequest, request}
use httshark.Tshark.Bulk.Layers.{Layers, Stdout}
use httshark.Tshark.Bulk.Convert.{convert_request, ok, panic, parse_time, split_uri, convert}
use httshark.Tshark.Bulk.Instant.{parse_time_lem}
use httshark.Tshark.Bulk.Safety.{IsComplete, convert-ne-panic}
use httshark.Tshark.Bulk.Fields.{Describes, convert-Describes}

abbrev one : Bytes → List Bytes
one s = s ∷ []

abbrev pub get_packet : Layers
get_packet = record {
  time = one (codes "1586165861.751442868");
  tcp_stream = one (codes "7");
  body = [];
  dst_ip = one (codes "10.0.0.1");
  dst_port = one (codes "80");
  is_request = one (codes "1");
  request_method = one (codes "GET");
  request_version = one (codes "HTTP/1.1");
  request_line = one (codes "Host: example.com");
  request_uri = one (codes "/a?x=1");
  is_response = [];
  response_version = [];
  response_code = [];
  response_line = [];
}

abbrev pub get_json : Stdout
get_json = record { source = record { layers = get_packet } }

abbrev pub get_request : HttpRequest
get_request = record {
  http_entry = record {
    time = pos 1_586_165_861_751_442_868;
    stream = pos 7;
    body = [];
    version = codes "HTTP/1.1";
    headers = one (codes "Host: example.com");
  };
  method = codes "GET";
  path = codes "/a";
  query = codes "x=1";
  http_ip_and_port = record { dst_ip = codes "10.0.0.1"; dst_port = pos 80 };
}

convert_get : convert get_json ≡ ok (some (request get_request))
unfolding convert convert_request parse_time unix split_uri split atoi contains ◌+ℤ◌ ◌*ℤ◌
convert_get = refl

parse_time_lem_example :
    parse_time get_packet
    ≡ ok (pos (value 0 (codes "1586165861") * 1_000_000_000 + value 0 (codes "751442868")))
parse_time_lem_example =
    parse_time_lem get_packet (codes "1586165861") (codes "751442868") [] refl (cc) (cc)
      (omega arith) (omega arith) (omega arith) (omega arith)

has_point : contains (codes "1586165861.751442868") (codes ".") ≡ true
unfolding contains
has_point = refl

get_packet-IsComplete : IsComplete get_packet
get_packet-IsComplete = record {
  time_text = codes "1586165861.751442868";
  time_more = [];
  has_time = refl;
  has_point = has_point;
  has_ip = λ h. cc;
  has_port = λ h. cc;
}

convert-ne-panic_example : convert get_json ≢ panic
convert-ne-panic_example = convert-ne-panic get_json get_packet-IsComplete

convert-Describes_example : Describes get_packet (request get_request)
convert-Describes_example = convert-Describes get_json (request get_request) convert_get

-- A time without a point is a panic.
no_point :
    convert (record { source = record { layers = record get_packet { time = one (codes "12") } } })
    ≡ panic
unfolding convert parse_time split atoi
no_point = refl
