-- ===== src/Export/Convert.antt =====
-- exporters/processor.go: `convert` and what it calls. The layout of a time stamp, the parser of
-- query strings (net/url) and the Unicode part of `strings.ToLower` are arguments.
pub mod Text
pub mod Header
pub mod Tests
use httshark.Base.{
  ℕ, ◌+◌, Bool, true, false, ◌&&◌, ◌||◌, not, Option, none, some, List, [], ◌∷◌, map, Bytes, codes,
  same, if◌then◌else◌, ℤ, pos, negsuc, length, take, drop,
}
use httshark.Go.Text.{index, contains, split, to_lower}
use httshark.Go.Space.{trim_space}
use httshark.Go.Clock.{Time, sub, milliseconds}
use httshark.Core.Entries.{HttpRequest, HttpResponse, HttpTransaction}
use httshark.Har.{Pair, Content, AppIdentifier, Request, Response, Entry, Timings, Cookie}

-- What the exporter takes from elsewhere. `parse_query` gives the keys in the order in which Go
-- walks through the map, each with its first value and the others; `none` is an error.
pub record Outside : Type 0 where
  pub format_time : Time → Bytes
  pub parse_query : Bytes → Option (List (Bytes × Bytes × List Bytes))
  pub unicode_lower : Bytes → Bytes

-- `getHeader`, where `position == -1` is `none`
get_header_at : Bytes → Option ℕ → Pair
get_header_at header none = record { name = header; value = [] }
get_header_at header (some position) = record {
  name = trim_space (take position header);
  value = trim_space (drop (position + 1) header);
}

unfoldable pub get_header : Bytes → Pair
unfolding get_header_at
get_header header = get_header_at header (index header (codes ":"))

-- `getHeaders`
unfoldable pub get_headers : List Bytes → List Pair
get_headers = map get_header

-- `getHeadersSize`
unfoldable pub get_headers_size : List Bytes → ℕ
get_headers_size [] = 0
get_headers_size (h ∷ headers) = length h + get_headers_size headers

-- `shouldKeepContentType`, over the text in lower case
contains_any : Bytes → List Bytes → Bool
contains_any value [] = false
contains_any value (t ∷ types) = contains value t || contains_any value types

module _ (out : Outside) where
  -- `getQueryString`
  unfoldable pub get_query_string : Bytes → List Pair
  get_query_string query = elim (out.parse_query query) [
    | none ↦ []
    | some values ↦ map (λ v. record { name = v.0; value = v.1 }) values
  ]

  module _ (content_types_to_keep : List Bytes) where
    unfoldable pub should_keep_content_type : Bytes → Bool
    unfolding contains_any
    should_keep_content_type value =
        contains_any (to_lower out.unicode_lower value) content_types_to_keep

    -- `shouldKeep`
    unfoldable pub should_keep : List Pair → Bool
    should_keep [] = false
    should_keep (h ∷ headers) =
        (same (to_lower out.unicode_lower h.name) (codes "content-type")
          && should_keep_content_type h.value)
        || should_keep headers

    -- the HAR response when there is none
    abbrev pub no_response : Response
    no_response = record {
      exists = false;
      status = pos 0;
      status_text = [];
      http_version = [];
      redirect_url = [];
      headers = [];
      headers_size = negsuc 0;
      body_size = pos 0;
      cookies = [];
      content = record { size = pos 0; mime_type = []; text = [] };
    }

    -- the branch `response != nil`
    unfoldable pub convert_response : HttpResponse → Response
    convert_response r =
        let headers = get_headers r.http_entry.headers in
        record {
          exists = true;
          status = r.code;
          status_text = [];
          http_version = r.http_entry.version;
          redirect_url = [];
          headers = headers;
          headers_size = pos (get_headers_size r.http_entry.headers);
          body_size = pos (length r.http_entry.body);
          cookies = [];
          content = record {
            size = pos (length r.http_entry.body);
            mime_type = [];
            text = if not (should_keep headers) then [] else r.http_entry.body;
          };
        }

    unfoldable pub convert_request : HttpRequest → Request
    convert_request r = record {
      method = r.method;
      url = r.path;
      http_version = r.http_entry.version;
      headers = get_headers r.http_entry.headers;
      query_string = get_query_string r.query;
      cookies = [];
      headers_size = pos (get_headers_size r.http_entry.headers);
      body_size = pos (length r.http_entry.body);
      content = record {
        size = pos (length r.http_entry.body);
        mime_type = [];
        text = r.http_entry.body;
      };
      app_id = record {
        dst_ip = r.http_ip_and_port.dst_ip;
        dst_port = r.http_ip_and_port.dst_port;
      };
    }

    -- `harResponse.Content.Text = ""`
    unfoldable pub clear_text : Response → Response
    clear_text r = let content = r.content in record r { content = record content { text = [] } }

    abbrev zero_timings : Timings
    zero_timings = record { send = pos 0; wait = pos 0; receive = pos 0 }

    -- the response and the duration
    unfoldable pub convert_answer : HttpTransaction → Response × ℤ
    unfolding convert_response
    convert_answer t = elim t.response [
      | none ↦ (no_response, pos 0)
      | some r ↦
          (convert_response r, milliseconds (sub r.http_entry.time t.request.http_entry.time))
    ]

    -- `convert`
    unfoldable pub convert : HttpTransaction → Entry
    unfolding convert_answer convert_request clear_text
    convert t =
        let (har_response, duration) = convert_answer t in
        let har_request = convert_request t.request in
        record {
          started = out.format_time t.request.http_entry.time;
          time = duration;
          request = har_request;
          response =
              if not (should_keep har_request.headers)
              then clear_text har_response
              else har_response;
          timings = zero_timings;
          cache = zero_timings;
        }
