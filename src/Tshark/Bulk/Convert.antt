-- ===== src/Tshark/Bulk/Convert.antt =====
-- tshark/bulk/processor.go: `parseTime` and `convert`.
use httshark.Base.{
  Bool, true, false, Option, none, some, List, [], ◌∷◌, Bytes, codes, if◌then◌else◌, ℤ,
}
use httshark.Go.Text.{split, contains}
use httshark.Go.Number.{atoi}
use httshark.Go.Clock.{Time, unix}
use httshark.Core.Entries.{HttpEntry, Entry, request, response}
use httshark.Tshark.Bulk.Layers.{Layers, Stdout}

-- what `Logger.Warn` is told
pub data Warning : Type 0 where
  bad_time_seconds bad_time_nanos missing_tcp_stream bad_tcp_stream bad_dst_port : Warning
  missing_response_code bad_response_code bad_json : Warning

-- A handler returns, returns early after a warning, or panics on an index out of range.
pub data Result {ℓ} (A : Type ℓ) : Type ℓ where
  ok : A → Result A
  warn : Warning → Result A
  panic : Result A

infixl 5 ◌>>=◌
abbrev pub ◌>>=◌ {ℓ κ} : {A : Type ℓ} {B : Type κ} → Result A → (A → Result B) → Result B
ok a >>= f = f a
warn w >>= f = warn w
panic >>= f = panic

-- `xs[0]`
abbrev pub first {ℓ} : {A : Type ℓ} → List A → Result A
first [] = panic
first (x ∷ xs) = ok x

-- `xs[1]`
abbrev pub second {ℓ} : {A : Type ℓ} → List A → Result A
second [] = panic
second (x ∷ []) = panic
second (x ∷ y ∷ xs) = ok y

-- `if err != nil { Warn; return }`
abbrev pub or_warn {ℓ} : {A : Type ℓ} → Option A → Warning → Result A
or_warn none w = warn w
or_warn (some a) w = ok a

-- `if len(xs) > 0 { v = xs[0] }` over the default `d`
abbrev pub first_or : Bytes → List Bytes → Bytes
first_or d [] = d
first_or d (x ∷ xs) = x

abbrev pub is_empty {ℓ} : {A : Type ℓ} → List A → Bool
is_empty [] = true
is_empty (x ∷ xs) = false

unfoldable pub parse_time : Layers → Result Time
parse_time layers = do
  text ← first layers.time
  let epoc = split b'.' text
  whole ← first epoc
  seconds ← or_warn (atoi whole) bad_time_seconds
  fraction ← second epoc
  nanos ← or_warn (atoi fraction) bad_time_nanos
  ok (unix seconds nanos)

-- `sections := strings.Split(requestUri, "?")`, `sections[0]`, `sections[1]`
unfoldable pub cut_uri : Bytes → Result (Bytes × Bytes)
cut_uri request_uri = do
  let sections = split b'?' request_uri
  path ← first sections
  query ← second sections
  ok (path, query)

-- the path and the query of a request
unfoldable pub split_uri : List Bytes → Result (Bytes × Bytes)
unfolding cut_uri
split_uri [] = ok (codes "/", [])
split_uri (request_uri ∷ rest) =
    if contains request_uri (codes "?") then cut_uri request_uri else ok (request_uri, [])

-- the branch `len(layers.IsRequest) > 0`
unfoldable pub convert_request : Layers → HttpEntry → Result (Option Entry)
unfolding split_uri
convert_request layers http_entry = do
  (path, query) ← split_uri layers.request_uri
  dst_ip ← first layers.dst_ip
  dst_port ← first layers.dst_port
  dst_port_int ← or_warn (atoi dst_port) bad_dst_port
  ok (
      some (
        request (record {
          http_entry = record http_entry {
            version = first_or http_entry.version layers.request_version;
            headers = layers.request_line;
          };
          method = first_or [] layers.request_method;
          path = path;
          query = query;
          http_ip_and_port = record { dst_ip = dst_ip; dst_port = dst_port_int };
        })))

-- the branch `len(layers.IsResponse) > 0`
unfoldable pub convert_response : Layers → HttpEntry → Result (Option Entry)
convert_response layers http_entry =
    if is_empty layers.response_code then warn missing_response_code else do
      text ← first layers.response_code
      code ← or_warn (atoi text) bad_response_code
      ok (
          some (
            response (record {
              http_entry = record http_entry {
                version = first_or http_entry.version layers.response_version;
                headers = layers.response_line;
              };
              code = code;
            })))

-- the choice by `IsRequest` and `IsResponse`; `none` is an entry that is ignored
unfoldable pub convert_kind : Layers → HttpEntry → Result (Option Entry)
convert_kind layers http_entry =
    if is_empty layers.is_request
    then if is_empty layers.is_response then ok none else convert_response layers http_entry
    else convert_request layers http_entry

-- `len(layers.TcpStream) == 0` and the number that follows
unfoldable pub parse_stream : Layers → Result ℤ
parse_stream layers =
    if is_empty layers.tcp_stream
    then warn missing_tcp_stream
    else first layers.tcp_stream >>= λ text. or_warn (atoi text) bad_tcp_stream

-- `convert`: `some e` for a call of `HttpProcessor` with `e`, `none` where there is none
unfoldable pub convert : Stdout → Result (Option Entry)
unfolding convert_kind parse_stream
convert json = do
  let layers = json.source.layers
  entry_time ← parse_time layers
  stream ← parse_stream layers
  convert_kind layers (record {
    time = entry_time;
    stream = stream;
    body = first_or [] layers.body;
    version = [];
    headers = [];
  })
