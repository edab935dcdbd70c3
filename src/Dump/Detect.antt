-- ===== src/Dump/Detect.antt =====
-- httpdump/tcp_assembly.go: `isHTTPRequestData`.
pub mod Iff
use httshark.Base.{
  ℕ, suc, Bool, true, false, ◌||◌, Option, none, some, List, [], ◌∷◌, Bytes, codes, same, ◌==◌, ltb,
  if◌then◌else◌, length, take,
}

-- `httpMethods`
abbrev pub http_methods : List Bytes
http_methods =
    codes "GET"
    ∷ codes "POST"
    ∷ codes "PUT"
    ∷ codes "DELETE"
    ∷ codes "HEAD"
    ∷ codes "TRACE"
    ∷ codes "OPTIONS"
    ∷ codes "PATCH"
    ∷ []

abbrev pub is_member : Bytes → List Bytes → Bool
is_member s [] = false
is_member s (t ∷ ts) = same s t || is_member s ts

abbrev pub next_index : Option ℕ → Option ℕ
next_index none = none
next_index (some i) = some (suc i)

-- `bytes.IndexByte`, with `none` for -1
unfoldable pub index_byte : ℕ → Bytes → Option ℕ
index_byte b [] = none
index_byte b (c ∷ s) = if c == b then some 0 else next_index (index_byte b s)

abbrev pub names_method : Bytes → Option ℕ → Bool
names_method front none = false
names_method front (some idx) = is_member (take idx front) http_methods

-- `isHTTPRequestData`
unfoldable pub is_http_request_data : Bytes → Bool
is_http_request_data body =
    let front = take 8 body in
    if ltb (length body) 8 then false else names_method front (index_byte b' ' front)
