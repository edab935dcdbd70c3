-- ===== src/Tshark/Bulk/Safety.antt =====
-- When `convert` cannot panic, and what it sends on of what it reads.
use httshark.Base.{
  ◌≡◌, ◌≢◌, refl, true, false, some, List, [], ◌∷◌, arith, Bytes, codes, ◌==◌, ℕ, Bool-cases, inl,
  inr,
}
use httshark.Go.Text.{contains, grow, split, split-ne-nil}
use httshark.Go.Number.{atoi}
use httshark.Core.Entries.{HttpEntry, Entry, request, response, other}
use httshark.Tshark.Bulk.Layers.{Layers, Stdout}
use httshark.Tshark.Bulk.Convert.{
  Result, ok, warn, panic, first, first_or, second, parse_time, parse_stream, split_uri,
  convert_request, convert_response, convert_kind, convert, ◌>>=◌,
}

-- What tshark's output gives: a time with a point, and the destination of each request.
pub record IsComplete (layers : Layers) : Type 0 where
  pub time_text : Bytes
  pub time_more : List Bytes
  pub has_time : layers.time ≡ time_text ∷ time_more
  pub has_point : contains time_text (codes ".") ≡ true
  pub has_ip : layers.is_request ≢ [] → layers.dst_ip ≢ []
  pub has_port : layers.is_request ≢ [] → layers.dst_port ≢ []

second_of_cons {ℓ} : {A : Type ℓ} (x : A) (xs : List A) → xs ≢ [] → second (x ∷ xs) ≢ panic
second_of_cons x [] h = absurd (h refl)
second_of_cons x (y ∷ ys) h = cc

second-grow : (c : ℕ) (ps : List Bytes) → second ps ≢ panic → second (grow c ps) ≢ panic
second-grow c [] h = absurd (h refl)
second-grow c (p ∷ []) h = absurd (h refl)
second-grow c (p ∷ q ∷ ps) h = cc

contains_tail :
    (sep c : ℕ) (s : Bytes)
    → (c == sep) ≡ false
    → contains (c ∷ s) (sep ∷ []) ≡ true
    → contains s (sep ∷ []) ≡ true
unfolding contains
contains_tail sep c s e h = ground arith

contains-nil : (sep : ℕ) → contains [] (sep ∷ []) ≡ false
unfolding contains
contains-nil sep = refl

-- A text with the separator in it is cut into two parts at least.
second-split : (sep : ℕ) (s : Bytes) → contains s (sep ∷ []) ≡ true → second (split sep s) ≢ panic
unfolding split
second-split sep [] h = cc (contains-nil sep)
second-split sep (c ∷ s) h = elim (Bool-cases (c == sep)) [
  | inl e ↦ rw e (second_of_cons [] (split sep s) (split-ne-nil sep s))
  | inr e ↦ rw e (second-grow c (split sep s) (second-split sep s (contains_tail sep c s e h)))
]

first-split : (sep : ℕ) (s : Bytes) → first (split sep s) ≢ panic
first-split sep s = go (split sep s) (split-ne-nil sep s)
  where
    go : (ps : List Bytes) → ps ≢ [] → first ps ≢ panic
    go [] h = absurd (h refl)
    go (p ∷ ps) h = cc

split_uri-ne-panic : (uris : List Bytes) → split_uri uris ≢ panic
unfolding split_uri
split_uri-ne-panic [] = cc
split_uri-ne-panic (u ∷ us) = ground (arith, second-split b'?' u, first-split b'?' u)

parse_time-ne-panic : (layers : Layers) → IsComplete layers → parse_time layers ≢ panic
unfolding parse_time
parse_time-ne-panic layers c =
    ground
      (arith, c.has_time, second-split b'.' c.time_text c.has_point, first-split b'.' c.time_text)

parse_stream-ne-panic : (layers : Layers) → parse_stream layers ≢ panic
unfolding parse_stream
parse_stream-ne-panic layers = ground arith

convert_kind-ne-panic :
    (layers : Layers) (h : HttpEntry) → IsComplete layers → convert_kind layers h ≢ panic
unfolding convert_kind convert_request convert_response
convert_kind-ne-panic layers h c =
    ground (arith, c.has_ip, c.has_port, split_uri-ne-panic layers.request_uri)

>>=-ne-panic {ℓ κ} :
    {A : Type ℓ} {B : Type κ} (m : Result A) (f : A → Result B)
    → m ≢ panic
    → ((a : A) → f a ≢ panic)
    → (m >>= f) ≢ panic
>>=-ne-panic (ok a) f h k = k a
>>=-ne-panic (warn w) f h k = cc
>>=-ne-panic panic f h k = absurd (h refl)

-- An entry with a time that has a point, whose requests come with an address and a port, never
-- makes the handler read out of range, whatever its other fields are.
pub convert-ne-panic : (json : Stdout) → IsComplete json.source.layers → convert json ≢ panic
unfolding convert
convert-ne-panic json c =
    >>=-ne-panic (parse_time json.source.layers) _ (parse_time-ne-panic json.source.layers c) λ t.
      >>=-ne-panic (parse_stream json.source.layers) _ (parse_stream-ne-panic json.source.layers)
        λ n. convert_kind-ne-panic json.source.layers _ c

-- how an entry sent on agrees with what is read of the packet
abbrev pub Agrees : Layers → Entry → Type 0
Agrees layers (request r) =
    (layers.is_request ≢ [])
    × (parse_time layers ≡ ok r.http_entry.time)
    × (parse_stream layers ≡ ok r.http_entry.stream)
    × (r.http_entry.body ≡ first_or [] layers.body)
    × (r.http_entry.headers ≡ layers.request_line)
    × (r.method ≡ first_or [] layers.request_method)
    × (split_uri layers.request_uri ≡ ok (r.path, r.query))
    × (first layers.dst_ip ≡ ok r.http_ip_and_port.dst_ip)
    × (layers.dst_port ≢ [])
    × ((text : Bytes)
        → first layers.dst_port ≡ ok text
        → atoi text ≡ some r.http_ip_and_port.dst_port)
Agrees layers (response r) =
    (layers.is_request ≡ [])
    × (layers.is_response ≢ [])
    × (parse_time layers ≡ ok r.http_entry.time)
    × (parse_stream layers ≡ ok r.http_entry.stream)
    × (r.http_entry.body ≡ first_or [] layers.body)
    × (r.http_entry.headers ≡ layers.response_line)
    × (layers.response_code ≢ [])
    × ((text : Bytes) → first layers.response_code ≡ ok text → atoi text ≡ some r.code)
Agrees layers other = ⊥

pub convert-Agrees :
    (json : Stdout) (e : Entry) → convert json ≡ ok (some e) → Agrees json.source.layers e
unfolding convert convert_kind convert_request convert_response
convert-Agrees json (request r) h = ground arith
convert-Agrees json (response r) h = ground arith
convert-Agrees json other h = ground arith
