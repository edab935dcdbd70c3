-- ===== src/Tshark/Bulk/Fields.antt =====
-- tshark/bulk/processor.go: what the fields of a packet say, and that an entry sent on says the same.
use mathlib.Core.Path.{subst₂}
use httshark.Base.{
  ◌≡◌, ◌≢◌, ◌⊎◌, refl, ap, ◌∙◌, false, Option, none, some, List, [], ◌∷◌, ◌++◌, arith, Bytes, codes,
  ◌==◌, ==_iff, ℕ, ℤ, Bool-cases, List-cases, inl, inr,
}
use httshark.Go.Text.{contains, Lacks, grow, split}
use httshark.Go.Number.{atoi}
use httshark.Go.Clock.{Time, unix}
use httshark.Core.Entries.{Entry, request, response, other}
use httshark.Tshark.Bulk.Layers.{Layers, Stdout}
use httshark.Tshark.Bulk.Convert.{
  Result, ok, warn, panic, first, first_or, second, or_warn, Warning, bad_time_seconds,
  bad_time_nanos, parse_time, parse_stream, cut_uri, split_uri, convert, ◌>>=◌,
}
use httshark.Tshark.Bulk.Safety.{convert-Agrees}

-- A text ends with `p`, or goes on behind `p` and a separator.
abbrev pub Begins : ℕ → Bytes → Bytes → Type 0
Begins sep s p = Lacks sep p × ((s ≡ p) ⊎ ((rest : Bytes) × (s ≡ p ++ (sep ∷ rest))))

-- The parts of a text before its first separator, and between that one and the next or the end.
abbrev pub Cut : ℕ → Bytes → Bytes → Bytes → Type 0
Cut sep s p q = Lacks sep p × ((rest : Bytes) × (s ≡ p ++ (sep ∷ rest)) × Begins sep rest q)

-- The first text of a field is a number.
abbrev pub IsNumber : List Bytes → ℤ → Type 0
IsNumber field n =
    (text : Bytes) × (more : List Bytes) × (field ≡ text ∷ more) × (atoi text ≡ some n)

-- The first text of a field is a time: seconds, a point and nanoseconds.
abbrev pub IsTime : List Bytes → Time → Type 0
IsTime field t =
    (text : Bytes) × (more : List Bytes) × (whole fraction : Bytes) × (seconds nanos : ℤ) × (field
      ≡ text ∷ more)
    × Cut b'.' text whole fraction
    × (atoi whole ≡ some seconds)
    × (atoi fraction ≡ some nanos)
    × (t ≡ unix seconds nanos)

-- The path and the query of a field: none at all, a text without a question mark, or one with it.
abbrev pub IsUri : List Bytes → Bytes → Bytes → Type 0
IsUri field path query =
    ((field ≡ []) × (path ≡ codes "/") × (query ≡ []))
    ⊎ ((uri : Bytes) × (more : List Bytes) × (field ≡ uri ∷ more)
        × ((Lacks b'?' uri × (path ≡ uri) × (query ≡ [])) ⊎ Cut b'?' uri path query))

-- how the first part of `split` ends
abbrev Ends : ℕ → Bytes → Bytes → List Bytes → Type 0
Ends sep s p ps =
    ((ps ≡ []) × (s ≡ p)) ⊎ ((rest : Bytes) × (s ≡ p ++ (sep ∷ rest)) × (ps ≡ split sep rest))

split_head :
    (sep : ℕ) (s : Bytes)
    → (p : Bytes) × (ps : List Bytes) × (split sep s ≡ p ∷ ps) × Lacks sep p × Ends sep s p ps
unfolding split
split_head sep [] = ([], [], refl, tt, inl (refl, refl))
split_head sep (c ∷ s) = elim (Bool-cases (c == sep)) [
  | inl t ↦ ([], split sep s, rw t, tt, inr (s, ap (λ b. b ∷ s) ((==_iff c sep).0 t), refl))
  | inr f ↦
      let (p, ps, e, lacks, end) = split_head sep s in
      (
        c ∷ p,
        ps,
        rw f (ap (grow c) e),
        ((λ q. absurd (ground (arith, f, q))), lacks),
        longer p ps end,
      )
]
  where
    longer : (p : Bytes) (ps : List Bytes) → Ends sep s p ps → Ends sep (c ∷ s) (c ∷ p) ps
    longer p ps (inl (n, e)) = inl (n, ap (λ l. c ∷ l) e)
    longer p ps (inr (rest, e, q)) = inr (rest, ap (λ l. c ∷ l) e, q)

module _ (sep : ℕ) where
  begins : (s p : Bytes) (ps : List Bytes) → Lacks sep p → Ends sep s p ps → Begins sep s p
  begins s p ps lacks (inl (n, e)) = (lacks, inl e)
  begins s p ps lacks (inr (rest, e, q)) = (lacks, inr (rest, e))

  ok_of_ok : {A : Type 0} → (a b : A) → ok a ≡ ok b → a ≡ b
  ok_of_ok a b h = cc

  -- what `split` gives as the first two parts
  Cut-split :
      (s p q : Bytes) → first (split sep s) ≡ ok p → second (split sep s) ≡ ok q → Cut sep s p q
  Cut-split s p q hp hq =
      let (p', ps, e, lacks, end) = split_head sep s in
      let same : p' ≡ p = ok_of_ok p' p (rw e at hp) in
      rw (← same) (lacks, from p' ps end (rw e at hq))
    where
      from :
          (p' : Bytes) (ps : List Bytes)
          → Ends sep s p' ps
          → second (p' ∷ ps) ≡ ok q
          → (rest : Bytes) × (s ≡ p' ++ (sep ∷ rest)) × Begins sep rest q
      from p' [] (inl (n, e)) h = absurd (cc)
      from p' (x ∷ ps) (inl (n, e)) h = absurd (cc)
      from p' ps (inr (rest, e, parts)) h =
          let (q', qs, e', lacks', end') = split_head sep rest in
          let all : ps ≡ q' ∷ qs = parts ∙ e' in
          let same : q' ≡ q = ok_of_ok q' q (rw all at h) in
          (rest, e, rw (← same) (begins rest q' qs lacks' end'))

first-eq-ok :
    (xs : List Bytes) (x : Bytes) → first xs ≡ ok x → (more : List Bytes) × (xs ≡ x ∷ more)
first-eq-ok [] x h = absurd (cc)
first-eq-ok (y ∷ xs) x h = (xs, cc)

or_warn-eq-ok : (o : Option ℤ) (w : Warning) (n : ℤ) → or_warn o w ≡ ok n → o ≡ some n
or_warn-eq-ok none w n h = absurd (cc)
or_warn-eq-ok (some m) w n h = cc

-- A handler that returns has returned from its first step, and from the rest with what that gave.
steps_of :
    {A B : Type 0} {b : B} (next : A → Result B) (r : Result A)
    → (r >>= next) ≡ ok b
    → (x : A) × (next x ≡ ok b) × (r ≡ ok x)
steps_of next panic q = absurd (cc)
steps_of next (warn w) q = absurd (cc)
steps_of next (ok x) q = (x, q, refl)

parse_time-IsTime : (layers : Layers) (t : Time) → parse_time layers ≡ ok t → IsTime layers.time t
unfolding parse_time
parse_time-IsTime layers t h =
    let (text, h₁, at_text) = steps_of _ (first layers.time) h in
    let (whole, h₂, at_whole) = steps_of _ (first (split b'.' text)) h₁ in
    let (seconds, h₃, read) = steps_of _ (or_warn (atoi whole) bad_time_seconds) h₂ in
    let (fraction, h₄, at_fraction) = steps_of _ (second (split b'.' text)) h₃ in
    let (nanos, h₅, read') = steps_of _ (or_warn (atoi fraction) bad_time_nanos) h₄ in
    let (more, is_first) = first-eq-ok layers.time text at_text in
    (
      text,
      more,
      whole,
      fraction,
      seconds,
      nanos,
      is_first,
      Cut-split b'.' text whole fraction at_whole at_fraction,
      or_warn-eq-ok (atoi whole) bad_time_seconds seconds read,
      or_warn-eq-ok (atoi fraction) bad_time_nanos nanos read',
      cc,
    )

parse_stream-IsNumber :
    (layers : Layers) (n : ℤ) → parse_stream layers ≡ ok n → IsNumber layers.tcp_stream n
unfolding parse_stream
parse_stream-IsNumber layers n h = elim (List-cases layers.tcp_stream) [
  | inl e ↦ absurd (ground arith)
  | inr (text, more, e) ↦ (text, more, e, ground arith)
]

Lacks-contains : (c : ℕ) (s : Bytes) → contains s (c ∷ []) ≡ false → Lacks c s
unfolding contains
Lacks-contains c [] h = tt
Lacks-contains c (d ∷ s) h =
    ((λ q. absurd (ground (arith, h, q))), Lacks-contains c s (ground (arith, h)))

split_uri-IsUri :
    (field : List Bytes) (path query : Bytes)
    → split_uri field ≡ ok (path, query)
    → IsUri field path query
unfolding split_uri cut_uri
split_uri-IsUri [] path query h = inl (refl, cc, cc)
split_uri-IsUri (uri ∷ more) path query h = elim (Bool-cases (contains uri (codes "?"))) [
  | inr f ↦
      let (whole, nothing) = plain (rw f at h) in
      inr (uri, more, refl, inl (Lacks-contains b'?' uri f, whole, nothing))
  | inl t ↦
      let (p, h₁, at_p) = steps_of _ (first (split b'?' uri)) (rw t at h) in
      let (q, h₂, at_q) = steps_of _ (second (split b'?' uri)) h₁ in
      let (same_p, same_q) = pairs p q h₂ in
      inr (
        uri,
        more,
        refl,
        inr (subst₂ (Cut b'?' uri) same_p same_q (Cut-split b'?' uri p q at_p at_q)),
      )
]
  where
    plain :
        ◌≡◌ {A = Result (Bytes × Bytes)} (ok (uri, [])) (ok (path, query))
        → (path ≡ uri) × (query ≡ [])
    plain h = (cc, cc)

    pairs :
        (p q : Bytes)
        → ◌≡◌ {A = Result (Bytes × Bytes)} (ok (p, q)) (ok (path, query))
        → (p ≡ path) × (q ≡ query)
    pairs p q h = (cc, cc)

IsNumber-of_first :
    (field : List Bytes) (n : ℤ)
    → field ≢ []
    → ((text : Bytes) → first field ≡ ok text → atoi text ≡ some n)
    → IsNumber field n
IsNumber-of_first [] n ne h = absurd (ne refl)
IsNumber-of_first (text ∷ more) n ne h = (text, more, refl, h text refl)

-- What the fields of a packet say of an entry.
abbrev pub Describes : Layers → Entry → Type 0
Describes layers (request r) =
    (layers.is_request ≢ [])
    × IsTime layers.time r.http_entry.time
    × IsNumber layers.tcp_stream r.http_entry.stream
    × (r.http_entry.body ≡ first_or [] layers.body)
    × (r.http_entry.headers ≡ layers.request_line)
    × (r.method ≡ first_or [] layers.request_method)
    × IsUri layers.request_uri r.path r.query
    × ((more : List Bytes) × (layers.dst_ip ≡ r.http_ip_and_port.dst_ip ∷ more))
    × IsNumber layers.dst_port r.http_ip_and_port.dst_port
Describes layers (response r) =
    (layers.is_request ≡ [])
    × (layers.is_response ≢ [])
    × IsTime layers.time r.http_entry.time
    × IsNumber layers.tcp_stream r.http_entry.stream
    × (r.http_entry.body ≡ first_or [] layers.body)
    × (r.http_entry.headers ≡ layers.response_line)
    × IsNumber layers.response_code r.code
Describes layers other = ⊥

-- What is sent on describes the packet: it is a request exactly for a packet that tshark marks as
-- one, otherwise a response for a packet marked as one. Its time is that of the numbers before the
-- first point of the field and behind it, up to the next point or the end; stream, port and code
-- are the numbers of the fields; data, method and address are the first texts of theirs, and the
-- headers all of theirs. The path is the URI before its first question mark, and the query what
-- stands between that one and the next or the end; without a question mark the path is the whole
-- URI, without a URI it is `/`, and the query is empty.
pub convert-Describes :
    (json : Stdout) (e : Entry) → convert json ≡ ok (some e) → Describes json.source.layers e
convert-Describes json (request r) h =
    let l = json.source.layers in
    let (is, time, stream, body, headers, method, uri, ip, some_port, port) =
      convert-Agrees json (request r) h in
    (
      is,
      parse_time-IsTime l r.http_entry.time time,
      parse_stream-IsNumber l r.http_entry.stream stream,
      body,
      headers,
      method,
      split_uri-IsUri l.request_uri r.path r.query uri,
      first-eq-ok l.dst_ip r.http_ip_and_port.dst_ip ip,
      IsNumber-of_first l.dst_port r.http_ip_and_port.dst_port some_port port,
    )
convert-Describes json (response r) h =
    let l = json.source.layers in
    let (not_request, is, time, stream, body, headers, some_code, code) =
      convert-Agrees json (response r) h in
    (
      not_request,
      is,
      parse_time-IsTime l r.http_entry.time time,
      parse_stream-IsNumber l r.http_entry.stream stream,
      body,
      headers,
      IsNumber-of_first l.response_code r.code some_code code,
    )
convert-Describes json other h = convert-Agrees json other h
