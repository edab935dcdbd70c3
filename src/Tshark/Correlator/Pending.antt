-- ===== src/Tshark/Correlator/Pending.antt =====
-- The requests that wait: each under its own stream, one for each stream; and what a response
-- does to them.
use httshark.Base.{
  ◌≡◌, refl, Bool, true, false, Option, none, some, List, [], ◌∷◌, arith, ℤ, eq_ℤ, eq_ℤ_iff, int_eq,
  if◌then◌else◌, lookup, erase, lookup-insert, lookup-erase, DistinctKeys, Each,
  insert-DistinctKeys, erase-DistinctKeys, insert-Each, erase-Each, lookup-Each, All, All-append,
  Option-cases, inl, inr,
}
use httshark.Go.Clock.{Time, Duration}
use httshark.Core.Entries.{HttpRequest, HttpResponse, HttpTransaction, request, response, other}
use httshark.Tshark.Correlator.{
  Requests, Event, entry, tick, stop, Processor, Outcome, waiting, fatal, resume, update_request,
  update_response, expire_all, check_timeouts, collect_expired, on_event, correlate,
}

abbrev pub OwnStream : ℤ → HttpRequest → Type 0
OwnStream stream r = r.http_entry.stream ≡ stream

pub record IsValid (requests : Requests) : Type 0 where
  pub distinct : DistinctKeys requests
  pub own : Each OwnStream requests

-- The abstract view: the request that waits on a stream.
abbrev pub pending : Requests → ℤ → Option HttpRequest
pending requests stream = lookup stream requests

-- A request becomes the one that waits on its stream, in the place of any that did; the other
-- streams keep theirs.
pub pending-update_request :
    (r : HttpRequest) (requests : Requests) (stream : ℤ)
    → pending (update_request r requests) stream
      ≡ (if eq_ℤ r.http_entry.stream stream then some r else pending requests stream)
unfolding update_request
pending-update_request r requests stream = lookup-insert r.http_entry.stream stream r requests

-- A response takes the request that waits on its stream, if there is one, and the transaction of
-- the two is sent on; on no stream does another request come or go. A response that finds no
-- request changes nothing and is dropped.
update_response_lem :
    (resp : HttpResponse) (requests : Requests)
    → ((stream : ℤ)
        → pending (update_response resp requests).0 stream
          ≡ (if eq_ℤ resp.http_entry.stream stream then none else pending requests stream))
      × ((update_response resp requests).1 ≡ (elim (pending requests resp.http_entry.stream) [
        | none ↦ []
        | some r ↦ record { request = r; response = some resp } ∷ []
      ]))
unfolding update_response
update_response_lem resp requests = (
  λ stream. ground (
    arith,
    lookup-erase resp.http_entry.stream stream requests,
    eq_ℤ_iff resp.http_entry.stream stream,
  ),
  ground arith,
)

pub update_request-IsValid :
    (r : HttpRequest) (requests : Requests) → IsValid requests → IsValid (update_request r requests)
unfolding update_request
update_request-IsValid r requests v = record {
  distinct = insert-DistinctKeys r.http_entry.stream r requests v.distinct;
  own = insert-Each OwnStream r.http_entry.stream r requests refl v.own;
}

pub erase-IsValid : (k : ℤ) (requests : Requests) → IsValid requests → IsValid (erase k requests)
erase-IsValid k requests v = record {
  distinct = erase-DistinctKeys k requests v.distinct;
  own = erase-Each OwnStream k requests v.own;
}

pub update_response-IsValid :
    (resp : HttpResponse) (requests : Requests)
    → IsValid requests
    → IsValid (update_response resp requests).0
unfolding update_response
update_response-IsValid resp requests v =
    ground (arith, erase-IsValid resp.http_entry.stream requests v)

pub expire_all-IsValid :
    (streams : List ℤ) (requests : Requests)
    → IsValid requests
    → IsValid (expire_all streams requests).0
unfolding expire_all
expire_all-IsValid [] requests v = v
expire_all-IsValid (s ∷ streams) requests v =
    expire_all-IsValid streams (erase s requests) (erase-IsValid s requests v)

-- A transaction with a response joins two entries of one stream.
abbrev pub IsPaired : HttpTransaction → Type 0
IsPaired t =
    (resp : HttpResponse)
    → t.response ≡ some resp
    → t.request.http_entry.stream ≡ resp.http_entry.stream

expire_all-IsPaired :
    (streams : List ℤ) (requests : Requests) → All IsPaired (expire_all streams requests).1
unfolding expire_all
expire_all-IsPaired [] requests = tt
expire_all-IsPaired (s ∷ streams) requests =
    (λ resp h. cc, expire_all-IsPaired streams (erase s requests))

update_response-IsPaired :
    (resp : HttpResponse) (requests : Requests)
    → IsValid requests
    → All IsPaired (update_response resp requests).1
unfolding update_response
update_response-IsPaired resp requests v = elim (Option-cases (lookup stream requests)) [
  | inl e ↦ rw (e, All) tt
  | inr (r, e) ↦
      let own : r.http_entry.stream ≡ stream = lookup-Each OwnStream stream r requests v.own e in
      rw (e, All) ((λ resp' h. cc), tt)
]
  where
    open resp.http_entry use {stream}

-- Valid requests wait, and what was sent is paired.
abbrev pub IsSound : Outcome → Type 0
IsSound o = IsValid o.0.requests × All IsPaired o.1

resume-IsSound : (here rest : Outcome) → IsSound here → IsSound rest → IsSound (resume here rest)
unfolding resume
resume-IsSound (p, out, waiting) (q, outs, ending) h k = (k.0, All-append IsPaired out outs h.1 k.1)
resume-IsSound (p, out, fatal) rest h k = h

if-IsSound : (b : Bool) (x y : Outcome) → IsSound x → IsSound y → IsSound (if b then x else y)
if-IsSound true x y h k = h
if-IsSound false x y h k = k

module _ (timeout : Duration) (arrange : Requests → Requests) where
  pub check_timeouts-IsValid :
      (now : Time) (requests : Requests)
      → IsValid requests
      → IsValid (check_timeouts timeout arrange now requests).0
  unfolding check_timeouts
  check_timeouts-IsValid now requests v =
      ground
        (arith, v, expire_all-IsValid (collect_expired timeout now (arrange requests)) requests v)

  check_timeouts-IsPaired :
      (now : Time) (requests : Requests)
      → All IsPaired (check_timeouts timeout arrange now requests).1
  unfolding check_timeouts
  check_timeouts-IsPaired now requests = go (collect_expired timeout now (arrange requests))
    where
      go :
          (streams : List ℤ)
          → All IsPaired (
              let r : Requests × List HttpTransaction = elim streams [
                | [] ↦ (requests, [])
                | s ∷ more ↦ expire_all (s ∷ more) requests
              ] in
              r.1)
      go [] = tt
      go (s ∷ more) = expire_all-IsPaired (s ∷ more) requests

  pub on_event-IsValid :
      (p : Processor) (e : Event)
      → IsValid p.requests
      → IsValid (on_event timeout arrange p e).0.requests
  unfolding on_event
  on_event-IsValid p (entry (request r)) v = update_request-IsValid r p.requests v
  on_event-IsValid p (entry (response resp)) v = update_response-IsValid resp p.requests v
  on_event-IsValid p (entry other) v = v
  on_event-IsValid p (tick now) v = check_timeouts-IsValid now p.requests v
  on_event-IsValid p stop v = v

  on_event-IsPaired :
      (p : Processor) (e : Event)
      → IsValid p.requests
      → All IsPaired (on_event timeout arrange p e).1
  unfolding on_event
  on_event-IsPaired p (entry (request r)) v = tt
  on_event-IsPaired p (entry (response resp)) v = update_response-IsPaired resp p.requests v
  on_event-IsPaired p (entry other) v = tt
  on_event-IsPaired p (tick now) v = check_timeouts-IsPaired now p.requests
  on_event-IsPaired p stop v = tt

  -- In every run the requests that wait stand under their own streams, one on each, and each
  -- transaction that is sent with a response joins a request and a response of one stream.
  pub correlate-IsPaired :
      (p : Processor) (es : List Event)
      → IsValid p.requests
      → IsSound (correlate timeout arrange p es)
  unfolding correlate
  correlate-IsPaired p [] v = (v, tt)
  correlate-IsPaired p (e ∷ es) v =
      if-IsSound p.stopped _ _ (v, tt)
        (resume-IsSound (on_event timeout arrange p e) _
          (on_event-IsValid p e v, on_event-IsPaired p e v)
          (correlate-IsPaired (on_event timeout arrange p e).0 es (on_event-IsValid p e v)))
