-- ===== src/Tshark/Correlator.antt =====
-- tshark/correlator/processor.go: pairs each response with the request that waits on its stream.
-- One goroutine runs every operation, so that its mutex never makes it wait; a call of `Processor`
-- is an output. The timeout of the configuration and the order in which Go walks through a map are
-- arguments.
pub mod Pending
pub mod Timeouts
pub mod Count
pub mod Weighed
pub mod Tests
use mathlib.Core.List.{Perm}
use httshark.Base.{
  Bool, true, false, Option, none, some, List, [], ◌∷◌, ◌++◌, ℤ, ltb_ℤ, if◌then◌else◌, int_eq,
  lookup, insert, erase,
}
use httshark.Go.Clock.{Time, Duration, sub}
use httshark.Core.Entries.{
  HttpRequest, HttpResponse, HttpTransaction, Entry, request, response, other, zero_request,
}

abbrev pub Requests : Type 0
Requests = List (ℤ × HttpRequest)

-- what `select` takes next: an entry from `p.entries`, a tick with the time that `time.Now` then
-- gives, or the value in `p.stopChannel`
pub data Event : Type 0 where
  entry : Entry → Event
  tick : Time → Event
  stop : Event

pub record Processor : Type 0 where
  pub requests : Requests
  pub stopped : Bool

-- `Logger.Fatal`, on an entry of another type, ends the process.
pub data Ending : Type 0 where
  waiting fatal : Ending

abbrev pub Outcome : Type 0
Outcome = Processor × List HttpTransaction × Ending

-- the loop goes on after a round that did not end the process
unfoldable pub resume : Outcome → Outcome → Outcome
resume (p, out, waiting) (q, outs, ending) = (q, out ++ outs, ending)
resume (p, out, fatal) rest = (p, out, fatal)

-- `Start`
abbrev pub start : Processor
start = record { requests = []; stopped = false }

unfoldable pub update_request : HttpRequest → Requests → Requests
update_request r requests = insert r.http_entry.stream r requests

unfoldable pub update_response : HttpResponse → Requests → Requests × List HttpTransaction
update_response resp requests = elim (lookup resp.http_entry.stream requests) [
  | none ↦ (requests, [])
  | some r ↦
      (erase resp.http_entry.stream requests, record { request = r; response = some resp } ∷ [])
]

unfoldable pub or_zero : Option HttpRequest → HttpRequest
or_zero none = zero_request
or_zero (some r) = r

-- the loop over `expired`
unfoldable pub expire_all : List ℤ → Requests → Requests × List HttpTransaction
unfolding or_zero
expire_all [] requests = (requests, [])
expire_all (stream ∷ expired) requests =
    let (rest, out) = expire_all expired (erase stream requests) in
    (rest, record { request = or_zero (lookup stream requests); response = none } ∷ out)

module _ (timeout : Duration) where
  -- `passed > core.Config.ResponseTimeout`
  unfoldable pub is_expired : Time → HttpRequest → Bool
  is_expired now r = ltb_ℤ timeout (sub now r.http_entry.time)

  -- the loop over the map, in the order of the list
  unfoldable pub collect_expired : Time → Requests → List ℤ
  collect_expired now [] = []
  collect_expired now ((stream, r) ∷ requests) =
      let rest = collect_expired now requests in if is_expired now r then stream ∷ rest else rest

  module _ (arrange : Requests → Requests) where
    unfoldable pub check_timeouts : Time → Requests → Requests × List HttpTransaction
    unfolding collect_expired expire_all
    check_timeouts now requests = elim (collect_expired now (arrange requests)) [
      | [] ↦ (requests, [])
      | stream ∷ expired ↦ expire_all (stream ∷ expired) requests
    ]

    -- one round of `correlate`
    unfoldable pub on_event : Processor → Event → Outcome
    unfolding update_request update_response
    on_event p (entry (request r)) =
        (record p { requests = update_request r p.requests }, [], waiting)
    on_event p (entry (response resp)) =
        let (requests, out) = update_response resp p.requests in
        (record p { requests = requests }, out, waiting)
    on_event p (entry other) = (p, [], fatal)
    on_event p (tick now) =
        let (requests, out) = check_timeouts now p.requests in
        (record p { requests = requests }, out, waiting)
    on_event p stop = (record p { stopped = true }, [], waiting)

    -- The loop of `correlate`, over the events in the order that `select` takes them.
    unfoldable pub correlate : Processor → List Event → Outcome
    unfolding resume
    correlate p [] = (p, [], waiting)
    correlate p (e ∷ es) =
        let here = on_event p e in
        let rest = correlate here.0 es in if p.stopped then (p, [], waiting) else resume here rest
