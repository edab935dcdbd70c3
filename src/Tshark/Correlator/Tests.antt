-- ===== src/Tshark/Correlator/Tests.antt =====
-- Runs of the correlator, and its theorems at concrete inputs.
use httshark.Base.{
  ℕ, ◌+◌, ◌≡◌, refl, true, false, none, some, List, [], ◌∷◌, ℤ, pos, codes, lookup, insert, erase,
  int_eq, length, All, Has, if◌then◌else◌, eq_ℤ,
}
use httshark.Go.Clock.{sub}
use httshark.Core.Entries.{HttpEntry, HttpRequest, HttpResponse, request, response}
use httshark.Tshark.Correlator.{
  Requests, Event, entry, tick, Processor, waiting, update_request, is_expired, check_timeouts,
  correlate, on_event,
}
use httshark.Tshark.Correlator.Pending.{
  IsValid, IsSound, pending, pending-update_request, correlate-IsPaired,
}
use httshark.Tshark.Correlator.Timeouts.{Walks, IsGivenUp, check_timeouts_sends}
use httshark.Tshark.Correlator.Count.{received, replaced, correlate_conserves}

abbrev at : ℕ → ℕ → HttpEntry
at time stream = record {
  time = pos time;
  stream = pos stream;
  body = [];
  version = [];
  headers = [];
}

abbrev get : ℕ → ℕ → HttpRequest
get time stream = record {
  http_entry = at time stream;
  method = codes "GET";
  path = codes "/";
  query = [];
  http_ip_and_port = record { dst_ip = []; dst_port = pos 80 };
}

abbrev found : ℕ → ℕ → HttpResponse
found time stream = record { http_entry = at time stream; code = pos 200 }

-- a walk in the order of the list
abbrev pub in_order : Requests → Requests
in_order m = m

pub in_order-Walks : Walks in_order
in_order-Walks m d = (d, λ k. refl)

abbrev two_waiting : Requests
two_waiting = (pos 1, get 5 1) ∷ (pos 2, get 90 2) ∷ []

two_waiting-IsValid : IsValid two_waiting
unfolding lookup
two_waiting-IsValid = record { distinct = (refl, (refl, tt)); own = (refl, (refl, tt)) }

abbrev two : Processor
two = record { requests = two_waiting; stopped = false }

-- A request on stream 1, its response, then a tick at 100 with a timeout of 50.
abbrev traffic : List Event
traffic = entry (response (found 95 2)) ∷ entry (request (get 96 3)) ∷ tick (pos 100) ∷ []

run_traffic :
    (correlate (pos 50) in_order two traffic).1
    ≡ record { request = get 90 2; response = some (found 95 2) }
      ∷ record { request = get 5 1; response = none }
      ∷ []
unfolding correlate on_event check_timeouts is_expired sub lookup insert erase
run_traffic = refl

pending-update_request_example :
    pending (update_request (get 7 2) two_waiting) (pos 1)
    ≡ (if eq_ℤ (pos 2) (pos 1) then some (get 7 2) else pending two_waiting (pos 1))
pending-update_request_example = pending-update_request (get 7 2) two_waiting (pos 1)

correlate-IsPaired_example : IsSound (correlate (pos 50) in_order two traffic)
correlate-IsPaired_example = correlate-IsPaired (pos 50) in_order two traffic two_waiting-IsValid

check_timeouts_sends_example :
    let (kept, out) = check_timeouts (pos 50) in_order (pos 100) two_waiting in
    All (IsGivenUp (pos 50) (pos 100) two_waiting) out
    × ((stream : ℤ) (r : HttpRequest)
        → pending two_waiting stream ≡ some r
        → is_expired (pos 50) (pos 100) r ≡ true
        → Has (record { request = r; response = none }) out)
    × (length two_waiting ≡ length kept + length out)
check_timeouts_sends_example =
    check_timeouts_sends (pos 50) (pos 100) in_order in_order-Walks two_waiting two_waiting-IsValid

correlate_conserves_example :
    let (q, out, ending) = correlate (pos 50) in_order two traffic in
    (received traffic + length two.requests
      ≡ length out + length q.requests + replaced (pos 50) in_order two traffic)
    × (ending ≡ waiting)
correlate_conserves_example =
    correlate_conserves (pos 50) in_order in_order-Walks two traffic two_waiting-IsValid refl
      (tt, (tt, (tt, tt)))
