-- ===== src/Tshark/Correlator/Weighed.antt =====
-- Which requests a run sends, keeps and replaces: each as often as it came.
use httshark.Base.{
  ℕ, ◌+◌, ◌≡◌, ◌∙◌, false, List, [], ◌∷◌, ◌++◌, arith, ℤ, int_eq, erase, erase-DistinctKeys,
  DistinctKeys, All, weight, weight_of, weight-insert, weight-erase,
}
use httshark.Go.Clock.{Duration, Time}
use httshark.Core.Entries.{HttpRequest, HttpTransaction, request, response, other}
use httshark.Tshark.Correlator.{
  Requests, Event, entry, tick, stop, Processor, or_zero, update_request, update_response,
  expire_all, collect_expired, on_event, correlate,
}
use httshark.Tshark.Correlator.Pending.{IsValid, pending, on_event-IsValid}
use httshark.Tshark.Correlator.Timeouts.{Walks, Waits, check_timeouts_lem, waits}
use httshark.Tshark.Correlator.Count.{IsTraffic, goes_on, correlate_step}

-- Each request has a number: 1 for those that one counts and 0 for the others, for instance.
module _ (f : HttpRequest → ℕ) where
  abbrev pub weight_sent : List HttpTransaction → ℕ
  weight_sent [] = 0
  weight_sent (t ∷ ts) = f t.request + weight_sent ts

  abbrev pub weight_in : Event → ℕ
  weight_in (entry (request r)) = f r
  weight_in e = 0

  abbrev pub weight_received : List Event → ℕ
  weight_received [] = 0
  weight_received (e ∷ es) = weight_in e + weight_received es

  -- the request that an event takes the place of
  abbrev pub weight_replaced_by : Processor → Event → ℕ
  weight_replaced_by p (entry (request r)) = weight_of f (pending p.requests r.http_entry.stream)
  weight_replaced_by p e = 0

  weight_sent-append :
      (ts us : List HttpTransaction) → weight_sent (ts ++ us) ≡ weight_sent ts + weight_sent us
  weight_sent-append [] us = omega arith
  weight_sent-append (t ∷ ts) us = omega (arith, weight_sent-append ts us)

  weight-expire_all :
      (timeout : Duration) (now : Time) (ss : List ℤ) (m : Requests)
      → DistinctKeys m
      → Waits timeout now ss m
      → weight f m ≡ weight f (expire_all ss m).0 + weight_sent (expire_all ss m).1
  unfolding expire_all or_zero
  weight-expire_all timeout now [] m d ws = omega arith
  weight-expire_all timeout now (s ∷ ss) m d (r, e, x, ws) = ground (
    arith,
    e,
    weight-expire_all timeout now ss (erase s m) (erase-DistinctKeys s m d) ws,
    weight-erase f s m d,
  )

  module _ (timeout : Duration) (arrange : Requests → Requests) where
    abbrev pub weight_replaced : Processor → List Event → ℕ
    weight_replaced p [] = 0
    weight_replaced p (e ∷ es) =
        weight_replaced_by p e + weight_replaced (on_event timeout arrange p e).0 es

    module _ (walks : Walks arrange) where
      weigh_event :
          (p : Processor) (e : Event)
          → IsValid p.requests
          → weight_in e + weight f p.requests
            ≡ weight_sent (on_event timeout arrange p e).1
              + weight f (on_event timeout arrange p e).0.requests
              + weight_replaced_by p e
      unfolding on_event update_request update_response
      weigh_event p (entry (request r)) v =
          omega (arith, weight-insert f r.http_entry.stream r p.requests)
      weigh_event p (entry (response resp)) v =
          ground (arith, weight-erase f resp.http_entry.stream p.requests v.distinct)
      weigh_event p (entry other) v = omega arith
      weigh_event p (tick now) v =
          let ss = collect_expired timeout now (arrange p.requests) in
          rw (check_timeouts_lem timeout now arrange walks p.requests) (
            omega (
              arith,
              weight-expire_all timeout now ss p.requests v.distinct
                  (waits timeout now arrange walks p.requests v.distinct),
            ))
      weigh_event p stop v = omega arith

      -- Whatever number each request has, those that came in and those that waited at first have
      -- together the numbers of those sent, of those that wait at the end and of those replaced.
      pub correlate_weighs :
          (p : Processor) (es : List Event)
          → IsValid p.requests
          → p.stopped ≡ false
          → All IsTraffic es
          → let (q, out, ending) = correlate timeout arrange p es in
            weight_received es + weight f p.requests
            ≡ weight_sent out + weight f q.requests + weight_replaced p es
      correlate_weighs p [] v s t = unfold correlate in omega arith
      correlate_weighs p (e ∷ es) v s (t, ts) =
          let (go, running) = goes_on timeout arrange walks p e t in
          let here = on_event timeout arrange p e in
          let n =
            correlate_weighs here.0 es (on_event-IsValid timeout arrange p e v) (running ∙ s) ts in
          rw (correlate_step timeout arrange walks p e es s go) (
            omega (
              arith,
              weigh_event p e v,
              n,
              weight_sent-append here.1 (correlate timeout arrange here.0 es).1,
            ))
