-- ===== src/Tshark/Correlator/Count.antt =====
-- No request is lost but one that another replaces on its stream.
use httshark.Base.{
  ℕ, ◌+◌, ◌≡◌, refl, ◌∙◌, false, none, some, List, [], ◌∷◌, ◌++◌, arith, int_eq, if_false, All,
  length, length-append, length-insert, length-erase,
}
use httshark.Go.Clock.{Duration}
use httshark.Core.Entries.{request, response, other}
use httshark.Tshark.Correlator.{
  Requests, Event, entry, tick, stop, Processor, Outcome, waiting, fatal, resume, update_request,
  update_response, on_event, correlate,
}
use httshark.Tshark.Correlator.Pending.{IsValid, pending, on_event-IsValid}
use httshark.Tshark.Correlator.Timeouts.{Walks, check_timeouts_sends}

-- requests, responses and ticks: what does not end the loop
abbrev pub IsTraffic : Event → Type 0
IsTraffic (entry (request r)) = Unit
IsTraffic (entry (response r)) = Unit
IsTraffic (entry other) = ⊥
IsTraffic (tick now) = Unit
IsTraffic stop = ⊥

abbrev pub is_request : Event → ℕ
is_request (entry (request r)) = 1
is_request e = 0

abbrev pub received : List Event → ℕ
received [] = 0
received (e ∷ es) = is_request e + received es

-- a request that finds another waiting on its stream
abbrev pub replaces : Processor → Event → ℕ
replaces p (entry (request r)) = elim (pending p.requests r.http_entry.stream) [
  | none ↦ 0
  | some w ↦ 1
]
replaces p e = 0

resume_waiting :
    (here rest : Outcome) → here.2 ≡ waiting → resume here rest ≡ (rest.0, here.1 ++ rest.1, rest.2)
unfolding resume
resume_waiting (p, out, waiting) rest h = refl
resume_waiting (p, out, fatal) rest h = absurd (cc)

module _ (timeout : Duration) (arrange : Requests → Requests) where
  abbrev pub replaced : Processor → List Event → ℕ
  replaced p [] = 0
  replaced p (e ∷ es) = replaces p e + replaced (on_event timeout arrange p e).0 es

  module _ (walks : Walks arrange) where
    count_event :
        (p : Processor) (e : Event)
        → IsValid p.requests
        → is_request e + length p.requests
          ≡ length (on_event timeout arrange p e).1
            + length (on_event timeout arrange p e).0.requests
            + replaces p e
    unfolding on_event update_request update_response
    count_event p (entry (request r)) v =
        ground (arith, length-insert r.http_entry.stream r p.requests)
    count_event p (entry (response resp)) v =
        ground (arith, length-erase resp.http_entry.stream p.requests v.distinct)
    count_event p (entry other) v = omega arith
    count_event p (tick now) v =
        omega (arith, (check_timeouts_sends timeout now arrange walks p.requests v).2)
    count_event p stop v = omega arith

    pub goes_on :
        (p : Processor) (e : Event)
        → IsTraffic e
        → ((on_event timeout arrange p e).2 ≡ waiting)
          × ((on_event timeout arrange p e).0.stopped ≡ p.stopped)
    unfolding on_event
    goes_on p (entry (request r)) t = (refl, refl)
    goes_on p (entry (response resp)) t = (refl, refl)
    goes_on p (entry other) t = elim t [ ]
    goes_on p (tick now) t = (refl, refl)
    goes_on p stop t = elim t [ ]

    pub correlate_step :
        (p : Processor) (e : Event) (es : List Event)
        → p.stopped ≡ false
        → (on_event timeout arrange p e).2 ≡ waiting
        → correlate timeout arrange p (e ∷ es) ≡ (
            let here = on_event timeout arrange p e in
            let rest = correlate timeout arrange here.0 es in (rest.0, here.1 ++ rest.1, rest.2))
    unfolding correlate
    correlate_step p e es s go =
        if_false p.stopped _ _ s
        ∙ resume_waiting (on_event timeout arrange p e)
            (correlate timeout arrange (on_event timeout arrange p e).0 es) go

    -- Over any sequence of requests, responses and ticks, the requests that came in and those that
    -- waited at first are as many as the transactions sent, the requests that wait at the end and
    -- the requests that were replaced by a later one on their stream; and the loop goes on.
    pub correlate_conserves :
        (p : Processor) (es : List Event)
        → IsValid p.requests
        → p.stopped ≡ false
        → All IsTraffic es
        → let (q, out, ending) = correlate timeout arrange p es in
          (received es + length p.requests ≡ length out + length q.requests + replaced p es)
          × (ending ≡ waiting)
    correlate_conserves p [] v s t = unfold correlate in (omega arith, refl)
    correlate_conserves p (e ∷ es) v s (t, ts) =
        let (go, running) = goes_on p e t in
        let (n, w) =
          correlate_conserves (on_event timeout arrange p e).0 es
            (on_event-IsValid timeout arrange p e v) (running ∙ s) ts in
        rw (correlate_step p e es s go) (
          omega (
            arith,
            count_event p e v,
            n,
            length-append (on_event timeout arrange p e).1
                (correlate timeout arrange (on_event timeout arrange p e).0 es).1,
          ),
          w,
        )
