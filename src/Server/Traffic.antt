-- ===== src/Server/Traffic.antt =====
-- The tshark engine from the lines of tshark to the exporter.
use httshark.Base.{
  ℕ, ◌+◌, ◌≡◌, refl, ap, sym, ◌∙◌, Option, none, some, List, [], ◌∷◌, ◌++◌, map, append-nil,
  append_assoc, arith, Bytes, All, weight, Option-cases, inl, inr,
}
use httshark.Go.Clock.{Time, Duration}
use httshark.Core.Entries.{HttpRequest, HttpTransaction, Entry, request, response, other}
use httshark.Tshark.Line
use httshark.Tshark.Bulk.Layers.{Stdout}
use httshark.Tshark.Bulk.Convert.{Result, ok, warn, panic}
use httshark.Tshark.Bulk.Fields.{convert-Describes}
use httshark.Tshark.Bulk.Loop
use httshark.Tshark.Bulk.Loop.{Output, on_text, parse_json, text, stop}
use httshark.Tshark.Correlator.{Requests, Event, entry, tick, start, waiting, correlate}
use httshark.Tshark.Correlator.Pending.{IsPaired, IsValid, correlate-IsPaired}
use httshark.Tshark.Correlator.Timeouts.{Walks}
use httshark.Tshark.Correlator.Count.{IsTraffic, correlate_conserves}
use httshark.Tshark.Correlator.Weighed.{
  weight_sent, weight_received, weight_replaced, correlate_weighs,
}
use httshark.Export.Collect.Loops.{Processor, queue, queued}
use httshark.Export.Collect.Loops.Seen.{seen, seen-Step}
use httshark.Server.{entries_of, entries_of_lines, queue_all}

abbrev pub IsMessage : Entry → Type 0
IsMessage (request r) = Unit
IsMessage (response r) = Unit
IsMessage other = ⊥

-- The correlator takes the entries in order, with ticks between them at any places.
pub data Ticking : List Entry → List Event → Type 0 where
  ends : Ticking [] []
  takes :
      (e : Entry) {es : List Entry} {events : List Event}
      → Ticking es events
      → Ticking (e ∷ es) (entry e ∷ events)
  ticks :
      (now : Time) {es : List Entry} {events : List Event}
      → Ticking es events
      → Ticking es (tick now ∷ events)

-- the numbers of the requests among entries
abbrev pub requests_in : (HttpRequest → ℕ) → List Entry → ℕ
requests_in f [] = 0
requests_in f (request r ∷ es) = f r + requests_in f es
requests_in f (response r ∷ es) = requests_in f es
requests_in f (other ∷ es) = requests_in f es

IsMessage-of_text :
    (unmarshal : Bytes → Option Stdout) (t : Bytes) (e : Entry)
    → on_text unmarshal t ≡ ok (some e)
    → IsMessage e
unfolding on_text
IsMessage-of_text unmarshal t (request r) q = tt
IsMessage-of_text unmarshal t (response r) q = tt
IsMessage-of_text unmarshal t other q = elim (Option-cases (unmarshal t)) [
  | inl n ↦ absurd (ground arith)
  | inr (json, m) ↦ convert-Describes json other (ground arith)
]

after_text :
    (r : Result (Option Entry)) (rest : List Output × Loop.Ending)
    → ((e : Entry) → r ≡ ok (some e) → IsMessage e)
    → All IsMessage (entries_of rest.0)
    → All IsMessage (
        entries_of
          (elim r as (λ x. List Output × Loop.Ending) [
            | ok none ↦ rest
            | ok (some e) ↦ (Loop.entry e ∷ rest.0, rest.1)
            | warn w ↦ (Loop.warning w ∷ rest.0, rest.1)
            | panic ↦ ([], Loop.panicked)
          ]).0)
unfolding entries_of
after_text (ok none) rest m h = h
after_text (ok (some e)) rest m h = (m e refl, h)
after_text (warn w) rest m h = h
after_text panic rest m h = tt

entries-IsMessage :
    (unmarshal : Bytes → Option Stdout) (ts : List Bytes)
    → All IsMessage (entries_of (parse_json unmarshal (map text ts)).0)
unfolding parse_json entries_of
entries-IsMessage unmarshal [] = tt
entries-IsMessage unmarshal (t ∷ ts) =
    after_text (on_text unmarshal t) (parse_json unmarshal (map text ts))
      (IsMessage-of_text unmarshal t) (entries-IsMessage unmarshal ts)

Ticking-IsTraffic :
    (es : List Entry) (events : List Event)
    → Ticking es events
    → All IsMessage es
    → All IsTraffic events
Ticking-IsTraffic _ _ ends h = tt
Ticking-IsTraffic _ _ (takes (request r) m) (h, hs) = (tt, Ticking-IsTraffic _ _ m hs)
Ticking-IsTraffic _ _ (takes (response r) m) (h, hs) = (tt, Ticking-IsTraffic _ _ m hs)
Ticking-IsTraffic _ _ (takes other m) (h, hs) = absurd h
Ticking-IsTraffic _ _ (ticks now m) h = (tt, Ticking-IsTraffic _ _ m h)

Ticking-received :
    (f : HttpRequest → ℕ) (es : List Entry) (events : List Event)
    → Ticking es events
    → weight_received f events ≡ requests_in f es
Ticking-received f _ _ ends = refl
Ticking-received f _ _ (takes (request r) m) = omega (arith, Ticking-received f _ _ m)
Ticking-received f _ _ (takes (response r) m) = omega (arith, Ticking-received f _ _ m)
Ticking-received f _ _ (takes other m) = omega (arith, Ticking-received f _ _ m)
Ticking-received f _ _ (ticks now m) = omega (arith, Ticking-received f _ _ m)

seen-queue_all : (ts : List HttpTransaction) (p : Processor) → seen (queue_all ts p) ≡ seen p ++ ts
unfolding queue_all queue
seen-queue_all [] p = sym (append-nil _)
seen-queue_all (t ∷ ts) p =
    seen-queue_all ts (queue t p)
    ∙ ap (λ l. l ++ ts) (seen-Step p (queue t p) (t ∷ []) (queued t))
    ∙ append_assoc (seen p) (t ∷ []) ts

start-IsValid : IsValid start.requests
start-IsValid = record { distinct = tt; own = tt }

-- Whatever lines tshark writes, and wherever the correlator's ticks fall between the entries: no
-- entry makes the correlator end the process; the requests that the bulk processor made are those
-- of the transactions, those that wait still and those that were replaced by a later one on their
-- stream, each as often as it was made (whatever number `f` each request is counted with, the sums
-- agree); each transaction with a response joins a request and a response of one stream; and the
-- exporter gets these transactions, in order, after what it had.
pub tshark_lem :
    (unmarshal : Bytes → Option Stdout) (timeout : Duration) (arrange : Requests → Requests)
    → Walks arrange
    → (lines : List Bytes) (events : List Event) → Ticking (entries_of_lines unmarshal lines) events
    → (p : Processor)
    → let (q, out, ending) = correlate timeout arrange start events in
      (ending ≡ waiting)
      × ((f : HttpRequest → ℕ)
          → requests_in f (entries_of_lines unmarshal lines)
            ≡ weight_sent f out
              + weight f q.requests
              + weight_replaced f timeout arrange start events)
      × All IsPaired out
      × (seen (queue_all out p) ≡ seen p ++ out)
unfolding entries_of_lines
tshark_lem unmarshal timeout arrange walks lines events m p =
    let texts = (Line.aggregate Line.start (map Line.line lines)).1 in
    let traffic = Ticking-IsTraffic _ events m (entries-IsMessage unmarshal texts) in
    let (_, goes_on) =
      correlate_conserves timeout arrange walks start events start-IsValid refl traffic in
    (
      goes_on,
      λ f. omega (
        arith,
        correlate_weighs f timeout arrange walks start events start-IsValid refl traffic,
        Ticking-received f _ events m,
      ),
      (correlate-IsPaired timeout arrange start events start-IsValid).1,
      seen-queue_all (correlate timeout arrange start events).1 p,
    )
