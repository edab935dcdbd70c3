-- ===== src/Server/Tests.antt =====
-- Two lines of tshark, which make one request, and a tick after it; a stored report.
use httshark.Base.{
  true, codes, arith, ◌+◌, ◌≡◌, refl, Option, some, List, [], ◌∷◌, ◌++◌, Bytes, pos, All, ◌+ℤ◌,
  ◌*ℤ◌, weight, ℕ,
}
use httshark.Core.Entries.{HttpRequest, request}
use httshark.Tshark.Line.{opening, closing, aggregate}
use httshark.Go.Text.{join, split, contains}
use httshark.Go.Number.{atoi}
use httshark.Go.Clock.{unix}
use httshark.Tshark.Bulk.Convert.{convert, convert_request, parse_time, split_uri}
use httshark.Go.Space.{trim_space}
use httshark.Tshark.Bulk.Layers.{Stdout}
use httshark.Tshark.Bulk.Loop.{on_text, parse_json}
use httshark.Tshark.Bulk.Tests.{get_json, get_request}
use httshark.Tshark.Correlator.{start, waiting, correlate, Event, entry, tick}
use httshark.Tshark.Correlator.Pending.{IsPaired}
use httshark.Tshark.Correlator.Weighed.{weight_sent, weight_replaced}
use httshark.Tshark.Correlator.Tests.{in_order, in_order-Walks}
use httshark.Export.Collect.Loops
use httshark.Export.Collect.Loops.Seen.{seen}
use httshark.Server.{entries_of, entries_of_lines, queue_all}
use httshark.Go.Text.{Lacks}
use httshark.Go.Number.{IsDigits}
use httshark.Tshark.Command.{Streamed, read_error_line, without_newline}
use httshark.Server.Drops.{report_dropped_packets}
use httshark.Server.Drops.Stored.{Lacks-all_ne, all_ne, report_of, stored_lem}
use httshark.Server.Traffic.{Ticking, ends, takes, ticks, requests_in, tshark_lem}

abbrev always_get : Bytes → Option Stdout
always_get text = some get_json

abbrev two_lines : List Bytes
two_lines = opening ∷ closing ∷ []

one_request : entries_of_lines always_get two_lines ≡ request get_request ∷ []
unfolding entries_of_lines entries_of parse_json on_text aggregate join trim_space convert
    convert_request parse_time unix split_uri split atoi contains ◌+ℤ◌ ◌*ℤ◌
one_request = refl

abbrev one_tick : List Event
one_tick = entry (request get_request) ∷ tick (pos 9) ∷ []

one-Ticking : Ticking (entries_of_lines always_get two_lines) one_tick
one-Ticking = rw one_request (takes (request get_request) (ticks (pos 9) ends))

tshark_lem_example :
    let (q, out, ending) = correlate (pos 50) in_order start one_tick in
    (ending ≡ waiting)
    × ((f : HttpRequest → ℕ)
        → requests_in f (entries_of_lines always_get two_lines)
          ≡ weight_sent f out
            + weight f q.requests
            + weight_replaced f (pos 50) in_order start one_tick)
    × All IsPaired out
    × (seen (queue_all out Loops.start) ≡ seen Loops.start ++ out)
tshark_lem_example =
    tshark_lem always_get (pos 50) in_order in_order-Walks two_lines one_tick one-Ticking
      Loops.start

abbrev noon : Bytes
noon = codes "2020-04-06 12:00:00"

no_pipe_in_noon : Lacks b'|' noon
unfolding all_ne
no_pipe_in_noon = Lacks-all_ne b'|' noon refl

device-Lacks : Lacks b':' (codes " 'eno2'") × Lacks b'(' (codes " 'eno2'")
unfolding all_ne
device-Lacks = (Lacks-all_ne b':' (codes " 'eno2'") refl, Lacks-all_ne b'(' (codes " 'eno2'") refl)

are-IsDigits : IsDigits (codes "74")
are-IsDigits = ((omega arith, omega arith), ((omega arith, omega arith), tt))

abbrev nothing_yet : Streamed
nothing_yet = record { processed = []; warned = []; persisted = [] }

stored_lem_example :
    (written : Bytes) × ((read_error_line noon
        (report_of (codes " 'eno2'") (codes "74") (codes "74") [])
        nothing_yet).persisted
      ≡ written ∷ [])
    × (report_dropped_packets
          (λ text. text)
          (codes "dcva")
          true
          (some (([] ∷ []) ++ (without_newline written ∷ [])))
        ≡ some (
            (codes "dcva" ++ codes "_received_packets", codes "74")
            ∷ (codes "dcva" ++ codes "_dropped_packets", codes "74")
            ∷ []))
stored_lem_example =
    stored_lem (λ text. text) (codes "dcva") noon (codes " 'eno2'") b'7' (codes "4") (codes "74") []
      ([] ∷ []) nothing_yet no_pipe_in_noon (device-Lacks.0) (device-Lacks.1) are-IsDigits
      are-IsDigits
