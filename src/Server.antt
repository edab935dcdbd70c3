-- ===== src/Server.antt =====
-- server/entrypoint.go: how `Run` joins the processors of the tshark engine. What one of them hands
-- on, the next one takes from a channel in the same order.
pub mod Traffic
pub mod Bucket
pub mod Drops
mod Tests
use httshark.Base.{List, Option, [], ◌∷◌, map, Bytes}
use httshark.Core.Entries.{HttpTransaction, Entry}
use httshark.Go.Clock.{Duration}
use httshark.Tshark.Line
use httshark.Tshark.Bulk.Layers.{Stdout}
use httshark.Tshark.Bulk.Loop
use httshark.Tshark.Bulk.Loop.{Output, entry, warning, parse_json}
use httshark.Tshark.Correlator.{Requests, Outcome, correlate}
use httshark.Export.Collect.Loops.{Processor, queue}

-- the calls of `HttpProcessor`, which is the correlator's `Queue`
unfoldable pub entries_of : List Output → List Entry
entries_of [] = []
entries_of (entry e ∷ outs) = e ∷ entries_of outs
entries_of (warning w ∷ outs) = entries_of outs

-- what the lines of tshark give the correlator, by the line processor and the bulk processor
unfoldable pub entries_of_lines : (Bytes → Option Stdout) → List Bytes → List Entry
unfolding entries_of
entries_of_lines unmarshal lines =
    let texts = (Line.aggregate Line.start (map Line.line lines)).1 in
    entries_of (parse_json unmarshal (map Loop.text texts)).0

-- the calls of `Processor`, which is the exporter's `Queue`
unfoldable pub queue_all : List HttpTransaction → Processor → Processor
queue_all [] p = p
queue_all (t ∷ ts) p = queue_all ts (queue t p)
