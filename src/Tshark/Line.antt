-- ===== src/Tshark/Line.antt =====
-- tshark/line/processor.go: collects the lines of each packet's JSON object. A channel is the
-- sequence of the events that the goroutine takes from it; a call of `BulkProcessor` is an output.
pub mod Chunks
mod Tests
use httshark.Base.{Bool, true, false, List, [], ◌∷◌, ◌++◌, Bytes, codes, same, if◌then◌else◌}
use httshark.Go.Text.{join}
use httshark.Go.Space.{trim_space}

-- The local variables of `aggregate` and the field `stopped`.
pub record Processor : Type 0 where
  pub lines : List Bytes
  pub collect : Bool
  pub stopped : Bool

-- What `select` takes next: a line from `p.lines`, or the value in `p.stopChannel`.
pub data Event : Type 0 where
  line : Bytes → Event
  stop : Event

abbrev pub opening : Bytes
opening = codes "  {"

abbrev pub closing : Bytes
closing = codes "  }"

-- `Start`
abbrev pub start : Processor
start = record { lines = []; collect = false; stopped = false }

-- One line: the new state, and the texts that go to `BulkProcessor`.
unfoldable pub on_line : Processor → Bytes → Processor × List Bytes
on_line p l =
    let collect = (if same l opening then true else p.collect) in
    let lines = (if collect then p.lines ++ (trim_space l ∷ []) else p.lines) in
    if same l closing
    then (record p { lines = []; collect = false }, join [] lines ∷ [])
    else (record p { lines = lines; collect = collect }, [])

unfoldable pub on_event : Processor → Event → Processor × List Bytes
unfolding on_line
on_event p (line l) = on_line p l
on_event p stop = (record p { stopped = true }, [])

-- The loop of `aggregate` over the events in the order that `select` takes them.
unfoldable pub aggregate : Processor → List Event → Processor × List Bytes
unfolding on_event
aggregate p [] = (p, [])
aggregate p (e ∷ es) =
    let (q, out) = on_event p e in
    let (r, outs) = aggregate q es in if p.stopped then (p, []) else (r, out ++ outs)
