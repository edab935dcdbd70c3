-- ===== src/Tshark/Bulk/Loop.antt =====
-- tshark/bulk/processor.go: `Start` and the loop of `parseJson`. The outputs are the calls of
-- `HttpProcessor` and the warnings, in order.
use httshark.Base.{Option, none, some, List, [], ◌∷◌, Bytes}
use httshark.Core.Entries.{Entry}
use httshark.Tshark.Bulk.Layers.{Stdout}
use httshark.Tshark.Bulk.Convert.{Warning, bad_json, Result, ok, warn, panic, convert}

-- a text from `p.json`, or the value in `p.stopChannel`
pub data Event : Type 0 where
  text : Bytes → Event
  stop : Event

pub data Output : Type 0 where
  entry : Entry → Output
  warning : Warning → Output

-- how the loop stands: it waits for events, has returned, or has ended the process by a panic
pub data Ending : Type 0 where
  waiting stopped panicked : Ending

module _ (unmarshal : Bytes → Option Stdout) where
  -- one text: what `convert` does, or the warning on text that is no JSON
  unfoldable pub on_text : Bytes → Result (Option Entry)
  on_text t = elim (unmarshal t) [ none ↦ warn bad_json | some json ↦ convert json ]

  unfoldable pub parse_json : List Event → List Output × Ending
  unfolding on_text
  parse_json [] = ([], waiting)
  parse_json (stop ∷ es) = ([], stopped)
  parse_json (text t ∷ es) =
      let (outs, ending) = parse_json es in
      elim (on_text t) [
        | ok none ↦ (outs, ending)
        | ok (some e) ↦ (entry e ∷ outs, ending)
        | warn w ↦ (warning w ∷ outs, ending)
        | panic ↦ ([], panicked)
      ]
