-- ===== src/Tshark/Line/Tests.antt =====
-- Runs of the line processor, and its theorems at concrete inputs.
use httshark.Base.{◌≡◌, refl, List, [], ◌∷◌, ◌++◌, map, Bytes, codes, arith}
use httshark.Tshark.Line.{line, start, aggregate}
use httshark.Tshark.Line.Chunks.{
  Chunk, noise, stray, object, texts, texts_all, render_all, aggregate-render,
}
use httshark.Go.Space.{trim_space}
use httshark.Go.Text.{join}

abbrev packet : List Bytes
packet = codes "    \"_source\": {" ∷ codes "    }" ∷ []

abbrev output : List Chunk
output = noise (codes "[") ∷ object packet ∷ stray ∷ noise (codes "]") ∷ []

sent : texts_all output ≡ codes "{\"_source\": {}}" ∷ [] ∷ []
unfolding texts join trim_space
sent = refl

aggregate-render_example :
    aggregate start (map line (render_all output ++ []))
    ≡ ((aggregate start []).0, texts_all output ++ (aggregate start []).1)
aggregate-render_example = aggregate-render output [] (ground arith)
