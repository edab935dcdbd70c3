-- ===== src/Export/Periodic/Tests.antt =====
-- Two files with a tick in between, during which another file comes.
use httshark.Base.{◌≡◌, refl, true, false, ◌+◌, ℕ, arith, Option, some, List, [], ◌∷◌, length}
use httshark.Har.{Har}
use httshark.Export.Split.{get_har_file}
use httshark.Export.Split.Tests.{three}
use httshark.Export.Periodic.{Event, file, tick, reset, run}
use httshark.Export.Periodic.Totals.{sum_of, processed, lost, run_adds_up}

abbrev as_long_as_entries : Har → Option ℕ
as_long_as_entries har = some (length har.log.entries)

-- the second metric does not come to CloudWatch
abbrev events : List Event
events =
    file (get_har_file three)
    ∷ tick (get_har_file three ∷ []) false
    ∷ file (get_har_file three)
    ∷ tick [] true
    ∷ []

run_adds_up_example :
    let (end, metrics) = run (λ n. n) as_long_as_entries events reset in
    sum_of (λ n. n) metrics + end.total_transactions + lost as_long_as_entries 0 events
    ≡ 0 + processed as_long_as_entries events
run_adds_up_example =
    run_adds_up as_long_as_entries (λ n. n) (λ n. n) (λ n h. refl) events reset
      (unfold get_har_file in omega arith)
