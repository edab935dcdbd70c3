-- ===== src/Export/Periodic.antt =====
-- exporters/cloud_watch_sites_stats.go: the counters of `PeriodicSiteStats`, which a tick sends to
-- CloudWatch and resets; of the two metrics the one of the transactions. The length of a file's JSON
-- text is an argument, as for `Export/Sites.antt`, and so are the type `float64`, its conversion of
-- a `uint64`, and whether `PutMetric` fails, which nobody looks at.
pub mod Totals
mod Tests
use httshark.Base.{
  ℕ, ◌+◌, ◌%◌, ◌^◌, Bool, true, false, Option, none, some, List, [], ◌∷◌, ◌++◌, length,
  if◌then◌else◌,
}
use httshark.Har.{Har}

pub record PeriodicSiteStats : Type 0 where
  pub total_size : ℕ
  pub total_transactions : ℕ

-- the counters after `reset`
abbrev pub reset : PeriodicSiteStats
reset = record { total_size = 0; total_transactions = 0 }

-- What happens to the counters: a call of `Process`, or a tick of `init`, which reads them without
-- the mutex before it resets them. Its arguments are the files that `Process` gets meanwhile, and
-- whether `PutMetric` fails.
pub data Event : Type 0 where
  file : Har → Event
  tick : List Har → Bool → Event

module _ {F : Type 0} (float64 : ℕ → F) (json_length : Har → Option ℕ) where
  abbrev pub add_length : Har → PeriodicSiteStats → Option ℕ → PeriodicSiteStats
  add_length har p none = p
  add_length har p (some data_len) = record {
    total_size = (p.total_size + data_len) % 2 ^ 64;
    total_transactions = (p.total_transactions + length har.log.entries) % 2 ^ 64;
  }

  -- `Process`; an error of `json.Marshal` changes nothing
  unfoldable pub process : Har → PeriodicSiteStats → PeriodicSiteStats
  process har p = add_length har p (json_length har)

  unfoldable pub process_all : List Har → PeriodicSiteStats → PeriodicSiteStats
  unfolding process
  process_all [] p = p
  process_all (har ∷ hars) p = process_all hars (process har p)

  -- a tick: the counters after it and the metric `total_transactions`, if CloudWatch gets it
  abbrev pub on_tick : List Har → Bool → PeriodicSiteStats → PeriodicSiteStats × Option F
  on_tick meanwhile fails p =
      let before_reset = process_all meanwhile p in
      (
        record before_reset { total_size = 0; total_transactions = 0 },
        if fails then none else some (float64 p.total_transactions),
      )

  -- the counters at the end, and the metrics `total_transactions` of the ticks
  unfoldable pub run : List Event → PeriodicSiteStats → PeriodicSiteStats × List (Option F)
  unfolding process process_all
  run [] p = (p, [])
  run (file har ∷ events) p = run events (process har p)
  run (tick meanwhile fails ∷ events) p =
      let (after_reset, metric) = on_tick meanwhile fails p in
      let (end, metrics) = run events after_reset in (end, metric ∷ metrics)
