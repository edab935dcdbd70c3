-- ===== src/Export/Periodic/Totals.antt =====
-- What CloudWatch gets adds up to what was processed.
use httshark.Base.{
  ℕ, ◌+◌, ◌^◌, ◌≤◌, ◌≡◌, ap, true, false, Option, none, some, List, [], ◌∷◌, arith, length, inl,
  inr, Option-cases,
}
use httshark.Har.{Har}
use httshark.Export.Periodic.{PeriodicSiteStats, Event, file, tick, reset, process, run}

-- the sum of what has come to CloudWatch, read as numbers
abbrev pub sum_of {ℓ} : {F : Type ℓ} → (F → ℕ) → List (Option F) → ℕ
sum_of number [] = 0
sum_of number (none ∷ ms) = sum_of number ms
sum_of number (some x ∷ ms) = number x + sum_of number ms

module _ (json_length : Har → Option ℕ) where
  -- the entries of the files that can be marshalled
  abbrev pub counted : Har → Option ℕ → ℕ
  counted har none = 0
  counted har (some n) = length har.log.entries

  abbrev pub counted_all : List Har → ℕ
  counted_all [] = 0
  counted_all (har ∷ hars) = counted har (json_length har) + counted_all hars

  abbrev pub processed : List Event → ℕ
  processed [] = 0
  processed (file har ∷ events) = counted har (json_length har) + processed events
  processed (tick meanwhile fails ∷ events) = counted_all meanwhile + processed events

  -- The entries that no metric tells of, where the counter stands at `n`: those of the files that
  -- come between the reading of the counters and the reset, and what had been counted since the
  -- last reset where `PutMetric` fails.
  abbrev pub lost : ℕ → List Event → ℕ
  lost n [] = 0
  lost n (file har ∷ events) = lost (n + counted har (json_length har)) events
  lost n (tick meanwhile false ∷ events) = counted_all meanwhile + lost 0 events
  lost n (tick meanwhile true ∷ events) = n + counted_all meanwhile + lost 0 events

  module _ {F : Type 0} (float64 : ℕ → F) (number : F → ℕ)
      (exact : (n : ℕ) → n ≤ 2 ^ 53 → number (float64 n) ≡ n) where
    process_adds :
        (har : Har) (p : PeriodicSiteStats) (rest : ℕ)
        → p.total_transactions + (counted har (json_length har) + rest) ≤ 2 ^ 53
        → (process float64 json_length har p).total_transactions
          ≡ p.total_transactions + counted har (json_length har)
    unfolding process
    process_adds har p rest h = elim (Option-cases (json_length har)) [
      | inl q ↦ rw (process, q) (omega arith)
      | inr (n, q) ↦ rw (process, q) (omega (arith, rw q at h))
    ]

    -- A `float64` has the numbers up to 2^53 exactly. As long as the total is at most 2^53, the
    -- metrics that CloudWatch gets from the ticks, the counter at the end and what is lost are
    -- together the counter at the start and the entries of all files; files that cannot be
    -- marshalled do not count. Lost are exactly the entries of the files that come between a tick's
    -- reading of the counters and its reset, and, where `PutMetric` fails at a tick, also what had
    -- been counted since the last reset.
    pub run_adds_up :
        (events : List Event) (p : PeriodicSiteStats)
        → p.total_transactions + processed events ≤ 2 ^ 53
        → let (end, metrics) = run float64 json_length events p in
          sum_of number metrics + end.total_transactions + lost p.total_transactions events
          ≡ p.total_transactions + processed events
    unfolding run
    run_adds_up [] p h = omega arith
    run_adds_up (file har ∷ events) p h =
        let added = process_adds har p (processed events) h in
        omega (
          arith,
          added,
          ap (λ n. lost n events) added,
          run_adds_up events (process float64 json_length har p) (omega (arith, added)),
        )
    run_adds_up (tick meanwhile false ∷ events) p h =
        omega
          (arith, exact p.total_transactions (omega arith), run_adds_up events reset (omega arith))
    run_adds_up (tick meanwhile true ∷ events) p h =
        omega (arith, run_adds_up events reset (omega arith))
