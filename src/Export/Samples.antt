-- ===== src/Export/Samples.antt =====
-- exporters/sample_transactions.go: `Process` of `SampleTransactions`. Saving a file is an
-- argument, of the number of the file and the entry; it tells whether it failed.
pub mod Budget
mod Tests
use httshark.Base.{
  ℕ, suc, ◌+◌, ◌*◌, ◌-◌, ◌==◌, Bool, true, false, not, List, [], ◌∷◌, ℤ, pos, ◌+ℤ◌, ltb_ℤ,
  if◌then◌else◌,
}
use httshark.Har.{Entry}

-- `printed`, which never falls below 0, and `sequence`
pub record SampleTransactions : Type 0 where
  pub printed : ℕ
  pub sequence : ℕ

-- a tick of `init`, with the configured rate
abbrev pub on_tick : ℕ → SampleTransactions → SampleTransactions
on_tick rate s = record s { printed = rate }

-- `isRelevant`
unfoldable pub is_relevant : Entry → Bool
is_relevant entry =
    let size = entry.request.body_size +ℤ entry.request.headers_size in
    let size_of_both = size +ℤ (entry.response.body_size +ℤ entry.response.headers_size) in
    ltb_ℤ (pos (2 * 1024 * 1024)) (if entry.response.exists then size_of_both else size)

module _ (fails : ℕ → Entry → Bool) where
  -- `Process`: the state, the entries for which `print` was called, and whether an error was
  -- returned
  unfoldable pub process : List Entry → SampleTransactions → SampleTransactions × List Entry × Bool
  unfolding is_relevant
  process [] s = (s, [], false)
  process (entry ∷ entries) s =
      let s' : SampleTransactions = record { printed = s.printed - 1; sequence = s.sequence + 1 } in
      let (s₁, saved₁, failed₁) = process entries s' in
      let skipped = process entries s in
      if not (is_relevant entry)
      then skipped
      else if s.printed == 0
      then skipped
      else if fails s'.sequence entry
      then (s', entry ∷ [], true)
      else (s₁, entry ∷ saved₁, failed₁)
